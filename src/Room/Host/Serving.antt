-- ===== src/Room/Host/Serving.antt =====
-- What the host's main loop shows and broadcasts.
use nullpipe.Common.{
  ◌≡◌, refl, sym, ap, ◌∙◌, Bool, true, false, none, some, List, [], ◌∷◌, ◌++◌, append_assoc,
  append-nil, map, subst, ok, err, if◌then◌else◌,
}
use nullpipe.Std.Text.{Text}
use nullpipe.Types.{ChatError, ChatEvent, message, room_ready, room_closed, error, HostConfig}
use nullpipe.External.Channels.{Sender, SenderLaws}
use nullpipe.Wire.{WireMessage, chat_message}
use nullpipe.Room.Host.{
  Turn, shutdown, outgoing, incoming, hub_id, is_chat, Hosting, Progress, waiting, finished, speak,
  hear, serve, wait_out, run_host_loop,
}

-- The host's own texts up to the end of the loop.
abbrev pub own_texts : List Turn → List Text
own_texts [] = []
own_texts (shutdown ∷ turns) = []
own_texts (outgoing none ∷ turns) = []
own_texts (outgoing (some text) ∷ turns) = text ∷ own_texts turns
own_texts (incoming none ∷ turns) = []
own_texts (incoming (some m) ∷ turns) = own_texts turns

-- What the host's user is shown: own texts, the chat messages of peers, and the end of a room that was shut down.
abbrev pub shown : Text → List Turn → List ChatEvent
shown name [] = []
shown name (shutdown ∷ turns) = room_closed ∷ []
shown name (outgoing none ∷ turns) = []
shown name (outgoing (some text) ∷ turns) = message hub_id name text ∷ shown name turns
shown name (incoming none ∷ turns) = []
shown name (incoming (some (peer_id, m)) ∷ turns) =
    let rest = shown name turns in
    if is_chat m.kind then message peer_id m.name m.text ∷ rest else rest

-- The events behind an onion service that could not be made.
abbrev pub shown_without_room : List Turn → List ChatEvent
shown_without_room [] = []
shown_without_room (shutdown ∷ turns) = room_closed ∷ []
shown_without_room (outgoing none ∷ turns) = []
shown_without_room (outgoing (some text) ∷ turns) = shown_without_room turns
shown_without_room (incoming m ∷ turns) = shown_without_room turns

module _ (sender : Sender) (sender_laws : SenderLaws sender) (config : HostConfig) where
  open sender_laws use {taken, Open, try_taken, send_taken}

  -- There is always room for an event.
  abbrev pub HasRoom : Type 0
  HasRoom = (e : ChatEvent) (c : sender.Channel) → (sender.try_send e c).0 ≡ true

  abbrev pub state : Progress sender config → Hosting sender config
  state (waiting h) = h
  state (finished h) = h

  abbrev Served :
      List ChatEvent → List WireMessage → Hosting sender config → Hosting sender config → Type 0
  Served events messages before after =
      (taken after.channel ≡ taken before.channel ++ events)
      × (after.broadcasts ≡ before.broadcasts ++ messages)
      × (after.invite_info ≡ before.invite_info)

  Served-chain :
      (events more : List ChatEvent) (messages others : List WireMessage)
      (h t u : Hosting sender config)
      → Served events messages h t
      → Served more others t u
      → Served (events ++ more) (messages ++ others) h u
  Served-chain events more messages others h t u (a, b, c) (a', b', c') = (
    a' ∙ ap (λ l. l ++ more) a ∙ append_assoc (taken h.channel) events more,
    b' ∙ ap (λ l. l ++ others) b ∙ append_assoc h.broadcasts messages others,
    c' ∙ c,
  )

  Served-none : (h : Hosting sender config) → Served [] [] h h
  Served-none h = (sym (append-nil (taken h.channel)), sym (append-nil h.broadcasts), refl)

  hear-Served :
      (b : Bool) (e : ChatEvent) (h : Hosting sender config)
      → HasRoom
      → Served
          (if b then e ∷ [] else [])
          []
          h
          (if b then record h { channel = (sender.try_send e h.channel).1 } else h)
  hear-Served true e h room =
      (try_taken e h.channel (room e h.channel), sym (append-nil h.broadcasts), refl)
  hear-Served false e h room = Served-none h

  if-append :
      (b : Bool) (e : ChatEvent) (es : List ChatEvent)
      → (if b then e ∷ [] else []) ++ es ≡ (if b then e ∷ es else es)
  if-append true e es = refl
  if-append false e es = refl

  serve-Served :
      (turns : List Turn) (h : Hosting sender config)
      → HasRoom
      → Served
          (shown config.name turns)
          (map (chat_message config.name) (own_texts turns))
          h
          (state (serve sender config turns h))
  unfolding serve
  serve-Served [] h room = Served-none h
  serve-Served (shutdown ∷ turns) h room = hear-Served true room_closed h room
  serve-Served (outgoing none ∷ turns) h room = Served-none h
  serve-Served (outgoing (some text) ∷ turns) h room =
      let e : ChatEvent = message hub_id config.name text in
      Served-chain (e ∷ []) (shown config.name turns) (chat_message config.name text ∷ [])
        (map (chat_message config.name) (own_texts turns)) h (speak sender config text h)
        (state (serve sender config turns (speak sender config text h)))
        (try_taken e h.channel (room e h.channel), refl, refl)
        (serve-Served turns (speak sender config text h) room)
  serve-Served (incoming none ∷ turns) h room = Served-none h
  serve-Served (incoming (some (peer_id, m)) ∷ turns) h room =
      let e : ChatEvent = message peer_id m.name m.text in
      let h₁ = hear sender config peer_id m h in
      subst
        (λ es.
          Served es (map (chat_message config.name) (own_texts turns)) h
            (state (serve sender config turns h₁)))
        (if-append (is_chat m.kind) e (shown config.name turns))
        (Served-chain (if is_chat m.kind then e ∷ [] else []) (shown config.name turns) []
          (map (chat_message config.name) (own_texts turns)) h h₁
          (state (serve sender config turns h₁)) (hear-Served (is_chat m.kind) e h room)
          (serve-Served turns h₁ room))

  wait_out-Served :
      (turns : List Turn) (h : Hosting sender config)
      → HasRoom
      → Served (shown_without_room turns) [] h (state (wait_out sender config turns h))
  unfolding wait_out
  wait_out-Served [] h room = Served-none h
  wait_out-Served (shutdown ∷ turns) h room = hear-Served true room_closed h room
  wait_out-Served (outgoing none ∷ turns) h room = Served-none h
  wait_out-Served (outgoing (some text) ∷ turns) h room = wait_out-Served turns h room
  wait_out-Served (incoming m ∷ turns) h room = wait_out-Served turns h room

  -- With room in the event channel: once the onion service is there, the host is shown that the room is ready, then
  -- its own texts and the chat messages of its peers in the order of the turns, and last the closing of a room
  -- that was shut down; and it broadcasts its own texts, each once and in order, and no message of a peer.
  pub run_host_loop_serves :
      (onion_address : Text) (turns : List Turn) (h : Hosting sender config)
      → HasRoom
      → Open h.channel
      → let after = state (run_host_loop sender config (ok onion_address) turns h) in
        (taken after.channel
          ≡ taken h.channel ++ room_ready onion_address 80 ∷ shown config.name turns)
        × (after.broadcasts ≡ h.broadcasts ++ map (chat_message config.name) (own_texts turns))
        × (after.invite_info
            ≡ some (record {
              onion_address = onion_address;
              port = 80;
              ttl_secs = config.invite_ttl_secs;
            }))
  unfolding run_host_loop
  run_host_loop_serves onion_address turns h room open_ =
      let e : ChatEvent = room_ready onion_address 80 in
      let c₁ : sender.Channel = (sender.send e h.channel).1 in
      let h₁ : Hosting sender config = record h {
        channel = c₁;
        invite_info = some (record {
          onion_address = onion_address;
          port = 80;
          ttl_secs = config.invite_ttl_secs;
        });
      } in
      let (a, b, c) = serve-Served turns h₁ room in
      (
        a
            ∙ ap (λ l. l ++ shown config.name turns) (send_taken e h.channel open_).0
            ∙ append_assoc (taken h.channel) (e ∷ []) (shown config.name turns),
        b,
        c,
      )

  -- Without an onion service, and with room in the event channel, the host is shown the error, and the end of the room when
  -- it is shut down; nothing is broadcast and the invite data stays as it was.
  pub run_host_loop_without_room :
      (problem : ChatError) (turns : List Turn) (h : Hosting sender config)
      → HasRoom
      → Open h.channel
      → let after = state (run_host_loop sender config (err problem) turns h) in
        (taken after.channel ≡ taken h.channel ++ error problem ∷ shown_without_room turns)
        × (after.broadcasts ≡ h.broadcasts)
        × (after.invite_info ≡ h.invite_info)
  unfolding run_host_loop
  run_host_loop_without_room problem turns h room open_ =
      let e : ChatEvent = error problem in
      let h₁ : Hosting sender config = record h { channel = (sender.send e h.channel).1 } in
      let (a, b, c) = wait_out-Served turns h₁ room in
      (
        a
            ∙ ap (λ l. l ++ shown_without_room turns) (send_taken e h.channel open_).0
            ∙ append_assoc (taken h.channel) (e ∷ []) (shown_without_room turns),
        b ∙ append-nil h.broadcasts,
        c,
      )
