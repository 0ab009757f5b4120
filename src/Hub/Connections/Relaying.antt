-- ===== src/Hub/Connections/Relaying.antt =====
-- A peer's chat message on its way through the hub to another peer.
use nullpipe.Common.{
  ℕ, zero, suc, ◌+◌, ◌≤◌, ◌<◌, ◌≡◌, ◌≢◌, refl, sym, ap, ◌∙◌, subst, true, some, List, [], ◌∷◌, ◌++◌,
  append_assoc, append-nil, length, length-append, length-drop, drop, get_elem?, get_elem?-set_same,
  get_elem?-set_other, ltb, if◌then◌else◌, ok, arith,
}
use nullpipe.Std.Utf8.{Bytes}
use nullpipe.Std.Text.{Text}
use nullpipe.Types.{ChatEvent, message, PeerId}
use nullpipe.External.Codecs.{Base58, Hex}
use nullpipe.External.Streams.{Stream, StreamLaws}
use nullpipe.Wire.{
  Json, JsonLaws, IsText, WireMessage, chat, chat_message, encode_message, read_frame,
}
use nullpipe.Wire.Reading.{At, read_frame-encode_message}
use nullpipe.Hub.{Hub}
use nullpipe.Hub.Tasks.{received, well_formed, pass, encoded, event_message}
use nullpipe.Hub.Connections.{
  Serving, identity, nothing, pass_on, after_read, read_round, queue_capacity, frames_of,
}
use nullpipe.Hub.Connections.Moves.{moved, at_connection, read, moves, move}
use nullpipe.Hub.Connections.Keeping.{Conn}
use nullpipe.Hub.Connections.Writing.{flat, bytes_of, event_bytes, Writing}
use nullpipe.Hub.Connections.Delivering.{oldest}
use nullpipe.Hub.Connections.CatchingUp.{writes, writer_catches_up}

drop-snoc :
    {A : Type 0} (n : ℕ) (xs : List A) (x : A)
    → n ≤ length xs
    → drop n (xs ++ x ∷ []) ≡ drop n xs ++ x ∷ []
drop-snoc zero xs x h = refl
drop-snoc (suc n) [] x h = absurd (omega arith)
drop-snoc (suc n) (y ∷ xs) x h = drop-snoc n xs x (omega arith)

module _ (json : Json) (json_laws : JsonLaws json) (base58 : Base58) (hex : Hex) (st : Stream)
    (laws : StreamLaws st) where
  event_bytes-append :
      (xs ys : List ChatEvent)
      → event_bytes json base58 hex st laws (xs ++ ys)
        ≡ event_bytes json base58 hex st laws xs ++ event_bytes json base58 hex st laws ys
  event_bytes-append [] ys = refl
  event_bytes-append (x ∷ xs) ys =
      let front : Bytes = bytes_of (encoded json st (event_message json st x)) in
      ap (λ b. front ++ b) (event_bytes-append xs ys)
      ∙ sym (
          append_assoc front (event_bytes json base58 hex st laws xs)
            (event_bytes json base58 hex st laws ys))

  -- The hub with a peer's chat message in its queue and among its events.
  abbrev pub heard : PeerId → Text → WireMessage → Hub → Hub
  heard id name m hub = record hub {
    queue = hub.queue ++ (id, m) ∷ [];
    events = hub.events ++ message id name m.text ∷ [];
  }

  pass_on-chat :
      (i : ℕ) (id : PeerId) (name : Text) (m : WireMessage) (hub : Hub)
      → m.kind ≡ chat
      → pass_on json base58 hex st i
          (pass json st id name m.kind m (nothing json base58 hex st))
          hub
        ≡ heard id name m hub
  pass_on-chat i id name m hub kind =
      ap
        (λ k.
          pass_on json base58 hex st i (pass json st id name k m (nothing json base58 hex st)) hub)
        kind
      ∙ ap (λ l. record (heard id name m hub) { sends = l }) (append-nil hub.sends)

  reads :
      (i : ℕ) (id : PeerId) (name : Text) (m : WireMessage) (bytes rest done : Bytes)
      (sv : Serving json base58 hex st) (c : Conn json base58 hex st)
      → get_elem? sv.connections i ≡ some c
      → identity json base58 hex st c.phase ≡ some (id, name)
      → c.reading ≡ true
      → length sv.hub.queue < queue_capacity
      → m.kind ≡ chat
      → IsText m
      → encode_message json m ≡ ok bytes
      → At st laws c.stream (bytes ++ rest) done
      → move json base58 hex st (read i) sv
        ≡ moved json base58 hex st i
            (record c { stream = (read_frame st c.stream).1 }, heard id name m sv.hub)
            sv
  unfolding move read_round
  reads i id name m bytes rest done sv c here who reading room kind text e at =
      let (got, decoded, next) =
        read_frame-encode_message st laws json json_laws m bytes rest done c.stream text e at in
      let room_lem : ltb (length sv.hub.queue) queue_capacity ≡ true = ground arith in
      let taken : received json st (read_frame st c.stream).0 ≡ some m =
        ap (received json st) got ∙ ap (well_formed json st) decoded in
      let s' : st.State = (read_frame st c.stream).1 in
      let stay : Conn json base58 hex st × Hub = (c, sv.hub) in
      let go_on : Conn json base58 hex st × Hub =
        after_read json base58 hex st i (id, name) c sv.hub s'
          (received json st (read_frame st c.stream).0) in
      ap
        (λ o.
          at_connection json base58 hex st i o
            (λ c hub. read_round json base58 hex st i (identity json base58 hex st c.phase) c hub)
            sv)
        here
      ∙ ap (λ r. moved json base58 hex st i r sv)
          (ap (λ w. read_round json base58 hex st i w c sv.hub) who
            ∙ ap
                (λ b.
                  if b
                  then (if ltb (length sv.hub.queue) queue_capacity then go_on else stay)
                  else stay)
                reading
            ∙ ap (λ b. if b then go_on else stay) room_lem
            ∙ ap (after_read json base58 hex st i (id, name) c sv.hub s') taken
            ∙ ap (λ h. (record c { stream = s' }, h)) (pass_on-chat i id name m sv.hub kind))

  -- The bytes for the last event behind those for the events before it.
  last_event :
      (n : ℕ) (events : List ChatEvent) (id : PeerId) (name text : Text) (frame : Bytes)
      → n ≤ length events
      → encode_message json (chat_message name text) ≡ ok frame
      → event_bytes json base58 hex st laws (drop n (events ++ message id name text ∷ []))
        ≡ event_bytes json base58 hex st laws (drop n events) ++ frame
  last_event n events id name text frame h e =
      ap (event_bytes json base58 hex st laws) (drop-snoc n events (message id name text) h)
      ∙ event_bytes-append (drop n events) (message id name text ∷ [])
      ∙ ap (λ b. event_bytes json base58 hex st laws (drop n events) ++ b)
          (append-nil (bytes_of (encoded json st (some (chat_message name text))))
            ∙ rw (bytes_of, encoded, e) refl)

  -- On streams that work, a UTF-8 chat message that has come from one peer is read in one turn, if the user's queue
  -- has room, and is then the last in the queue; and as many turns of another peer's writer as there are frames and
  -- events, and two more, write it behind all else to that peer's stream, which the writer never flushes, as a chat
  -- message under the name that the hub has for the sender, if that can be encoded and the writer has not taken more
  -- events than there are. What had been written to the stream before is kept.
  pub chat_is_relayed :
      (i j : ℕ) (id to : PeerId) (name to_name : Text) (m : WireMessage)
      (bytes rest done frame coming sent : Bytes) (sv : Serving json base58 hex st)
      (c d : Conn json base58 hex st)
      → i ≢ j
      → get_elem? sv.connections i ≡ some c
      → get_elem? sv.connections j ≡ some d
      → identity json base58 hex st c.phase ≡ some (id, name)
      → c.reading ≡ true
      → length sv.hub.queue < queue_capacity
      → m.kind ≡ chat
      → IsText m
      → encode_message json m ≡ ok bytes
      → At st laws c.stream (bytes ++ rest) done
      → Writing json base58 hex st laws to to_name d coming sent
      → d.events_taken ≤ length sv.hub.events
      → encode_message json (chat_message name m.text) ≡ ok frame
      → (n : ℕ) × (d' : Conn json base58 hex st) × (between : Bytes) × (n
          ≤ 2 + length (frames_of j sv.hub.sends) + length sv.hub.events)
        × ((moves json base58 hex st (read i ∷ writes j n) sv).hub.queue
            ≡ sv.hub.queue ++ (id, m) ∷ [])
        × (get_elem? (moves json base58 hex st (read i ∷ writes j n) sv).connections j ≡ some d')
        × Writing json base58 hex st laws to to_name d' coming ((sent ++ between) ++ frame)
  unfolding moves
  chat_is_relayed i j id to name to_name m bytes rest done frame coming sent sv c d ne at_i at_j who
        reading room kind text e at h behind e' =
      let c' : Conn json base58 hex st = record c { stream = (read_frame st c.stream).1 } in
      let hub : Hub = heard id name m sv.hub in
      let sv₁ : Serving json base58 hex st = moved json base58 hex st i (c', hub) sv in
      let step = reads i id name m bytes rest done sv c at_i who reading room kind text e at in
      let (n, d', few, runs, waits, h') =
        writer_catches_up json base58 hex st laws j to to_name sv₁ d coming sent
          (get_elem?-set_other sv.connections i j c' ne ∙ at_j) h in
      let all_moves : moves json base58 hex st (read i ∷ writes j n) sv
          ≡ moved json base58 hex st j (d', hub) sv₁ =
        ap (moves json base58 hex st (writes j n)) step ∙ runs in
      let own : List Bytes = drop d.own_taken (frames_of j sv.hub.sends) in
      let k : ℕ = oldest json base58 hex st laws j to to_name hub d in
      let missed : Bytes = event_bytes json base58 hex st laws (drop k sv.hub.events) in
      let size : length hub.events ≡ length sv.hub.events + 1 =
        length-append sv.hub.events (message id name m.text ∷ []) in
      let few_lem : n ≤ 2 + length (frames_of j sv.hub.sends) + length sv.hub.events = omega (
        arith,
        few,
        size,
        length-drop d.own_taken (frames_of j sv.hub.sends),
        length-drop k hub.events,
      ) in
      let kept : k ≤ length sv.hub.events = omega (arith, size, behind) in
      let written : (sent ++ flat own) ++ event_bytes json base58 hex st laws (drop k hub.events)
          ≡ (sent ++ (flat own ++ missed)) ++ frame =
        ap (λ b. (sent ++ flat own) ++ b) (last_event k sv.hub.events id name m.text frame kept e')
        ∙ sym (append_assoc (sent ++ flat own) missed frame)
        ∙ ap (λ b. b ++ frame) (append_assoc sent (flat own) missed) in
      (
        n,
        d',
        flat own ++ missed,
        few_lem,
        ap (λ x. x.hub.queue) all_moves,
        ap (λ x. get_elem? x.connections j) all_moves
            ∙ get_elem?-set_same sv₁.connections j d'
                (get_elem?-set_other sv.connections i j c' ne ∙ at_j),
        subst (Writing json base58 hex st laws to to_name d' coming) written h',
      )
