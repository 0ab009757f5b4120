-- ===== src/Hub/Joined.antt =====
-- A joiner of crates/core/src/joiner.rs at the hub of crates/core/src/hub.rs, which does not read the name that the joiner sends
-- behind the handshake.
use nullpipe.Common.{
  suc, ◌≡◌, refl, sym, ap, ◌∙◌, false, List, [], ◌∷◌, ◌++◌, append_assoc, append-nil, map,
  length-map, All, length, take, some, ok, arith,
}
use nullpipe.Std.Utf8.{Bytes, IsUtf8, is_utf8}
use nullpipe.Std.Text.{Text, lit}
use nullpipe.Types.{message, PeerId}
use nullpipe.External.Codecs.{Base58, Hex}
use nullpipe.External.Streams.{Stream, StreamLaws}
use nullpipe.External.Actions.{Returns}
use nullpipe.Nonces.{Nonces, contains, insert}
use nullpipe.Wire.{Json, JsonLaws, system_message, chat_message, encode_message}
use nullpipe.Wire.Reading.{At}
use nullpipe.Joiner.Handshake.{handshake as joiner_handshake}
use nullpipe.Joiner.Handshake.Agreement.{handshake_accepted}
use nullpipe.Joiner.Reader.Delivery.{one_more}
use nullpipe.Joiner.Writer.Sending.{ChatFrames, chats-Frames}
use nullpipe.Hub.Handshake.{handshake}
use nullpipe.Hub.Handshake.Pieces.{handshake_whole}
use nullpipe.Hub.Tasks.{Passed, reader_task}
use nullpipe.Hub.Tasks.Serving.{pass_all, reader_task-pass_all}

module _ (json : Json) (json_laws : JsonLaws json) (base58 : Base58) (hex : Hex) (st : Stream)
    (laws : StreamLaws st) where
  -- What the hub's reader has passed on, with some texts of a peer at the end, which sends them under one name and is known
  -- to the hub under another.
  abbrev said : PeerId → Text → Text → List Text → Passed → Passed
  said id known name texts p = record p {
    messages = p.messages ++ map (λ text. (id, chat_message name text)) texts;
    events = p.events ++ map (message id known) texts;
  }

  pass_all-chats :
      (id : PeerId) (known name : Text) (texts : List Text) (p : Passed)
      → pass_all json json_laws st laws id known (map (chat_message name) texts) p
        ≡ said id known name texts p
  unfolding chat_message
  pass_all-chats id known name [] p = rw (append-nil p.messages, append-nil p.events) refl
  pass_all-chats id known name (text ∷ texts) p =
      let one : Passed = said id known name (text ∷ []) p in
      pass_all-chats id known name texts one
      ∙ rw
          (
            append_assoc p.messages ((id, chat_message name text) ∷ [])
                (map (λ t. (id, chat_message name t)) texts),
            append_assoc p.events (message id known text ∷ []) (map (message id known) texts),
          )
          refl

  -- A joiner at this hub, on streams that work, with a fresh nonce and UTF-8 text whose frames can be encoded: both
  -- handshakes succeed, whatever pieces the network cuts, and agree on the joiner's identifier. When the joiner then
  -- sends some texts and closes, the hub's reader takes the name in front of them for a system message of the
  -- joiner; it queues the texts under the name that the joiner chose, and makes an event of each under a name that
  -- comes from the identifier, all in order.
  pub joiner_at_hub :
      (nonce discriminator name frame out : Bytes) (texts : List Text) (ns : Nonces)
      (joiner hub : st.State)
      → length nonce ≡ 16
      → length discriminator ≡ 16
      → IsUtf8 name
      → All IsUtf8 texts
      → encode_message json (system_message name) ≡ ok frame
      → ChatFrames json name texts out
      → contains ns nonce ≡ false
      → At st laws joiner (0 ∷ []) []
      → At st laws hub ((nonce ++ discriminator) ++ (frame ++ out)) []
      → (joiner' hub' : st.State) × Returns
          (joiner_handshake json base58 st discriminator name nonce)
          joiner
          (record { text = base58.to_base58 discriminator })
          joiner'
        × (handshake base58 hex st (hub, ns)
            ≡ some (
              ok (
                record { text = base58.to_base58 discriminator },
                lit "peer-" ++ hex.encode (take 4 discriminator),
              ),
              (hub', insert ns nonce),
            ))
        × (laws.written hub' ≡ laws.unread joiner)
        × (laws.unread hub ≡ laws.written joiner' ++ out)
        × (reader_task json st
              (record { text = base58.to_base58 discriminator })
              (lit "peer-" ++ hex.encode (take 4 discriminator))
              (suc (suc (length texts)))
              hub'
              (record { messages = []; events = []; replies = [] })
            ≡ some (record {
              messages =
                  (record { text = base58.to_base58 discriminator }, system_message name)
                  ∷ map
                      (λ text.
                        (record { text = base58.to_base58 discriminator }, chat_message name text))
                      texts;
              events =
                  map
                    (message
                      (record { text = base58.to_base58 discriminator })
                      (lit "peer-" ++ hex.encode (take 4 discriminator)))
                    texts;
              replies = [];
            }))
  unfolding system_message is_utf8
  joiner_at_hub nonce discriminator name frame out texts ns joiner hub hn hd text all e chats fresh
        hj hh =
      let id : PeerId = record { text = base58.to_base58 discriminator } in
      let known : Text = lit "peer-" ++ hex.encode (take 4 discriminator) in
      let (joiner', joined, hj') =
        handshake_accepted json base58 st laws discriminator nonce name frame joiner e hj in
      let (hub', admitted, hh') =
        handshake_whole base58 hex st laws nonce discriminator ns hub hn hd fresh hh in
      let sent = chats-Frames json name texts out text all chats in
      let passed =
        reader_task-pass_all json json_laws st laws id known (suc (suc (length texts)))
          (system_message name ∷ map (chat_message name) texts) (frame ++ out) _ hub'
          (record { messages = []; events = []; replies = [] })
          (omega (arith, length-map (chat_message name) texts)) (one_more (refl, text) e sent refl)
          hh' in
      (
        joiner',
        hub',
        joined,
        admitted,
        hh'.written_lem ∙ sym hj.coming_lem,
        hh.coming_lem
            ∙ sym (append_assoc (nonce ++ discriminator) frame out)
            ∙ ap (λ b. b ++ out) (sym hj'.written_lem),
        passed ∙ ap some (pass_all-chats id known name texts _),
      )
