-- ===== src/Room/Conversation.antt =====
-- A whole conversation of a joiner with the host of crates/core/src/room.rs: the handshake of both sides, then the joiner's reader and
-- writer, interleaved, and the hub's reader.
use nullpipe.Common.{
  suc, ◌≡◌, refl, sym, ◌∙◌, subst, true, false, Option, some, List, [], ◌∷◌, ◌++◌, append_assoc,
  map, All, length, ok,
}
use nullpipe.Std.Utf8.{Bytes, IsUtf8}
use nullpipe.Std.Text.{Text}
use nullpipe.Types.{ChatEvent, message, PeerId}
use nullpipe.External.Codecs.{Base58}
use nullpipe.External.Actions.{Returns}
use nullpipe.Nonces.{Nonces, contains, insert}
use nullpipe.Wire.{WireMessage, system_message, encode_message}
use nullpipe.Wire.Reading.{At}
use nullpipe.Joiner.Handshake.{handshake}
use nullpipe.Joiner.Handshake.Agreement.{handshake_accepted}
use nullpipe.Joiner.Outbox.{Outbox}
use nullpipe.Joiner.Reader.Delivery.{Frames}
use nullpipe.Joiner.Writer.{waiting}
use nullpipe.Joiner.Writer.Sending.{ChatFrames}
use nullpipe.Joiner.Running.{Running, run_connected}
use nullpipe.Joiner.Running.Steps.{Setting, Stands, go}
use nullpipe.Joiner.Running.Merging.{move_of, rounds, texts_of, Shown, run_connected_merges}
use nullpipe.Room.Handshake.{hub_handshake}
use nullpipe.Room.Handshake.Admission.{hub_handshake_admits}
use nullpipe.Room.Host.Serving.{shown}
use nullpipe.Room.PeerIo.{hub_reader_task}
use nullpipe.Room.PeerIo.Reading.{turns_of, hub_reader_task-shown}

module _ (w : Setting) (base58 : Base58) where
  open w use {json, json_laws, st, laws, sender, sender_laws, name, peer_id}
  open sender_laws use {taken, Open}

  -- Over a whole conversation on streams that work, with a fresh nonce, UTF-8 text whose frames can be encoded, and
  -- room in the joiner's event channel, in whatever order the joiner's writer and its reader, with a round for each
  -- message of the hub, take their turns: both handshakes succeed, the joiner writes exactly what the hub reads, it
  -- is shown one event for each message of the hub and for each of its own texts, both in their order, and the host
  -- is shown exactly the joiner's texts under its name, in order.
  pub conversation :
      (nonce discriminator frame coming out : Bytes) (schedule : List (Option Text))
      (ms : List WireMessage) (ns : Nonces) (host : Text) (joiner hub : st.State)
      (o : Outbox sender)
      → record { text = base58.to_base58 discriminator } ≡ peer_id
      → length nonce ≡ 16
      → length discriminator ≡ 16
      → IsUtf8 name
      → All IsUtf8 (texts_of schedule)
      → encode_message json (system_message name) ≡ ok frame
      → contains ns nonce ≡ false
      → rounds schedule ≡ length ms
      → Frames json ms coming
      → ChatFrames json name (texts_of schedule) out
      → Open o.channel
      → o.pending ≡ []
      → At st laws joiner (0 ∷ coming) []
      → At st laws hub (nonce ++ discriminator ++ (frame ++ out)) []
      → (joiner' hub' : st.State) × (r' : Running json st sender) × (new : List ChatEvent)
        × (sent : List (PeerId × WireMessage)) × Returns
            (handshake json base58 st discriminator name nonce)
            joiner
            peer_id
            joiner'
        × Returns (hub_handshake json base58 st) (hub, ns) (peer_id, name) (hub', insert ns nonce)
        × (go w
              (map move_of schedule ++ [])
              (record { stream = joiner'; outbox = o; reading = true })
            ≡ waiting r')
        × (laws.written r'.stream ≡ laws.unread hub)
        × Shown w ms schedule new
        × (taken r'.outbox.channel ≡ taken o.channel ++ new)
        × (hub_reader_task json st peer_id (suc (length (texts_of schedule))) hub' [] ≡ some sent)
        × (shown host (turns_of json json_laws st laws sent)
            ≡ map (message peer_id name) (texts_of schedule))
  unfolding run_connected
  conversation nonce discriminator frame coming out schedule ms ns host joiner hub o same hn hd text
        all e fresh size frames chats opened empty hj hh =
      let (joiner', joined, hj') =
        handshake_accepted json base58 st laws discriminator nonce name frame joiner e hj in
      let (hub', admitted, hh') =
        hub_handshake_admits json base58 st laws json_laws nonce discriminator name frame ns hub hn
          hd text e fresh hh in
      let begun : Running json st sender = record {
        stream = joiner';
        outbox = o;
        reading = true;
      } in
      let stands : Stands w begun (taken o.channel) coming (nonce ++ discriminator ++ frame) =
        record {
          at = hj';
          reads = refl;
          open_lem = opened;
          pending_lem = empty;
          taken_lem = refl;
        } in
      let (r', new, runs, merged, h) =
        run_connected_merges w schedule ms [] begun (taken o.channel) coming out
          (nonce ++ discriminator ++ frame) size frames chats stands in
      let (sent, passed, seen) =
        hub_reader_task-shown json json_laws st laws host peer_id name (texts_of schedule) out _
          hub' text all chats hh' in
      (
        joiner',
        hub',
        r',
        new,
        sent,
        subst (λ id. Returns (handshake json base58 st discriminator name nonce) joiner id joiner')
            same joined,
        subst
            (λ id.
              Returns (hub_handshake json base58 st) (hub, ns) (id, name) (hub', insert ns nonce))
            same admitted,
        runs,
        h.at.written_lem ∙ append_assoc (nonce ++ discriminator) frame out ∙ sym hh.coming_lem,
        merged,
        h.taken_lem,
        passed,
        seen,
      )
