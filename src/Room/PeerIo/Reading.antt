-- ===== src/Room/PeerIo/Reading.antt =====
-- What the readers of a connection pass on.
use nullpipe.Common.{
  ℕ, zero, suc, ◌<◌, ◌≡◌, refl, sym, ap, ◌∙◌, Bool, true, false, List, [], ◌∷◌, ◌++◌, append_assoc,
  append-nil, map, length-map, length, All, some, ok, err, if◌then◌else◌, arith,
}
use nullpipe.Std.Utf8.{Bytes, IsUtf8}
use nullpipe.Std.Text.{Text}
use nullpipe.Types.{ChatError, message, PeerId}
use nullpipe.External.Streams.{Stream, StreamLaws}
use nullpipe.Wire.{Json, JsonLaws, WireMessage, chat_message, read_frame}
use nullpipe.Wire.Reading.{At, At-coming, read_frame_end, read_frame-encode_message}
use nullpipe.Joiner.Reader.Delivery.{Frames, end, one_more}
use nullpipe.Joiner.Writer.Sending.{ChatFrames, chats-Frames}
use nullpipe.Room.Host.{Turn, incoming}
use nullpipe.Room.Host.Serving.{shown}
use nullpipe.Room.PeerIo.{checked, incoming_message, is_ping, forward, hub_reader_task}

module _ (json : Json) (json_laws : JsonLaws json) (st : Stream) (laws : StreamLaws st) where
  -- The messages of a peer that the host sees.
  abbrev pub forwarded : PeerId → List WireMessage → List (PeerId × WireMessage)
  forwarded peer_id [] = []
  forwarded peer_id (m ∷ ms) =
      let rest = forwarded peer_id ms in
      if is_ping json st m.kind then rest else (peer_id, m) ∷ rest

  forward-append :
      (peer_id : PeerId) (m : WireMessage) (sent : List (PeerId × WireMessage))
      (ms : List WireMessage)
      → forward json st peer_id m sent ++ forwarded peer_id ms ≡ sent ++ forwarded peer_id (m ∷ ms)
  forward-append peer_id m sent ms = by_kind (is_ping json st m.kind)
    where
      by_kind :
          (b : Bool)
          → (if b then sent else sent ++ (peer_id, m) ∷ []) ++ forwarded peer_id ms
            ≡ sent ++ (if b then forwarded peer_id ms else (peer_id, m) ∷ forwarded peer_id ms)
      by_kind true = refl
      by_kind false = append_assoc sent ((peer_id, m) ∷ []) (forwarded peer_id ms)

  hub_reader_task_stop :
      (peer_id : PeerId) (fuel : ℕ) (s : st.State) (sent : List (PeerId × WireMessage))
      (e : ChatError)
      → (read_frame st s).0 ≡ ok (err e)
      → hub_reader_task json st peer_id (suc fuel) s sent ≡ some sent
  unfolding hub_reader_task
  hub_reader_task_stop peer_id fuel s sent e h = rw (h, hub_reader_task) refl

  -- The hub's reader puts every message of a peer other than a ping on the message channel, in order, with the peer's
  -- identifier, and ends when the peer has closed its side.
  pub hub_reader_task_forwards :
      (peer_id : PeerId) (fuel : ℕ) (ms : List WireMessage) (bytes done : Bytes) (s : st.State)
      (sent : List (PeerId × WireMessage))
      → length ms < fuel
      → Frames json ms bytes
      → At st laws s bytes done
      → hub_reader_task json st peer_id fuel s sent ≡ some (sent ++ forwarded peer_id ms)
  unfolding hub_reader_task
  hub_reader_task_forwards peer_id zero ms bytes done s sent enough frames h = absurd (omega arith)
  hub_reader_task_forwards peer_id (suc fuel) [] bytes done s sent enough end h =
      let (e, failed) = read_frame_end st laws s h in
      hub_reader_task_stop peer_id fuel s sent e failed ∙ ap some (sym (append-nil sent))
  hub_reader_task_forwards peer_id (suc fuel) (m ∷ ms) all done s sent enough
        (one_more {bytes = bytes} {rest = rest} text e more split) h =
      let (got, decoded, h₁) =
        read_frame-encode_message st laws json json_laws m bytes rest done s text e
          (At-coming st laws s h split) in
      let read : incoming_message json st (read_frame st s).0 ≡ ok m =
        ap (incoming_message json st) got ∙ ap (checked json st) decoded in
      let step : hub_reader_task json st peer_id (suc fuel) s sent
          ≡ hub_reader_task json st peer_id fuel (read_frame st s).1
              (forward json st peer_id m sent) =
        rw (read, hub_reader_task) refl in
      step
      ∙ hub_reader_task_forwards peer_id fuel ms rest done (read_frame st s).1
          (forward json st peer_id m sent) (omega arith) more h₁
      ∙ ap some (forward-append peer_id m sent ms)

  -- The turns of the host's main loop on what the reader put on the message channel.
  abbrev pub turns_of : List (PeerId × WireMessage) → List Turn
  turns_of [] = []
  turns_of (m ∷ ms) = incoming (some m) ∷ turns_of ms

  forwarded-chats :
      (host : Text) (peer_id : PeerId) (name : Text) (texts : List Text)
      → shown host (turns_of (forwarded peer_id (map (chat_message name) texts)))
        ≡ map (message peer_id name) texts
  unfolding chat_message
  forwarded-chats host peer_id name [] = refl
  forwarded-chats host peer_id name (text ∷ texts) =
      ap (◌∷◌ (message peer_id name text)) (forwarded-chats host peer_id name texts)

  -- From a joiner to the host: the bytes that a joiner's writer sends for some texts make the hub's reader put messages on
  -- the channel that the host's main loop shows as exactly these texts under the joiner's name, in order.
  pub hub_reader_task-shown :
      (host : Text) (peer_id : PeerId) (name : Text) (texts : List Text) (bytes done : Bytes)
      (s : st.State)
      → IsUtf8 name
      → All IsUtf8 texts
      → ChatFrames json name texts bytes
      → At st laws s bytes done
      → (sent : List (PeerId × WireMessage)) × (hub_reader_task json st peer_id
            (suc (length texts))
            s
            []
          ≡ some sent)
        × (shown host (turns_of sent) ≡ map (message peer_id name) texts)
  hub_reader_task-shown host peer_id name texts bytes done s hn ht frames h = (
    forwarded peer_id (map (chat_message name) texts),
    hub_reader_task_forwards peer_id (suc (length texts)) (map (chat_message name) texts) bytes done
        s [] (omega (arith, length-map (chat_message name) texts))
        (chats-Frames json name texts bytes hn ht frames) h,
    forwarded-chats host peer_id name texts,
  )
