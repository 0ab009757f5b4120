-- ===== src/Joiner/Reader/Delivery.antt =====
-- The joiner's reader delivers every message of the hub, in order.
use nullpipe.Common.{
  ℕ, zero, suc, ◌<◌, ◌≡◌, sym, ap, ◌∙◌, List, [], ◌∷◌, ◌++◌, append_assoc, append-nil, map, length,
  some, ok, err, arith,
}
use nullpipe.Std.Utf8.{Bytes}
use nullpipe.Types.{ChatError}
use nullpipe.External.Streams.{Stream, StreamLaws}
use nullpipe.External.Channels.{Sender, SenderLaws}
use nullpipe.Wire.{Json, JsonLaws, WireMessage, IsText, encode_message, decode_message, read_frame}
use nullpipe.Wire.Reading.{At, At-coming, read_frame_end, read_frame-encode_message}
use nullpipe.Joiner.Reader.{incoming_event, handle_incoming_frame, reader_loop}

-- These bytes are the frames of these messages, one behind the other.
pub data Frames (json : Json) : List WireMessage → Bytes → Type 0 where
  end : Frames json [] []
  one_more :
      {m : WireMessage} {ms : List WireMessage} {bytes rest all : Bytes}
      → IsText m
      → encode_message json m ≡ ok bytes
      → Frames json ms rest
      → all ≡ bytes ++ rest
      → Frames json (m ∷ ms) all

module _ (json : Json) (json_laws : JsonLaws json) (st : Stream) (laws : StreamLaws st)
    (sender : Sender) (sender_laws : SenderLaws sender) where
  open sender_laws use {taken, Open, send_taken}

  reader_loop_stop :
      (fuel : ℕ) (s : st.State) (c : sender.Channel) (e : ChatError)
      → (read_frame st s).0 ≡ ok (err e)
      → reader_loop json st sender (suc fuel) s c ≡ some ((read_frame st s).1, c)
  unfolding reader_loop
  reader_loop_stop fuel s c e h = rw (h, reader_loop)

  pub handle_incoming_frame_sends :
      (m : WireMessage) (bytes : Bytes) (c : sender.Channel)
      → decode_message json bytes ≡ ok m
      → handle_incoming_frame json st sender bytes c ≡ (sender.send (incoming_event m) c).1
  unfolding handle_incoming_frame
  handle_incoming_frame_sends m bytes c decoded = rw (decoded, handle_incoming_frame)

  reader_loop_step :
      (fuel : ℕ) (s : st.State) (c : sender.Channel) (frame : Bytes)
      → (read_frame st s).0 ≡ ok (ok frame)
      → reader_loop json st sender (suc fuel) s c
        ≡ reader_loop json st sender fuel
            (read_frame st s).1
            (handle_incoming_frame json st sender frame c)
  unfolding reader_loop
  reader_loop_step fuel s c frame h = rw (h, reader_loop)

  -- When the hub sends these messages and closes, the loop ends, and the channel has taken one event for
  -- each message, in the order of the messages. One round more than there are messages is enough.
  pub reader_loop_delivers :
      (fuel : ℕ) (ms : List WireMessage) (bytes done : Bytes) (s : st.State) (c : sender.Channel)
      → length ms < fuel
      → Frames json ms bytes
      → At st laws s bytes done
      → Open c
      → (s' : st.State) × (c' : sender.Channel) × (reader_loop json st sender fuel s c
          ≡ some (s', c'))
        × (taken c' ≡ taken c ++ map incoming_event ms)
  reader_loop_delivers zero ms bytes done s c enough frames h open_ = absurd (omega arith)
  reader_loop_delivers (suc fuel) [] bytes done s c enough end h open_ =
      let (e, failed) = read_frame_end st laws s h in
      ((read_frame st s).1, c, reader_loop_stop fuel s c e failed, sym (append-nil (taken c)))
  reader_loop_delivers (suc fuel) (m ∷ ms) all done s c enough
        (one_more {bytes = bytes} {rest = rest} text e more split) h open_ =
      let (got, decoded, h₁) =
        read_frame-encode_message st laws json json_laws m bytes rest done s text e
          (At-coming st laws s h split) in
      let c₁ : sender.Channel = (sender.send (incoming_event m) c).1 in
      let sent : handle_incoming_frame json st sender bytes c ≡ c₁ =
        handle_incoming_frame_sends m bytes c decoded in
      let (took, open₁) = send_taken (incoming_event m) c open_ in
      let (s', c', runs, all_taken) =
        reader_loop_delivers fuel ms rest done (read_frame st s).1 c₁ (omega arith) more h₁ open₁ in
      (
        s',
        c',
        reader_loop_step fuel s c bytes got ∙ rw sent runs,
        all_taken
            ∙ ap (λ l. l ++ map incoming_event ms) took
            ∙ append_assoc (taken c) (incoming_event m ∷ []) (map incoming_event ms),
      )
