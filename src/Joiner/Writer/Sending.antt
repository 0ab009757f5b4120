-- ===== src/Joiner/Writer/Sending.antt =====
-- What the joiner puts on the wire, and what it shows of it.
use nullpipe.Common.{
  ◌≡◌, refl, ap, sym, ◌∙◌, List, [], ◌∷◌, ◌++◌, append_assoc, append-nil, map, All, ok,
}
use nullpipe.Std.Utf8.{Bytes, IsUtf8}
use nullpipe.Std.Text.{Text}
use nullpipe.Types.{PeerId}
use nullpipe.External.Streams.{Stream, StreamLaws}
use nullpipe.External.Actions.{Returns, Returns-bind}
use nullpipe.External.Channels.{Sender}
use nullpipe.Wire.{Json, chat_message, encode_message}
use nullpipe.Wire.Reading.{At, timed_write, timed_flush}
use nullpipe.Joiner.Reader.Delivery.{Frames}
use nullpipe.Joiner.Reader.Delivery
use nullpipe.Joiner.Outbox.{Outbox, make_event, try_emit, emit_all, drain_and_flush}
use nullpipe.Joiner.Writer.{
  Turn, outgoing, reader_done, finished, waiting, Both, process_outgoing_message, after_write,
  write_frame, write_loop,
}

-- These bytes are the chat frames of these texts under this name, in order.
pub data ChatFrames (json : Json) (name : Text) : List Text → Bytes → Type 0 where
  end : ChatFrames json name [] []
  one_more :
      {text : Text} {texts : List Text} {frame rest all : Bytes}
      → encode_message json (chat_message name text) ≡ ok frame
      → ChatFrames json name texts rest
      → all ≡ frame ++ rest
      → ChatFrames json name (text ∷ texts) all

-- They are the frames of the texts' chat messages.
pub chats-Frames :
    (json : Json) (name : Text) (texts : List Text) (bytes : Bytes)
    → IsUtf8 name
    → All IsUtf8 texts
    → ChatFrames json name texts bytes
    → Frames json (map (chat_message name) texts) bytes
unfolding chat_message
chats-Frames json name [] bytes hn ht end = Delivery.end
chats-Frames json name (text ∷ texts) bytes hn ht (one_more e more split) =
    Delivery.one_more (hn, ht.0) e (chats-Frames json name texts _ hn ht.1 more) split

module _ (json : Json) (st : Stream) (laws : StreamLaws st) (sender : Sender) (name : Text)
    (peer_id : PeerId) where
  write_frame-At :
      (frame : Bytes) (s : st.State) {coming done : Bytes}
      → At st laws s coming done
      → (t : st.State) × Returns (write_frame json st sender name peer_id frame) s tt t
        × At st laws t coming (done ++ frame)
  unfolding write_frame
  write_frame-At frame s h =
      let (wrote, h₁) = timed_write st laws _ _ frame s h in
      let (flushed, h₂) = timed_flush st laws _ _ _ h₁ in (_, Returns-bind _ _ wrote flushed, h₂)

  pub process_sends :
      (text : Text) (frame : Bytes) (s : st.State) (o : Outbox sender) {coming done : Bytes}
      → encode_message json (chat_message name text) ≡ ok frame
      → At st laws s coming done
      → (t : st.State) × (process_outgoing_message json st sender name peer_id text (s, o)
          ≡ (ok tt, (t, try_emit sender (make_event peer_id name text) o)))
        × At st laws t coming (done ++ frame)
  unfolding process_outgoing_message
  process_sends text frame s o e h =
      let (t, wrote, h₁) = write_frame-At frame s h in
      (t, rw (e, process_outgoing_message) (rw (wrote, after_write)), h₁)

  emit_all_step :
      (text : Text) (texts : List Text) (o : Outbox sender)
      → emit_all sender peer_id name texts (try_emit sender (make_event peer_id name text) o)
        ≡ emit_all sender peer_id name (text ∷ texts) o
  unfolding emit_all
  emit_all_step text texts o = refl

  pub write_loop_step :
      (text : Text) (turns : List Turn) (b b' : Both json st sender name peer_id)
      → process_outgoing_message json st sender name peer_id text b ≡ (ok tt, b')
      → write_loop json st sender name peer_id (outgoing text ∷ turns) b
        ≡ write_loop json st sender name peer_id turns b'
  unfolding write_loop
  write_loop_step text turns b b' h =
      rw (ap (λ r. r.0) h, write_loop)
        (ap (λ r. write_loop json st sender name peer_id turns r.1) h)

  pub write_loop-nil :
      (b : Both json st sender name peer_id)
      → write_loop json st sender name peer_id [] b ≡ waiting b
  unfolding write_loop
  write_loop-nil b = refl

  pub write_loop-reader_done :
      (texts : List Text) (s : st.State) (o : Outbox sender)
      → write_loop json st sender name peer_id (reader_done texts ∷ []) (s, o)
        ≡ finished (ok tt) (s, drain_and_flush sender peer_id name texts o)
  unfolding write_loop
  write_loop-reader_done texts s o = refl

  -- Messages that fit are written to the stream as chat frames, in their order and with nothing between
  -- them, and each becomes one local event, in the same order; then the loop goes on with what comes next.
  pub write_loop_sends :
      (texts : List Text) (bytes : Bytes) (turns : List Turn) (s : st.State) (o : Outbox sender)
      (coming done : Bytes)
      → ChatFrames json name texts bytes
      → At st laws s coming done
      → (t : st.State) × (write_loop json st sender name peer_id
            (map outgoing texts ++ turns)
            (s, o)
          ≡ write_loop json st sender name peer_id turns (t, emit_all sender peer_id name texts o))
        × At st laws t coming (done ++ bytes)
  write_loop_sends [] bytes turns s o coming done end h = (
    s,
    unfold emit_all in refl,
    record {
      up = h.up;
      coming_lem = h.coming_lem;
      written_lem = h.written_lem ∙ sym (append-nil done);
    },
  )
  write_loop_sends (text ∷ texts) all turns s o coming done
        (one_more {frame = frame} {rest = rest} e more split) h =
      let (t, sends, h₁) = process_sends text frame s o e h in
      let o₁ : Outbox sender = try_emit sender (make_event peer_id name text) o in
      let (u, runs, h₂) = write_loop_sends texts rest turns t o₁ coming (done ++ frame) more h₁ in
      (
        u,
        write_loop_step text (map outgoing texts ++ turns) (s, o) (t, o₁) sends
            ∙ runs
            ∙ ap (λ o'. write_loop json st sender name peer_id turns (u, o'))
                (emit_all_step text texts o),
        record {
          up = h₂.up;
          coming_lem = h₂.coming_lem;
          written_lem =
              h₂.written_lem ∙ append_assoc done frame rest ∙ ap (λ b. done ++ b) (sym split);
        },
      )
