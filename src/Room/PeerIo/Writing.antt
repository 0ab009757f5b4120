-- ===== src/Room/PeerIo/Writing.antt =====
-- What the hub's writer puts on the wire of a peer.
use nullpipe.Common.{sym, ap, ◌∙◌, List, [], ◌∷◌, ◌++◌, append_assoc, append-nil, Result, ok, err}
use nullpipe.Std.Utf8.{Bytes}
use nullpipe.Types.{ChatError}
use nullpipe.External.Streams.{Stream, StreamLaws}
use nullpipe.Wire.{Json, encode_message}
use nullpipe.Wire.Reading.{At, timed_write, timed_flush}
use nullpipe.Room.PeerIo.{Turn, broadcasted, lagged, closed, hub_writer_task, send_frame}

module _ (json : Json) (st : Stream) (laws : StreamLaws st) where
  abbrev pub frame_of : Result Bytes ChatError → Bytes
  frame_of (ok frame) = frame
  frame_of (err e) = []

  -- The frames of what is broadcast before the channel closes; a message that is too large has none.
  abbrev pub frames : List (Turn json st) → Bytes
  frames [] = []
  frames (closed ∷ turns) = []
  frames (lagged n ∷ turns) = frames turns
  frames (broadcasted m ∷ turns) = frame_of (encode_message json m) ++ frames turns

  sends :
      (r : Result Bytes ChatError) (s : st.State) (next : st.State → st.State) {coming done : Bytes}
      (rest : Bytes)
      → At st laws s coming done
      → ((u : st.State)
          → At st laws u coming (done ++ frame_of r)
          → At st laws (next u) coming ((done ++ frame_of r) ++ rest))
      → At st laws (send_frame json st r s next) coming (done ++ (frame_of r ++ rest))
  sends (err e) s next {done = done} rest h k =
      let kept : At st laws s _ (done ++ []) = record {
        up = h.up;
        coming_lem = h.coming_lem;
        written_lem = h.written_lem ∙ sym (append-nil done);
      } in
      let after = k s kept in
      record {
        up = after.up;
        coming_lem = after.coming_lem;
        written_lem = after.written_lem ∙ ap (λ b. b ++ rest) (append-nil done);
      }
  sends (ok frame) s next {done = done} rest h k =
      let t : st.State = (st.write_all frame s).1 in
      let h₁ = (timed_write st laws [] [] frame s h).1 in
      let h₂ = (timed_flush st laws [] [] t h₁).1 in
      rw ((laws.write frame s h.up).0, (laws.flushed t h₁.up).0, sym (append_assoc done frame rest))
        (k (st.flush t).1 h₂)

  -- On a stream that works, the peer is sent the frames of all broadcast messages that fit, in order and with nothing in
  -- between, over every gap that the channel reports, until the channel closes.
  pub hub_writer_task-frames :
      (turns : List (Turn json st)) (s : st.State) (coming done : Bytes)
      → At st laws s coming done
      → At st laws (hub_writer_task json st turns s) coming (done ++ frames turns)
  unfolding hub_writer_task
  hub_writer_task-frames [] s coming done h = record {
    up = h.up;
    coming_lem = h.coming_lem;
    written_lem = h.written_lem ∙ sym (append-nil done);
  }
  hub_writer_task-frames (closed ∷ turns) s coming done h = record {
    up = h.up;
    coming_lem = h.coming_lem;
    written_lem = h.written_lem ∙ sym (append-nil done);
  }
  hub_writer_task-frames (lagged n ∷ turns) s coming done h =
      hub_writer_task-frames turns s coming done h
  hub_writer_task-frames (broadcasted m ∷ turns) s coming done h =
      sends (encode_message json m) s (hub_writer_task json st turns) (frames turns) h
        λ u h₁. hub_writer_task-frames turns u coming (done ++ frame_of (encode_message json m)) h₁
