-- ===== src/Wire/Reading.antt =====
-- `read_frame` over a stream that delivers what its peer has sent, and what writing does.
use nullpipe.Common.{
  ℕ, ◌≤◌, ◌<◌, ◌≡◌, sym, ap, ◌∙◌, ◌++◌, append_assoc, append-nil, [], length, take, drop,
  length-append, take-append, drop-append, ok, err, arith,
}
use nullpipe.Std.Utf8.{Bytes, IsUtf8}
use nullpipe.Std.Endian.{to_be_bytes, from_be_bytes, from_be_bytes-to_be_bytes}
use nullpipe.External.Streams.{Stream, StreamLaws, Timed}
use nullpipe.Types.{ChatError, wire, IoError}
use nullpipe.Std.Text.{Text, lit}
use nullpipe.External.Actions.{timed, Returns, Returns-timed}
use nullpipe.Wire.{
  Json, JsonLaws, WireMessage, IsText, encode_message, decode_message, check_length, check_text,
  after_payload, read_payload, after_header, read_frame,
}
use nullpipe.Wire.Frames.{
  IsFrame, encode_message-IsFrame, decode_message-encode_message, check_length_ok,
}

module _ (st : Stream) (laws : StreamLaws st) where
  open laws use {unread, Up, read_whole, write, flushed}

  -- The stream works, and these bytes are still to be read from it and were written to it.
  pub record At (s : st.State) (coming written : Bytes) : Type 0 where
    pub up : Up s
    pub coming_lem : unread s ≡ coming
    pub written_lem : laws.written s ≡ written

  pub At-coming :
      (s : st.State) {coming coming' done : Bytes}
      → At s coming done
      → coming ≡ coming'
      → At s coming' done
  At-coming s h e = record { up = h.up; coming_lem = h.coming_lem ∙ e; written_lem = h.written_lem }

  pub read_front :
      (front rest done : Bytes) (s : st.State)
      → At s (front ++ rest) done
      → ((st.read_exact (length front) s).0 ≡ ok (ok front))
        × At (st.read_exact (length front) s).1 rest done
  read_front front rest done s h =
      let enough : length front ≤ length (unread s) =
        rw h.coming_lem (omega (arith, length-append front rest)) in
      let (got, left, kept, up) = read_whole (length front) s h.up enough in
      (
        got ∙ ap (λ b. ok (ok b)) (ap (take (length front)) h.coming_lem ∙ take-append front rest),
        record {
          up = up;
          coming_lem = left ∙ ap (drop (length front)) h.coming_lem ∙ drop-append front rest;
          written_lem = kept ∙ h.written_lem;
        },
      )

  pub read_sized :
      (n : ℕ) (front rest done : Bytes) (s : st.State)
      → length front ≡ n
      → At s (front ++ rest) done
      → ((st.read_exact n s).0 ≡ ok (ok front)) × At (st.read_exact n s).1 rest done
  read_sized n front rest done s size h = rw (sym size) (read_front front rest done s h)

  after_header_ok :
      (header : Bytes) (p : Timed Bytes × st.State)
      → p.0 ≡ ok (ok header)
      → after_header st p ≡ read_payload st header (check_length (from_be_bytes header)) p.1
  unfolding after_header
  after_header_ok header (r, s) h = rw h

  after_header_failed :
      (e : IoError) (p : Timed Bytes × st.State)
      → p.0 ≡ ok (err e)
      → (after_header st p).0 ≡ ok (err (wire (lit "header read failed: " ++ e.to_string)))
  unfolding after_header
  after_header_failed e (r, s) h = rw h

  after_payload_ok :
      (header payload : Bytes) (p : Timed Bytes × st.State)
      → p.0 ≡ ok (ok payload)
      → IsUtf8 payload
      → after_payload st header p ≡ (ok (ok (header ++ payload)), p.1)
  unfolding after_payload check_text
  after_payload_ok header payload (r, s) h text = rw (h, text)

  -- A frame that the peer has sent is read whole, and nothing behind it is touched.
  pub read_frame-IsFrame :
      (payload bytes rest done : Bytes) (s : st.State)
      → IsFrame payload bytes
      → IsUtf8 payload
      → 0 < length payload
      → At s (bytes ++ rest) done
      → ((read_frame st s).0 ≡ ok (ok bytes)) × At (read_frame st s).1 rest done
  unfolding to_be_bytes
  read_frame-IsFrame payload bytes rest done s f text pos h =
      let header : Bytes = to_be_bytes (length payload) in
      let announced : from_be_bytes header ≡ length payload =
        from_be_bytes-to_be_bytes (length payload) (omega (arith, f.fits)) in
      let start : At s (header ++ (payload ++ rest)) done =
        At-coming s h (ap (λ b. b ++ rest) f.layout ∙ append_assoc header payload rest) in
      let (got, middle) = read_front header (payload ++ rest) done s start in
      let s₁ : st.State = (st.read_exact 4 s).1 in
      let (body, end) = read_front payload rest done s₁ middle in
      let whole : read_frame st s
          ≡ (ok (ok (header ++ payload)), (st.read_exact (length payload) s₁).1) =
        unfold read_frame in
        after_header_ok header (st.read_exact 4 s) got
        ∙ rw (announced, check_length_ok (length payload) pos f.fits, read_payload, announced)
            (after_payload_ok header payload _ body text) in
      (ap (λ p. p.0) whole ∙ ap (λ b. ok (ok b)) (sym f.layout), rw whole end)

  -- At the end of what the peer has sent, reading a frame is an error.
  pub read_frame_end :
      (s : st.State) {done : Bytes}
      → At s [] done
      → (e : ChatError) × ((read_frame st s).0 ≡ ok (err e))
  unfolding read_frame
  read_frame_end s h =
      let (e, failed) = laws.read_end 4 s h.up (rw h.coming_lem (omega arith)) in
      (_, after_header_failed e (st.read_exact 4 s) failed)

  pub timed_write :
      (late failed : Text) (bytes : Bytes) (s : st.State) {coming done : Bytes}
      → At s coming done
      → Returns (timed late failed (st.write_all bytes)) s tt (st.write_all bytes s).1
        × At (st.write_all bytes s).1 coming (done ++ bytes)
  timed_write late failed bytes s h =
      let (done, left, more, up) = write bytes s h.up in
      (
        Returns-timed late failed (st.write_all bytes) s done,
        record {
          up = up;
          coming_lem = left ∙ h.coming_lem;
          written_lem = more ∙ ap (λ b. b ++ bytes) h.written_lem;
        },
      )

  pub timed_flush :
      (late failed : Text) (s : st.State) {coming done : Bytes}
      → At s coming done
      → Returns (timed late failed st.flush) s tt (st.flush s).1 × At (st.flush s).1 coming done
  timed_flush late failed s h =
      let (done, left, more, up) = flushed s h.up in
      (
        Returns-timed late failed st.flush s done,
        record { up = up; coming_lem = left ∙ h.coming_lem; written_lem = more ∙ h.written_lem },
      )

module _ (st : Stream) (laws : StreamLaws st) (json : Json) (json_laws : JsonLaws json) where
  -- A message that one end has encoded is read and decoded at the other, and the stream then stands
  -- right behind it.
  pub read_frame-encode_message :
      (m : WireMessage) (bytes rest done : Bytes) (s : st.State)
      → IsText m
      → encode_message json m ≡ ok bytes
      → At st laws s (bytes ++ rest) done
      → ((read_frame st s).0 ≡ ok (ok bytes))
        × (decode_message json bytes ≡ ok m)
        × At st laws (read_frame st s).1 rest done
  read_frame-encode_message m bytes rest done s text e h =
      let (payload, written, f) = encode_message-IsFrame json m e in
      let (utf8, pos) = json_laws.written m text written in
      let (got, next) = read_frame-IsFrame st laws payload bytes rest done s f utf8 pos h in
      (
        got,
        ap (decode_message json) (sym (append-nil bytes))
            ∙ decode_message-encode_message json json_laws m bytes [] text e,
        next,
      )
