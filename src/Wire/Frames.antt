-- ===== src/Wire/Frames.antt =====
-- Frames as `encode_message` writes them and `decode_message` takes them apart.
use nullpipe.Common.{
  ℕ, ◌+◌, ◌≤◌, ◌<◌, ◌≡◌, refl, sym, ap, ◌∙◌, ◌++◌, append_assoc, All, length, take, drop,
  length-append, length-take, length-drop, take-append, take-append-drop, All-take, ok, map_err,
  >>=-eq-ok, map_err-eq-ok, arith,
}
use nullpipe.Std.Utf8.{Bytes, IsByte}
use nullpipe.Std.Endian.{
  to_be_bytes, from_be_bytes, from_be_bytes-to_be_bytes, to_be_bytes-from_be_bytes,
}
use nullpipe.Wire.{
  Json, JsonLaws, WireMessage, IsText, max_payload_bytes, frame, check_length, encode_message,
  parse_payload, decode_message,
}

-- A payload with its length in front of it, within the limit.
pub record IsFrame (payload bytes : Bytes) : Type 0 where
  pub fits : length payload ≤ max_payload_bytes
  pub layout : bytes ≡ to_be_bytes (length payload) ++ payload

pub length-to_be_bytes : (n : ℕ) → length (to_be_bytes n) ≡ 4
unfolding to_be_bytes
length-to_be_bytes n = refl

frame-IsFrame : (payload : Bytes) {bytes : Bytes} → frame payload ≡ ok bytes → IsFrame payload bytes
unfolding frame
frame-IsFrame payload h = ground arith

pub check_length_ok : (n : ℕ) → 0 < n → n ≤ max_payload_bytes → check_length n ≡ ok tt
unfolding check_length
check_length_ok n pos fits = ground arith

check_length_bounds :
    (n : ℕ) {u : Unit {0}} → check_length n ≡ ok u → (0 < n) × (n ≤ max_payload_bytes)
unfolding check_length
check_length_bounds n h = ground arith

module _ (json : Json) where
  -- A message is encoded exactly as its JSON with a big-endian length in front, of at most 16 KB.
  pub encode_message-IsFrame :
      (m : WireMessage) {bytes : Bytes}
      → encode_message json m ≡ ok bytes
      → (payload : Bytes) × (json.to_vec m ≡ ok payload) × IsFrame payload bytes
  unfolding encode_message
  encode_message-IsFrame m h =
      let (p, e, q) = >>=-eq-ok _ frame h in (p, map_err-eq-ok _ _ e, frame-IsFrame p q)

  -- Decoding a frame parses its payload, and leaves what stands behind the frame alone.
  pub decode_message-frame :
      (payload rest : Bytes)
      → 0 < length payload
      → length payload ≤ max_payload_bytes
      → decode_message json (to_be_bytes (length payload) ++ payload ++ rest)
        ≡ parse_payload json payload
  unfolding decode_message to_be_bytes
  decode_message-frame p rest pos fits =
      let header : from_be_bytes (to_be_bytes (length p)) ≡ length p =
        from_be_bytes-to_be_bytes _ (omega arith) in
      let body : take (length p) (p ++ rest) ≡ p = take-append p rest in
      rw (header, check_length_ok (length p) pos fits, body) (ground (arith, length-append p rest))

  -- What was encoded is decoded to the same message, whatever follows the frame.
  pub decode_message-encode_message :
      (laws : JsonLaws json) (m : WireMessage) (bytes rest : Bytes)
      → IsText m
      → encode_message json m ≡ ok bytes
      → decode_message json (bytes ++ rest) ≡ ok m
  decode_message-encode_message laws m bytes rest text e =
      let (p, written, f) = encode_message-IsFrame m e in
      rw f.layout (
        decode_message-frame p rest (laws.written m text written).1 f.fits
        ∙ (unfold parse_payload in ap (map_err _) (laws.decodes m text written)))

  parse_payload-eq-ok :
      (payload : Bytes) {m : WireMessage}
      → parse_payload json payload ≡ ok m
      → json.from_slice payload ≡ ok m
  unfolding parse_payload
  parse_payload-eq-ok payload h = map_err-eq-ok _ _ h

  decode_message_parts :
      (bytes : Bytes) {m : WireMessage}
      → decode_message json bytes ≡ ok m
      → (4 ≤ length bytes)
        × (0 < from_be_bytes (take 4 bytes))
        × (from_be_bytes (take 4 bytes) ≤ max_payload_bytes)
        × (4 + from_be_bytes (take 4 bytes) ≤ length bytes)
        × (parse_payload json (take (from_be_bytes (take 4 bytes)) (drop 4 bytes)) ≡ ok m)
  unfolding decode_message check_length
  decode_message_parts bytes h = ground arith

  -- Only a frame is decoded: a length between 1 and 16 KB, that many bytes of JSON for the message, and
  -- whatever follows.
  pub decode_message_sound :
      (bytes : Bytes) (m : WireMessage)
      → All IsByte bytes
      → decode_message json bytes ≡ ok m
      → (payload : Bytes) × (rest : Bytes) × (bytes
          ≡ to_be_bytes (length payload) ++ payload ++ rest)
        × (0 < length payload)
        × (length payload ≤ max_payload_bytes)
        × (json.from_slice payload ≡ ok m)
  decode_message_sound bytes m octets h =
      let (four, pos, fits, enough, parsed) = decode_message_parts bytes h in
      let n : ℕ = from_be_bytes (take 4 bytes) in
      let size : length (take n (drop 4 bytes)) ≡ n =
        omega (arith, length-take n (drop 4 bytes), length-drop 4 bytes) in
      let front : to_be_bytes n ≡ take 4 bytes =
        to_be_bytes-from_be_bytes (take 4 bytes) (omega (arith, length-take 4 bytes))
          (All-take IsByte 4 bytes octets) in
      let whole : bytes ≡ to_be_bytes n ++ take n (drop 4 bytes) ++ drop n (drop 4 bytes) =
        rw (front, append_assoc, take-append-drop n (drop 4 bytes))
          (sym (take-append-drop 4 bytes)) in
      (
        take n (drop 4 bytes),
        drop n (drop 4 bytes),
        rw size whole,
        omega arith,
        omega arith,
        parse_payload-eq-ok _ parsed,
      )
