-- ===== src/Tests/WireCases.antt =====
-- The wire protocol's theorems at concrete messages.
use nullpipe.Common.{◌≤◌, ◌<◌, ◌≡◌, refl, [], ◌∷◌, ◌++◌, ok, length, All, arith}
use nullpipe.Std.Utf8.{Bytes, IsByte, is_utf8}
use nullpipe.Std.Endian.{to_be_bytes}
use nullpipe.Wire.{
  WireMessage, chat, encode_message, decode_message, read_frame, IsText, max_payload_bytes,
}
use nullpipe.Wire.Frames.{decode_message-encode_message, decode_message_sound}
use nullpipe.Wire.Reading.{At, read_frame-encode_message}
use nullpipe.Tests.Instances.{Pipe, pipes, pipe_laws, toy_json, toy_json_laws, body}

abbrev pub hi : WireMessage
hi = record { kind = chat; name = b'a' ∷ []; text = b'h' ∷ b'i' ∷ [] }

abbrev pub hi_payload : Bytes
hi_payload = b'c' ∷ b'x' ∷ b'.' ∷ b'a' ∷ b'h' ∷ b'i' ∷ []

abbrev pub hi_frame : Bytes
hi_frame = 0 ∷ 0 ∷ 0 ∷ 6 ∷ hi_payload

pub hi_encoded : encode_message toy_json hi ≡ ok hi_frame
unfolding encode_message body to_be_bytes
hi_encoded = refl

pub hi-IsText : IsText hi
unfolding is_utf8
hi-IsText = (refl, refl)

hi_octets : All IsByte hi_frame
hi_octets = (
  omega arith,
  (
    omega arith,
    (
      omega arith,
      (
        omega arith,
        (
          omega arith,
          (omega arith, (omega arith, (omega arith, (omega arith, (omega arith, tt))))),
        ),
      ),
    ),
  ),
)

hi_decoded : decode_message toy_json hi_frame ≡ ok hi
hi_decoded =
    decode_message-encode_message toy_json toy_json_laws hi hi_frame [] hi-IsText hi_encoded

decode_message_sound_example :
    (payload : Bytes) × (rest : Bytes) × (hi_frame
      ≡ to_be_bytes (length payload) ++ payload ++ rest)
    × (0 < length payload)
    × (length payload ≤ max_payload_bytes)
    × (toy_json.from_slice payload ≡ ok hi)
decode_message_sound_example = decode_message_sound toy_json hi_frame hi hi_octets hi_decoded

-- A pipe on which these bytes arrive, and nothing has been sent.
abbrev pub arriving : Bytes → Pipe
arriving bytes = record { unread = bytes; sent = [] }

pub At-arriving : (bytes : Bytes) → At pipes pipe_laws (arriving bytes) bytes []
At-arriving bytes = record { up = tt; coming_lem = refl; written_lem = refl }

read_frame-encode_message_example :
    ((read_frame pipes (arriving (hi_frame ++ 7 ∷ []))).0 ≡ ok (ok hi_frame))
    × (decode_message toy_json hi_frame ≡ ok hi)
    × At pipes pipe_laws (read_frame pipes (arriving (hi_frame ++ 7 ∷ []))).1 (7 ∷ []) []
read_frame-encode_message_example =
    read_frame-encode_message pipes pipe_laws toy_json toy_json_laws hi hi_frame (7 ∷ []) []
      (arriving (hi_frame ++ 7 ∷ [])) hi-IsText hi_encoded (At-arriving (hi_frame ++ 7 ∷ []))
