-- ===== src/Wire.antt =====
-- crates/core/src/wire.rs: the length-prefixed wire protocol. The JSON codec is serde_json's, a parameter.
pub mod Frames
pub mod Reading
use nullpipe.Common.{
  ℕ, zero, ◌+◌, ◌*◌, ◌%◌, ◌^◌, ◌<◌, ◌≡◌, ◌++◌, [], All, length, take, drop, ltb, ◌==◌,
  if◌then◌else◌, Result, ok, err, map_err,
}
use nullpipe.Common.{◌>>=◌ as bind}
use nullpipe.Std.Utf8.{Bytes, IsByte, IsUtf8, is_utf8}
use nullpipe.Std.Text.{Text, lit}
use nullpipe.Std.Endian.{to_be_bytes, from_be_bytes}
use nullpipe.Types.{ChatError, wire, connection, oversized_message, IoError}
use nullpipe.External.Streams.{Stream, Timed, Elapsed}
use nullpipe.External.Actions.{Action, timed, ◌>>◌}

-- 16 KB.
abbrev pub max_payload_bytes : ℕ
max_payload_bytes = 16 * 1024

pub data MessageType : Type 0 where
  chat system ping pong : MessageType

pub record WireMessage : Type 0 where
  pub kind : MessageType
  pub name : Text
  pub text : Text

unfoldable pub chat_message : Text → Text → WireMessage
chat_message name text = record { kind = chat; name = name; text = text }

unfoldable pub system_message : Text → WireMessage
system_message text = record { kind = system; name = []; text = text }

unfoldable pub ping_message : WireMessage
ping_message = record { kind = ping; name = []; text = [] }

unfoldable pub pong_message : WireMessage
pong_message = record { kind = pong; name = []; text = [] }

-- `serde_json::to_vec` and `from_slice`; an error is given by what it prints.
pub record Json : Type 0 where
  pub to_vec : WireMessage → Result Bytes Text
  pub from_slice : Bytes → Result WireMessage Text

-- Both strings of a message are UTF-8.
abbrev pub IsText : WireMessage → Type 0
IsText m = IsUtf8 m.name × IsUtf8 m.text

-- What is written is a non-empty text, and it is read back.
pub record JsonLaws (json : Json) : Type 0 where
  pub decodes :
      (m : WireMessage) {b : Bytes} → IsText m → json.to_vec m ≡ ok b → json.from_slice b ≡ ok m
  pub written :
      (m : WireMessage) {b : Bytes} → IsText m → json.to_vec m ≡ ok b → IsUtf8 b × (0 < length b)

-- The test on the payload's size, and the frame.
frame : Bytes → Result Bytes ChatError
frame payload =
    if ltb max_payload_bytes (length payload)
    then err (oversized_message (length payload) max_payload_bytes)
    else ok (to_be_bytes (length payload % 2 ^ 32) ++ payload)

-- What the header announces, tested before the payload is looked at.
pub check_length : ℕ → Result (Unit {0}) ChatError
check_length n =
    if n == 0
    then err (wire (lit "zero-length payload"))
    else if ltb max_payload_bytes n
    then err (oversized_message n max_payload_bytes)
    else ok tt

module _ (json : Json) where
  unfoldable pub encode_message : WireMessage → Result Bytes ChatError
  unfolding frame
  encode_message msg =
      bind (map_err (λ e. wire (lit "json encode failed: " ++ e)) (json.to_vec msg)) frame

  pub parse_payload : Bytes → Result WireMessage ChatError
  parse_payload payload =
      map_err (λ e. wire (lit "json decode failed: " ++ e)) (json.from_slice payload)

  unfoldable pub decode_message : Bytes → Result WireMessage ChatError
  unfolding check_length parse_payload
  decode_message bytes =
      if ltb (length bytes) 4
      then err (wire (lit "payload too short for header"))
      else (let header = take 4 bytes in
          let n = from_be_bytes header in
          bind (check_length n) λ _.
            if ltb (length bytes) (4 + n)
            then err (wire (lit "truncated payload"))
            else parse_payload (take n (drop 4 bytes)))

module _ (st : Stream) where
  open st use {State, read_exact, write_all, flush as flush_stream}

  -- A frame under a timeout: the deadline may pass in either of the two reads.
  abbrev pub TimedFrame : Type 0
  TimedFrame = Result (Result Bytes ChatError) Elapsed × State

  check_text : Bytes → Bytes → Result Bytes ChatError
  check_text header payload =
      if is_utf8 payload
      then ok (header ++ payload)
      else err (wire (lit "payload is not valid UTF-8"))

  after_payload : Bytes → Timed Bytes × State → TimedFrame
  unfolding check_text
  after_payload header (err e, s) = (err e, s)
  after_payload header (ok (err e), s) =
      (ok (err (wire (lit "payload read failed: " ++ e.to_string))), s)
  after_payload header (ok (ok payload), s) = (ok (check_text header payload), s)

  read_payload : Bytes → Result (Unit {0}) ChatError → State → TimedFrame
  unfolding after_payload
  read_payload header (err e) s = (ok (err e), s)
  read_payload header (ok _) s = after_payload header (read_exact (from_be_bytes header) s)

  after_header : Timed Bytes × State → TimedFrame
  unfolding read_payload check_length
  after_header (err e, s) = (err e, s)
  after_header (ok (err e), s) = (ok (err (wire (lit "header read failed: " ++ e.to_string))), s)
  after_header (ok (ok header), s) = read_payload header (check_length (from_be_bytes header)) s

  pub read_frame : State → TimedFrame
  unfolding after_header
  read_frame s = after_header (read_exact 4 s)

  write_frame : Bytes → Action State (Unit {0})
  write_frame bytes = do
    timed (lit "write timed out") (lit "write failed: ") (write_all bytes)
    timed (lit "flush timed out") (lit "flush failed: ") flush_stream
