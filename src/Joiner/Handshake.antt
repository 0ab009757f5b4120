-- ===== src/Joiner/Handshake.antt =====
-- `Joiner::handshake`: sixteen bytes of nonce and sixteen random ones go out, one byte comes back, and
-- the display name follows as the first wire message. The random bytes are the argument `discriminator`.
pub mod Agreement
use nullpipe.Common.{ℕ, Bool, true, false, [], ◌∷◌, ◌++◌, ◌==◌, not, if◌then◌else◌}
use nullpipe.Std.Utf8.{Bytes}
use nullpipe.Std.Text.{Text, lit}
use nullpipe.Types.{PeerId, connection}
use nullpipe.External.Codecs.{Base58}
use nullpipe.External.Streams.{Stream}
use nullpipe.External.Actions.{Action, pure, raise, lift, timed, ◌>>=◌, ◌>>◌}
use nullpipe.Wire.{Json, system_message, encode_message}

-- `response[0] != 0`, on a buffer that starts as zeros.
abbrev pub is_refusal : Bytes → Bool
is_refusal [] = false
is_refusal (b ∷ bs) = not (b == 0)

module _ (json : Json) (base58 : Base58) (st : Stream) where
  open st use {State, read_exact, write_all, flush as flush_stream}

  pub hello : Bytes → Bytes → Action State (Unit {0})
  hello nonce discriminator = do
    timed (lit "handshake write timed out") (lit "handshake write: ")
        (write_all (nonce ++ discriminator))
    timed (lit "handshake flush timed out") (lit "handshake flush: ") flush_stream

  pub check_response : Bytes → Action State (Unit {0})
  check_response response =
      if is_refusal response then raise (connection (lit "handshake rejected by hub")) else pure tt

  pub send_name : Text → Action State (Unit {0})
  send_name name = do
    frame ← lift (encode_message json (system_message name))
    timed (lit "handshake name write timed out") (lit "handshake name write: ") (write_all frame)
    timed (lit "handshake name flush timed out") (lit "handshake name flush: ") flush_stream

  pub handshake : Bytes → Text → Bytes → Action State PeerId
  handshake discriminator name nonce = do
    hello nonce discriminator
    response ← timed (lit "handshake read timed out") (lit "handshake read: ") (read_exact 1)
    check_response response
    send_name name
    pure (record { text = base58.to_base58 discriminator })
