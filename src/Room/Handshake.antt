-- ===== src/Room/Handshake.antt =====
-- `hub_handshake` and `joiner_handshake` of crates/core/src/room.rs. The hub's side also works on the
-- set of used nonces, which its other connections share; each test with its insertion is made under a lock.
pub mod Claims
pub mod Admission
pub mod Agreement
use nullpipe.Common.{
  ℕ, Bool, true, false, [], ◌∷◌, ◌++◌, ◌==◌, not, if◌then◌else◌, take, drop, length, Result, ok,
  err, map_err,
}
use nullpipe.Common.{◌>>=◌ as bind}
use nullpipe.Std.Utf8.{Bytes}
use nullpipe.Std.Text.{Text, lit}
use nullpipe.Types.{ChatError, PeerId, connection, invalid_invite, nonce_reused, to_string}
use nullpipe.External.Codecs.{Base58}
use nullpipe.External.Streams.{Stream, Elapsed, elapsed}
use nullpipe.External.Actions.{Action, pure, raise, lift, timed, ◌>>=◌, ◌>>◌}
use nullpipe.Nonces.{Nonces, contains, insert}
use nullpipe.Wire.{
  Json, WireMessage, encode_message, decode_message, read_frame, TimedFrame, system_message,
}
use nullpipe.Joiner.Handshake

abbrev pub handshake_len : ℕ
handshake_len = 32

-- The name frame under its timeout of 10 s.
abbrev flatten_frame : Result (Result Bytes ChatError) Elapsed → Result Bytes ChatError
flatten_frame (err elapsed) = err (connection (lit "handshake name read timed out"))
flatten_frame (ok (err e)) = err (connection (lit "handshake name read: " ++ to_string e))
flatten_frame (ok (ok frame)) = ok frame

module _ (json : Json) (base58 : Base58) (st : Stream) where
  open st use {State, read_exact, write_all, flush as flush_stream}

  -- The stream of the connection, and the set of used nonces.
  abbrev pub Shared : Type 0
  Shared = State × Nonces

  abbrev pub on_stream : {A : Type 0} → Action State A → Action Shared A
  on_stream m (s, ns) = ((m s).0, ((m s).1, ns))

  -- `stream.write_all(&[1]).await.ok()`: whatever comes of it.
  abbrev pub refuse : ChatError → Action Shared (Unit {0})
  refuse e (s, ns) = (err e, ((write_all (1 ∷ []) s).1, ns))

  pub read_hello : Action State Bytes
  read_hello = timed (lit "handshake timed out") (lit "handshake read: ") (read_exact handshake_len)

  abbrev check_size : Bytes → Action Shared (Unit {0})
  check_size buf =
      if length buf == handshake_len
      then pure tt
      else refuse (invalid_invite (lit "handshake wrong length"))

  -- The test and the insertion, under the lock.
  pub claim : Bytes → Action Shared (Unit {0})
  claim nonce (s, ns) =
      if contains ns nonce then refuse nonce_reused (s, ns) else (ok tt, (s, insert ns nonce))

  pub accept : Action State (Unit {0})
  accept = do
    timed (lit "handshake write timed out") (lit "handshake write: ") (write_all (0 ∷ []))
    timed (lit "handshake flush timed out") (lit "handshake flush: ") flush_stream

  pub read_name : Action State Bytes
  read_name s = (flatten_frame (read_frame st s).0, (read_frame st s).1)

  pub decode_name : Bytes → Result WireMessage ChatError
  decode_name frame =
      map_err (λ e. connection (lit "handshake name decode: " ++ to_string e))
        (decode_message json frame)

  pub hub_handshake : Action Shared (PeerId × Text)
  hub_handshake = do
    buf ← on_stream read_hello
    check_size buf
    claim (take 16 buf)
    on_stream accept
    frame ← on_stream read_name
    wire_msg ← lift (decode_name frame)
    pure (record { text = base58.to_base58 (take 16 (drop 16 buf)) }, wire_msg.text)

  pub joiner_handshake : Bytes → Bytes → Text → Action State (PeerId × Text)
  joiner_handshake nonce discriminator name = do
    Handshake.hello json base58 st nonce discriminator
    response ← timed (lit "handshake read timed out") (lit "handshake read: ") (read_exact 1)
    Handshake.check_response json base58 st response
    Handshake.send_name json base58 st name
    pure (record { text = base58.to_base58 discriminator }, name)
