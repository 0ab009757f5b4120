-- ===== src/Hub/Handshake.antt =====
-- `Hub::handshake` of crates/core/src/hub.rs, which reads its 32 bytes in whatever pieces they come.
pub mod Pieces
pub mod Ending
use nullpipe.Common.{
  ℕ, zero, suc, ◌-◌, [], ◌∷◌, ◌++◌, take, drop, length, ltb, if◌then◌else◌, Option, none, some,
  Result, ok, err,
}
use nullpipe.Std.Utf8.{Bytes}
use nullpipe.Std.Text.{Text, lit}
use nullpipe.Types.{ChatError, PeerId, connection, invalid_invite, nonce_reused}
use nullpipe.External.Codecs.{Base58, Hex}
use nullpipe.External.Streams.{Stream, Timed, Elapsed, elapsed}
use nullpipe.External.Actions.{Action, pure, timed, ◌>>=◌, ◌>>◌}
use nullpipe.Nonces.{Nonces, contains, insert}

module _ (base58 : Base58) (hex : Hex) (st : Stream) where
  open st use {State, read, write_all, flush as flush_stream}

  -- What one `read` gave, behind the bytes so far; `go_on` is the rest of the loop.
  abbrev pub after_read :
      Bytes
      → Timed Bytes × State
      → (Bytes → State → Option (Result Bytes ChatError × State))
      → Option (Result Bytes ChatError × State)
  after_read buf (err elapsed, s) go_on = some (err (connection (lit "handshake timed out")), s)
  after_read buf (ok (err e), s) go_on =
      some (err (connection (lit "handshake read: " ++ e.to_string)), s)
  after_read buf (ok (ok []), s) go_on =
      some (err (invalid_invite (lit "handshake: unexpected EOF")), (write_all (1 ∷ []) s).1)
  after_read buf (ok (ok (b ∷ bs)), s) go_on = go_on (buf ++ b ∷ bs) s

  -- The reading loop; `none` says that the fuel ran out.
  unfoldable pub gather : ℕ → Bytes → State → Option (Result Bytes ChatError × State)
  gather zero buf s = none
  gather (suc fuel) buf s =
      if ltb (length buf) 32
      then after_read buf (read (32 - length buf) s) (gather fuel)
      else some (ok buf, s)

  -- The test and the insertion, under the lock.
  pub claim : Bytes → Action (State × Nonces) (Unit {0})
  claim nonce (s, ns) =
      if contains ns nonce
      then (err nonce_reused, ((write_all (1 ∷ []) s).1, ns))
      else (ok tt, (s, insert ns nonce))

  pub accept : Action State (Unit {0})
  accept = do
    timed (lit "handshake write timed out") (lit "handshake write: ") (write_all (0 ∷ []))
    timed (lit "handshake flush timed out") (lit "handshake flush: ") flush_stream

  abbrev on_stream : Action State (Unit {0}) → Action (State × Nonces) (Unit {0})
  on_stream m (s, ns) = ((m s).0, ((m s).1, ns))

  pub admit : Bytes → Action (State × Nonces) (PeerId × Text)
  unfolding claim accept
  admit buf = do
    claim (take 16 buf)
    on_stream accept
    pure (
      record { text = base58.to_base58 (take 16 (drop 16 buf)) },
      lit "peer-" ++ hex.encode (take 4 (take 16 (drop 16 buf))),
    )

  abbrev admit_read :
      Nonces → Result Bytes ChatError × State → Result (PeerId × Text) ChatError × (State × Nonces)
  admit_read ns (err e, s) = (err e, (s, ns))
  admit_read ns (ok buf, s) = admit buf (s, ns)

  -- 33 rounds are enough: 32 that read something and the last test.
  unfoldable pub handshake :
      State × Nonces → Option (Result (PeerId × Text) ChatError × (State × Nonces))
  unfolding gather admit
  handshake (s, ns) = elim (gather 33 [] s) [ none ↦ none | some r ↦ some (admit_read ns r) ]
