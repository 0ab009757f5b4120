-- ===== src/Joiner/Connect.antt =====
-- `Joiner` and `Joiner::connect`. The Tor connector, the clock and the random bytes are arguments.
pub mod Reaching
use nullpipe.Common.{ℕ, Option, none, some, Result, ok, err, if◌then◌else◌}
use nullpipe.Common.{◌>>=◌ as bind}
use nullpipe.Std.Utf8.{Bytes}
use nullpipe.Std.Text.{Text, lit, is_empty}
use nullpipe.Types.{ChatError, PeerId}
use nullpipe.External.Codecs.{Base58, Hex}
use nullpipe.External.Streams.{Stream}
use nullpipe.Wire.{Json}
use nullpipe.Invite.{InvitePayload, decode}
use nullpipe.Joiner.Handshake.{handshake}

-- The joiner's clock must read no more than this beyond the invite's time.
abbrev pub connect_ttl : ℕ
connect_ttl = 300

unfoldable pub effective_name : Text → Option Text → Text
effective_name name none = if is_empty name then lit "anonymous" else name
effective_name name (some suggested) = if is_empty name then suggested else name

module _ (json : Json) (base58 : Base58) (hex : Hex) (st : Stream) where
  pub record Joiner : Type 0 where
    pub stream : Option st.State
    pub peer_id : PeerId
    pub name : Text

  abbrev finish : Text → Result PeerId ChatError × st.State → Result Joiner ChatError
  finish name (err e, s) = err e
  finish name (ok id, s) = ok (record { stream = some s; peer_id = id; name = name })

  pub connect_to :
      (Text → ℕ → Result st.State ChatError)
      → Bytes
      → Text
      → InvitePayload
      → Result Joiner ChatError
  connect_to connector discriminator name payload =
      let chosen = effective_name name payload.suggested_name in
      bind (connector payload.onion_address 80)
        λ s. finish chosen (handshake json base58 st discriminator chosen payload.nonce s)

  pub connect :
      (Text → ℕ → Result st.State ChatError) → ℕ → Bytes → Text → Text → Result Joiner ChatError
  unfolding connect_to
  connect connector now discriminator invite_code name =
      bind (decode base58 hex invite_code (some connect_ttl) now)
        (connect_to connector discriminator name)

  -- `close`, which `Drop` calls too.
  pub close : Joiner → Joiner
  close j = record j { stream = none }
