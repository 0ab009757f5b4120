-- ===== src/Invite.antt =====
-- crates/core/src/invite.rs: invite codes. The base58 and hex codecs are crates, taken as parameters, and
-- the clock's reading is the argument `now`. Sums of two `u64` wrap, as in a release build.
pub mod Fields
pub mod RoundTrip
use nullpipe.Common.{
  ℕ, ◌+◌, ◌%◌, ◌^◌, ◌++◌, List, [], ◌∷◌, Bool, not, ◌&&◌, Option, none, some, length, ltb, ◌==◌,
  if◌then◌else◌, Result, ok, err, map_err, ◌>>=◌, ◌>>◌,
}
use nullpipe.Std.Utf8.{Bytes, is_utf8}
use nullpipe.Std.Text.{Text, lit, is_empty, ends_with, splitn}
use nullpipe.Std.Decimal.{display, parse_u64}
use nullpipe.Types.{ChatError, invalid_invite, invite_expired}
use nullpipe.External.Codecs.{Base58, Hex}

pub record InvitePayload : Type 0 where
  pub onion_address : Text
  pub nonce : Bytes
  pub timestamp : ℕ
  pub suggested_name : Option Text

abbrev pub add_u64 : ℕ → ℕ → ℕ
add_u64 a b = (a + b) % 2 ^ 64

abbrev pub dot_onion : Text
dot_onion = lit ".onion"

unfoldable pub validate_address : Text → Result (Unit {0}) ChatError
validate_address addr =
    if not (ends_with addr dot_onion)
    then err (invalid_invite (lit "address must end with .onion"))
    else if ltb (length addr) (56 + length dot_onion)
    then err (invalid_invite (lit "address too short (" ++ display (length addr) ++ lit " chars)"))
    else ok tt

abbrev ok_or {ℓ} : {A : Type ℓ} → Option A → ChatError → Result A ChatError
ok_or none e = err e
ok_or (some a) e = ok a

abbrev ensure : Bool → ChatError → Result (Unit {0}) ChatError
ensure b e = if b then ok tt else err e

abbrev pub or_empty : Option Text → Text
or_empty none = []
or_empty (some name) = name

pub future_message : ℕ → ℕ → Text
future_message timestamp now =
    lit "timestamp "
    ++ display timestamp
    ++ lit " is too far in the future (now "
    ++ display now
    ++ lit ")"

-- The tolerance for a clock that runs ahead: 300 seconds.
pub check_skew : ℕ → ℕ → Result (Unit {0}) ChatError
check_skew timestamp now =
    if ltb (add_u64 now 300) timestamp
    then err (invalid_invite (future_message timestamp now))
    else ok tt

pub check_expiry : ℕ → Option ℕ → ℕ → Result (Unit {0}) ChatError
check_expiry timestamp none now = ok tt
check_expiry timestamp (some ttl) now =
    if ltb 0 ttl && ltb (add_u64 timestamp ttl) now then err (invite_expired timestamp) else ok tt

module _ (hex : Hex) where
  -- The text under the base58: the four fields with colons between them.
  pub joined : InvitePayload → Text
  joined p =
      p.onion_address
      ++ (b':'
          ∷ (hex.encode p.nonce
              ++ (b':' ∷ (display p.timestamp ++ (b':' ∷ or_empty p.suggested_name)))))

  -- The checks on the fields, in their order.
  pub decode_fields :
      Option ℕ → ℕ → Text → Text → Text → Option Text → Result InvitePayload ChatError
  decode_fields ttl now address nonce_hex issued name = do
    validate_address address
    nonce ← ok_or (hex.decode nonce_hex) (invalid_invite (lit "nonce is not valid hex"))
    ensure (length nonce == 16)
        (invalid_invite (lit "nonce must be 16 bytes, got " ++ display (length nonce)))
    timestamp ← ok_or (parse_u64 issued) (invalid_invite (lit "timestamp is not a valid u64"))
    check_skew timestamp now
    check_expiry timestamp ttl now
    ok (record {
      onion_address = address;
      nonce = nonce;
      timestamp = timestamp;
      suggested_name = name;
    })

  pub decode_parts : Option ℕ → ℕ → List Text → Result InvitePayload ChatError
  unfolding decode_fields
  decode_parts ttl now (a ∷ n ∷ t ∷ []) = decode_fields ttl now a n t none
  decode_parts ttl now (a ∷ n ∷ t ∷ name ∷ []) =
      decode_fields ttl now a n t (if is_empty name then none else some name)
  decode_parts ttl now _ =
      err (invalid_invite (lit "expected three or four colon-separated fields"))

module _ (base58 : Base58) (hex : Hex) where
  unfoldable pub encode : InvitePayload → Result Text ChatError
  encode p = do validate_address p.onion_address; ok (base58.to_base58 (joined hex p))

  pub decode : Text → Option ℕ → ℕ → Result InvitePayload ChatError
  unfolding decode_parts
  decode token ttl now = if is_empty token then err (invalid_invite (lit "empty token")) else do
    bytes ← map_err (λ e. invalid_invite (lit "bad base58: " ++ e)) (base58.from_base58 token)
    ensure (is_utf8 bytes) (invalid_invite (lit "not valid UTF-8"))
    decode_parts hex ttl now (splitn 4 b':' bytes)
