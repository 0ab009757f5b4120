-- ===== src/Invite/Fields.antt =====
-- The payloads that an invite code can carry, and what the field checks make of them.
use nullpipe.Common.{
  ℕ, ◌+◌, ◌^◌, ◌≤◌, ◌<◌, ◌≡◌, ◌≢◌, refl, ap, ◌∙◌, ◌⊎◌, [], ◌∷◌, Option, none, some, All, length, ok,
  err, arith, if◌then◌else◌, ◌>>=◌,
}
use nullpipe.Std.Utf8.{IsByte, IsUtf8, IsUtf8-append, IsUtf8-ascii}
use nullpipe.Std.Text.{Text, Lacks, is_empty, splitn, splitn_step}
use nullpipe.Std.Decimal.{IsU64, display, display-Lacks, display-IsUtf8, parse_u64-display}
use nullpipe.Types.{invite_expired, invalid_invite}
use nullpipe.External.Codecs.{Hex, HexLaws}
use nullpipe.Invite.{
  InvitePayload, future_message, validate_address, or_empty, check_skew, check_expiry, joined,
  decode_fields, decode_parts,
}

-- What a Rust `InvitePayload` with a valid address and no colon in it is, with no empty name.
pub record IsInvite (p : InvitePayload) : Type 0 where
  pub valid : validate_address p.onion_address ≡ ok tt
  pub no_colon : Lacks b':' p.onion_address
  pub address_text : IsUtf8 p.onion_address
  pub sixteen : length p.nonce ≡ 16
  pub octets : All IsByte p.nonce
  pub in_u64 : IsU64 p.timestamp
  pub named : p.suggested_name ≢ some []
  pub name_text : IsUtf8 (or_empty p.suggested_name)

-- The lifetime has passed. A lifetime of 0, or none, never passes.
abbrev pub IsExpired : ℕ → Option ℕ → ℕ → Type 0
IsExpired timestamp none now = ⊥
IsExpired timestamp (some ttl) now = (0 < ttl) × (timestamp + ttl < now)

abbrev pub IsUnexpired : ℕ → Option ℕ → ℕ → Type 0
IsUnexpired timestamp none now = Unit {0}
IsUnexpired timestamp (some ttl) now = (ttl ≡ 0) ⊎ (now ≤ timestamp + ttl)

-- The sums that the checks make stay below 2^64.
abbrev pub NoWrap : ℕ → Option ℕ → ℕ → Type 0
NoWrap timestamp none now = now + 300 < 2 ^ 64
NoWrap timestamp (some ttl) now = (now + 300 < 2 ^ 64) × (timestamp + ttl < 2 ^ 64)

pub check_skew_passes :
    (t : ℕ) (ttl : Option ℕ) (now : ℕ) → NoWrap t ttl now → t ≤ now + 300 → check_skew t now ≡ ok tt
unfolding check_skew
check_skew_passes t none now w h = ground arith
check_skew_passes t (some ttl) now w h = ground arith

pub check_skew_fails :
    (t : ℕ) (ttl : Option ℕ) (now : ℕ)
    → NoWrap t ttl now
    → now + 300 < t
    → check_skew t now ≡ err (invalid_invite (future_message t now))
unfolding check_skew
check_skew_fails t none now w h = ground arith
check_skew_fails t (some ttl) now w h = ground arith

pub check_expiry_passes :
    (t : ℕ) (ttl : Option ℕ) (now : ℕ)
    → NoWrap t ttl now
    → IsUnexpired t ttl now
    → check_expiry t ttl now ≡ ok tt
unfolding check_expiry
check_expiry_passes t none now w h = refl
check_expiry_passes t (some ttl) now w h = ground arith

pub check_expiry_fails :
    (t : ℕ) (ttl : Option ℕ) (now : ℕ)
    → NoWrap t ttl now
    → IsExpired t ttl now
    → check_expiry t ttl now ≡ err (invite_expired t)
unfolding check_expiry
check_expiry_fails t none now w h = absurd h
check_expiry_fails t (some ttl) now w h = ground arith

-- An absent name is written as the empty field, and the empty field is read as an absent name.
name_back :
    (name : Option Text)
    → name ≢ some []
    → (if is_empty (or_empty name) then none else some (or_empty name)) ≡ name
name_back none h = refl
name_back (some []) h = absurd (h refl)
name_back (some (c ∷ cs)) h = refl

module _ (hex : Hex) (laws : HexLaws hex) where
  -- Cutting the joined text at its colons gives the four fields back.
  pub splitn-joined :
      (p : InvitePayload)
      → IsInvite p
      → splitn 4 b':' (joined hex p)
        ≡ p.onion_address
          ∷ hex.encode p.nonce
          ∷ display p.timestamp
          ∷ or_empty p.suggested_name
          ∷ []
  unfolding joined
  splitn-joined p h =
      splitn_step 2 b':' p.onion_address _ h.no_colon
      ∙ ap (◌∷◌ p.onion_address) (
          splitn_step 1 b':' (hex.encode p.nonce) _ (laws.no_colon p.nonce)
          ∙ ap (◌∷◌ (hex.encode p.nonce)) (
              splitn_step 0 b':' (display p.timestamp) _ (display-Lacks p.timestamp)
              ∙ (unfold splitn in refl)))

  pub joined-IsUtf8 : (p : InvitePayload) → IsInvite p → IsUtf8 (joined hex p)
  unfolding joined
  joined-IsUtf8 p h =
      let colon : IsUtf8 (b':' ∷ []) = IsUtf8-ascii _ (omega arith) in
      IsUtf8-append p.onion_address _ h.address_text (
        IsUtf8-append (b':' ∷ []) _ colon (
          IsUtf8-append (hex.encode p.nonce) _ (IsUtf8-ascii _ (laws.ascii p.nonce)) (
            IsUtf8-append (b':' ∷ []) _ colon (
              IsUtf8-append (display p.timestamp) _ (display-IsUtf8 p.timestamp)
                (IsUtf8-append (b':' ∷ []) _ colon h.name_text)))))

  -- The field checks on the fields of a payload come down to the two checks on its time.
  pub decode_fields-encode :
      (p : InvitePayload) (ttl : Option ℕ) (now : ℕ)
      → IsInvite p
      → decode_parts hex ttl now (
          p.onion_address
          ∷ hex.encode p.nonce
          ∷ display p.timestamp
          ∷ or_empty p.suggested_name
          ∷ [])
        ≡ (check_skew p.timestamp now >>= λ _. check_expiry p.timestamp ttl now >>= λ _. ok p)
  unfolding decode_parts decode_fields
  decode_fields-encode p ttl now h =
      rw (h.valid, laws.decodes p.nonce h.octets, parse_u64-display p.timestamp h.in_u64)
        (ground (arith, h.sixteen, name_back p.suggested_name h.named))
