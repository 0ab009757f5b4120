-- ===== src/Invite/RoundTrip.antt =====
-- What decoding an encoded invite gives, and what a decoded invite is like.
use nullpipe.Common.{
  ℕ, ◌+◌, ◌-◌, ◌^◌, ◌≤◌, ◌≡◌, ◌≢◌, refl, ◌∙◌, [], ◌∷◌, ◌++◌, List, Option, none, some, length, ok,
  ◌>>=◌, Result-cases, arith, inl, inr, false,
}
use nullpipe.Std.Utf8.{IsUtf8, IsUtf8-IsByte}
use nullpipe.Std.Text.{Text, is_empty, splitn}
use nullpipe.External.Codecs.{Base58, Base58Laws, Hex, HexLaws}
use nullpipe.Invite.{
  InvitePayload, validate_address, check_skew, check_expiry, joined, decode_fields, decode_parts,
  encode, decode,
}
use nullpipe.Invite.Fields.{
  IsInvite, IsUnexpired, NoWrap, check_skew_passes, check_expiry_passes, splitn-joined,
  joined-IsUtf8, decode_fields-encode,
}

module _ (base58 : Base58) (hex : Hex) (base58_laws : Base58Laws base58)
    (hex_laws : HexLaws hex) where
  joined-ne-nil : (p : InvitePayload) → joined hex p ≢ []
  unfolding joined
  joined-ne-nil p = go p.onion_address _
    where
      go : (a b : Text) → a ++ (b':' ∷ b) ≢ []
      go [] b e = cc
      go (c ∷ a) b e = cc

  is_empty-false : (t : Text) → t ≢ [] → is_empty t ≡ false
  is_empty-false [] h = absurd (h refl)
  is_empty-false (c ∷ t) h = refl

  encode-eq-ok :
      (p : InvitePayload) {token : Text}
      → IsInvite p
      → encode base58 hex p ≡ ok token
      → token ≡ base58.to_base58 (joined hex p)
  unfolding encode
  encode-eq-ok p h e = ground (arith, h.valid)

  -- Everything but the two checks on the time is passed by an encoded payload.
  decode_checks :
      (p : InvitePayload) (token : Text) (ttl : Option ℕ) (now : ℕ)
      → IsInvite p
      → encode base58 hex p ≡ ok token
      → decode base58 hex token ttl now
        ≡ (check_skew p.timestamp now >>= λ _. check_expiry p.timestamp ttl now >>= λ _. ok p)
  unfolding decode
  decode_checks p token ttl now h e =
      let text : IsUtf8 (joined hex p) = joined-IsUtf8 hex hex_laws p h in
      let bytes = joined hex p in
      rw
        (
          encode-eq-ok p h e,
          is_empty-false _ (base58_laws.not_empty bytes (joined-ne-nil p)),
          base58_laws.decodes bytes (IsUtf8-IsByte bytes text),
          text,
          splitn-joined hex hex_laws p h,
        )
        (decode_fields-encode hex hex_laws p ttl now h)

  pub decode-encode :
      (p : InvitePayload) (token : Text) (ttl : Option ℕ) (now : ℕ)
      → IsInvite p
      → NoWrap p.timestamp ttl now
      → encode base58 hex p ≡ ok token
      → p.timestamp ≤ now + 300
      → IsUnexpired p.timestamp ttl now
      → decode base58 hex token ttl now ≡ ok p
  decode-encode p token ttl now h w e early fresh =
      decode_checks p token ttl now h e
      ∙ rw (
        check_skew_passes p.timestamp ttl now w early,
        check_expiry_passes p.timestamp ttl now w fresh,
      )

  -- Two payloads with the same code are the same payload.
  pub encode_injective :
      (p q : InvitePayload) (token : Text)
      → IsInvite p
      → IsInvite q
      → encode base58 hex p ≡ ok token
      → encode base58 hex q ≡ ok token
      → p ≡ q
  encode_injective p q token hp hq ep eq =
      let now : ℕ = 2 ^ 64 - 301 in
      let back : decode base58 hex token none now ≡ ok p =
        decode-encode p token none now hp (omega arith) ep (omega (arith, hp.in_u64)) tt in
      let back' : decode base58 hex token none now ≡ ok q =
        decode-encode q token none now hq (omega arith) eq (omega (arith, hq.in_u64)) tt in
      cc (back, back')

-- What every accepted code satisfies, whoever made it.
pub record IsAccepted (p : InvitePayload) (ttl : Option ℕ) (now : ℕ) : Type 0 where
  pub valid : validate_address p.onion_address ≡ ok tt
  pub sixteen : length p.nonce ≡ 16
  pub named : p.suggested_name ≢ some []
  pub in_time : check_skew p.timestamp now ≡ ok tt
  pub lives : check_expiry p.timestamp ttl now ≡ ok tt

module _ (hex : Hex) where
  decode_fields-IsAccepted :
      (ttl : Option ℕ) (now : ℕ) (address nonce issued : Text) (name : Option Text)
      (p : InvitePayload)
      → name ≢ some []
      → decode_fields hex ttl now address nonce issued name ≡ ok p
      → IsAccepted p ttl now
  unfolding decode_fields
  decode_fields-IsAccepted ttl now address nonce issued name p given h = ground arith

  decode_parts-IsAccepted :
      (ttl : Option ℕ) (now : ℕ) (parts : List Text) (p : InvitePayload)
      → decode_parts hex ttl now parts ≡ ok p
      → IsAccepted p ttl now
  unfolding decode_parts
  decode_parts-IsAccepted ttl now (a ∷ n ∷ t ∷ []) p h =
      decode_fields-IsAccepted ttl now a n t none p (λ e. cc) h
  decode_parts-IsAccepted ttl now (a ∷ n ∷ t ∷ [] ∷ []) p h =
      decode_fields-IsAccepted ttl now a n t none p (λ e. cc) h
  decode_parts-IsAccepted ttl now (a ∷ n ∷ t ∷ (c ∷ name) ∷ []) p h =
      decode_fields-IsAccepted ttl now a n t (some (c ∷ name)) p (λ e. cc) h
  decode_parts-IsAccepted ttl now _ p h = cc

module _ (base58 : Base58) (hex : Hex) where
  -- Whatever text a joiner is given, a code that is accepted names a valid onion address, a nonce of 16
  -- bytes, no empty name, and a time inside the window of the skew and the lifetime.
  pub decode-IsAccepted :
      (token : Text) (ttl : Option ℕ) (now : ℕ) (p : InvitePayload)
      → decode base58 hex token ttl now ≡ ok p
      → IsAccepted p ttl now
  unfolding decode
  decode-IsAccepted token ttl now p h = elim (Result-cases (base58.from_base58 token)) [
    | inl (bytes, e) ↦ decode_parts-IsAccepted hex ttl now (splitn 4 b':' bytes) p (ground arith)
    | inr (problem, e) ↦ absurd (ground arith)
  ]
