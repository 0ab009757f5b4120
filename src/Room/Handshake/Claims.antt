-- ===== src/Room/Handshake/Claims.antt =====
-- What any handshake does to the set of used nonces, on any stream whatever.
use mathlib.Core.Path.{subst}
use nullpipe.Common.{
  ◌≡◌, refl, sym, ◌∙◌, Bool-cases, Result-cases, ◌⊎◌, inl, inr, false, take, arith,
}
use nullpipe.Std.Utf8.{Bytes}
use nullpipe.External.Codecs.{Base58}
use nullpipe.External.Streams.{Stream}
use nullpipe.External.Actions.{Action, ◌>>=◌}
use nullpipe.Nonces.{Nonces, contains, insert, IsDistinct}
use nullpipe.Wire.{Json}
use nullpipe.Room.Handshake.{Shared, hub_handshake, claim, check_size}

-- The set is as it was, or has one nonce more, which it did not hold.
abbrev pub Claims : Nonces → Nonces → Type 0
Claims before after =
    (after ≡ before) ⊎ ((n : Bytes) × (contains before n ≡ false) × (after ≡ insert before n))

pub IsDistinct-Claims :
    (before after : Nonces) → Claims before after → IsDistinct before → IsDistinct after
unfolding insert
IsDistinct-Claims before after (inl e) h = subst IsDistinct (sym e) h
IsDistinct-Claims before after (inr (n, fresh, e)) h = subst IsDistinct (sym e) (fresh, h)

module _ {S A : Type 0} where
  -- An action that does not touch the set.
  abbrev pub Leaves : Action (S × Nonces) A → Type 0
  Leaves m = (s : S × Nonces) → (m s).1.1 ≡ s.1

module _ {S A B : Type 0} where
  pub Leaves-bind :
      (m : Action (S × Nonces) A) (f : A → Action (S × Nonces) B)
      → Leaves m
      → ((a : A) → Leaves (f a))
      → Leaves (m >>= f)
  unfolding ◌>>=◌
  Leaves-bind m f hm hf s = elim (Result-cases (m s).0) [
    | inl (a, e) ↦ rw e (hf a (m s).1 ∙ hm s)
    | inr (x, e) ↦ rw e (hm s)
  ]

  -- An action before one that leaves the set alone, and one behind.
  pub Claims-bind :
      (m : Action (S × Nonces) A) (f : A → Action (S × Nonces) B) (s : S × Nonces)
      → Claims s.1 (m s).1.1
      → ((a : A) → Leaves (f a))
      → Claims s.1 ((m >>= f) s).1.1
  unfolding ◌>>=◌
  Claims-bind m f s hm hf = elim (Result-cases (m s).0) [
    | inl (a, e) ↦ rw (e, hf a (m s).1) hm
    | inr (x, e) ↦ rw e hm
  ]

  bind-Claims :
      (m : Action (S × Nonces) A) (f : A → Action (S × Nonces) B) (s : S × Nonces)
      → Leaves m
      → ((a : A) (t : S × Nonces) → Claims t.1 (f a t).1.1)
      → Claims s.1 ((m >>= f) s).1.1
  unfolding ◌>>=◌
  bind-Claims m f s hm hf = elim (Result-cases (m s).0) [
    | inl (a, e) ↦ rw e (subst (λ ns. Claims ns (f a (m s).1).1.1) (hm s) (hf a (m s).1))
    | inr (x, e) ↦ rw e (inl (hm s))
  ]

module _ (json : Json) (base58 : Base58) (st : Stream) where
  claim-Claims :
      (nonce : Bytes) (s : Shared json base58 st) → Claims s.1 (claim json base58 st nonce s).1.1
  unfolding claim
  claim-Claims nonce (s, ns) = elim (Bool-cases (contains ns nonce)) [
    | inl used ↦ rw used (inl refl)
    | inr fresh ↦ rw fresh (inr (nonce, fresh, refl))
  ]

  check_size-Leaves : (buf : Bytes) → Leaves (check_size json base58 st buf)
  check_size-Leaves buf s = ground arith

  -- A handshake uses up one fresh nonce at most, whatever the peer sends and however it ends.
  pub hub_handshake-Claims :
      (s : Shared json base58 st) → Claims s.1 (hub_handshake json base58 st s).1.1
  unfolding hub_handshake
  hub_handshake-Claims s =
      bind-Claims _ _ s (λ t. refl)
        λ buf t. bind-Claims _ _ t (check_size-Leaves buf) λ _ u.
          Claims-bind _ _ u (claim-Claims (take 16 buf) u) λ _.
            Leaves-bind _ _ (λ v. refl)
              λ _. Leaves-bind _ _ (λ v. refl) λ frame. Leaves-bind _ _ (λ v. refl) λ m v. refl
