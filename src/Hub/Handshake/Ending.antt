-- ===== src/Hub/Handshake/Ending.antt =====
-- The hub's handshake ends on any stream whatever, and what it then has done to the set of used nonces.
use nullpipe.Common.{
  ℕ, zero, suc, ◌+◌, ◌-◌, ◌<◌, ◌≡◌, refl, inl, inr, Bool-cases, Option, some, [], ◌∷◌, ◌++◌, length,
  length-append, take, Result, ok, err, ltb, arith,
}
use nullpipe.Std.Utf8.{Bytes}
use nullpipe.Std.Text.{Text}
use nullpipe.Types.{ChatError, PeerId}
use nullpipe.External.Codecs.{Base58, Hex}
use nullpipe.External.Streams.{Stream, Timed, elapsed}
use nullpipe.Nonces.{Nonces, contains}
use nullpipe.Room.Handshake.Claims.{Claims, Claims-bind, Leaves-bind}
use nullpipe.Hub.Handshake.{after_read, gather, claim, admit, admit_read, handshake}

module _ (base58 : Base58) (hex : Hex) (st : Stream) where
  after_read_ends :
      (buf : Bytes) (r : Timed Bytes × st.State)
      (go_on : Bytes → st.State → Option (Result Bytes ChatError × st.State))
      → ((b : ℕ) (bs : Bytes) (s : st.State)
          → (x : Result Bytes ChatError × st.State) × (go_on (buf ++ b ∷ bs) s ≡ some x))
      → (x : Result Bytes ChatError × st.State) × (after_read base58 hex st buf r go_on ≡ some x)
  after_read_ends buf (err elapsed, s) go_on h = (_, refl)
  after_read_ends buf (ok (err e), s) go_on h = (_, refl)
  after_read_ends buf (ok (ok []), s) go_on h = (_, refl)
  after_read_ends buf (ok (ok (b ∷ bs)), s) go_on h = h b bs s

  gather_ends :
      (fuel : ℕ) (buf : Bytes) (s : st.State)
      → 0 < fuel
      → 32 < fuel + length buf
      → (x : Result Bytes ChatError × st.State) × (gather base58 hex st fuel buf s ≡ some x)
  unfolding gather
  gather_ends zero buf s some_fuel enough = absurd (omega arith)
  gather_ends (suc fuel) buf s some_fuel enough = elim (Bool-cases (ltb (length buf) 32)) [
    | inl short ↦
        let (x, ends) =
          after_read_ends buf (st.read (32 - length buf) s) (gather base58 hex st fuel) (λ b bs t.
            gather_ends fuel (buf ++ b ∷ bs) t (ground arith)
              (omega (arith, length-append buf (b ∷ bs)))) in
        (x, rw (short, gather) ends)
    | inr whole ↦ ((ok buf, s), rw (whole, gather) refl)
  ]

  claim-Claims :
      (nonce : Bytes) (s : st.State × Nonces) → Claims s.1 (claim base58 hex st nonce s).1.1
  unfolding claim
  claim-Claims nonce (s, ns) = elim (Bool-cases (contains ns nonce)) [
    | inl used ↦ rw used (inl refl)
    | inr fresh ↦ rw fresh (inr (nonce, fresh, refl))
  ]

  admit-Claims : (buf : Bytes) (s : st.State × Nonces) → Claims s.1 (admit base58 hex st buf s).1.1
  unfolding admit
  admit-Claims buf s =
      Claims-bind _ _ s (claim-Claims (take 16 buf) s) λ _. Leaves-bind _ _ (λ v. refl) λ _ v. refl

  admit_read-Claims :
      (ns : Nonces) (r : Result Bytes ChatError × st.State)
      → Claims ns (admit_read base58 hex st ns r).1.1
  admit_read-Claims ns (err e, s) = inl refl
  admit_read-Claims ns (ok buf, s) = admit-Claims buf (s, ns)

  -- On any stream whatever, the 33 rounds of fuel are enough for the hub's handshake to end, and it leaves the set of used
  -- nonces as it was or adds one nonce that it did not hold.
  pub handshake_ends :
      (s : st.State) (ns : Nonces)
      → (r : Result (PeerId × Text) ChatError × (st.State × Nonces)) × (handshake base58 hex st
            (s, ns)
          ≡ some r)
        × Claims ns r.1.1
  unfolding handshake
  handshake_ends s ns =
      let (x, ends) = gather_ends 33 [] s (omega arith) (omega arith) in
      (admit_read base58 hex st ns x, rw (ends, handshake) refl, admit_read-Claims ns x)
