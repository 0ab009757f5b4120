-- ===== src/Hub/Handshake/Pieces.antt =====
-- The hub's handshake does not depend on how the network cuts the bytes.
use nullpipe.Common.{
  ℕ, zero, suc, ◌+◌, ◌-◌, ◌≤◌, ◌<◌, ◌≡◌, refl, sym, ap, ◌∙◌, ◌⊎◌, inl, inr, true, false, [], ◌∷◌,
  ◌++◌, append_assoc, append-nil, take, drop, length, length-append, take-append, drop-append, some,
  ok, ltb, arith,
}
use nullpipe.Std.Utf8.{Bytes}
use nullpipe.Std.Text.{lit}
use nullpipe.External.Codecs.{Base58, Hex}
use nullpipe.External.Streams.{Stream, StreamLaws}
use nullpipe.External.Actions.{Returns, Returns-bind}
use nullpipe.Nonces.{Nonces, contains, insert}
use nullpipe.Wire.Reading.{At, timed_write, timed_flush}
use nullpipe.Hub.Handshake.{gather, claim, accept, admit, on_stream, handshake}

-- One list starts with the other, as far as they overlap.
overlap :
    (bs u front rest : Bytes)
    → bs ++ u ≡ front ++ rest
    → length bs ≤ length front
    → (more : Bytes) × (front ≡ bs ++ more) × (u ≡ more ++ rest)
overlap [] u front rest e le = (front, refl, e)
overlap (b ∷ bs) u [] rest e le = absurd (omega arith)
overlap (b ∷ bs) u (f ∷ front) rest e le =
    let tails : bs ++ u ≡ front ++ rest = cc in
    let heads : b ≡ f = cc in
    let (more, split, left) = overlap bs u front rest tails (omega arith) in (more, cc, left)

module _ (base58 : Base58) (hex : Hex) (st : Stream) (laws : StreamLaws st) where
  -- The piece that a read gives, which is never empty here.
  gather_step :
      (fuel : ℕ) (buf bs : Bytes) (s : st.State)
      → length buf < 32
      → 0 < length bs
      → (st.read (32 - length buf) s).0 ≡ ok (ok bs)
      → gather base58 hex st (suc fuel) buf s
        ≡ gather base58 hex st fuel (buf ++ bs) (st.read (32 - length buf) s).1
  unfolding gather
  gather_step fuel buf [] s short pos got = absurd (omega arith)
  gather_step fuel buf (b ∷ bs) s short pos got =
      let test : ltb (length buf) 32 ≡ true = ground arith in rw (test, got, gather) refl

  gather_end :
      (fuel : ℕ) (buf : Bytes) (s : st.State)
      → length buf ≡ 32
      → gather base58 hex st (suc fuel) buf s ≡ some (ok buf, s)
  unfolding gather
  gather_end fuel buf s size =
      let test : ltb (length buf) 32 ≡ false = ground arith in rw (test, gather) refl

  pieced :
      (fuel : ℕ) (buf bs more front : Bytes) (s t u : st.State)
      → gather base58 hex st (suc fuel) buf s ≡ gather base58 hex st fuel (buf ++ bs) t
      → gather base58 hex st fuel (buf ++ bs) t ≡ some (ok ((buf ++ bs) ++ more), u)
      → front ≡ bs ++ more
      → gather base58 hex st (suc fuel) buf s ≡ some (ok (buf ++ front), u)
  pieced fuel buf bs more front s t u step rest split =
      step
      ∙ rest
      ∙ ap (λ b. some (ok b, u)) (append_assoc buf bs more ∙ ap (λ x. buf ++ x) (sym split))

  gather_whole :
      (fuel : ℕ) (buf front rest done : Bytes) (s : st.State)
      → length buf + length front ≡ 32
      → length front < fuel
      → At st laws s (front ++ rest) done
      → (t : st.State) × (gather base58 hex st fuel buf s ≡ some (ok (buf ++ front), t))
        × At st laws t rest done
  gather_whole zero buf front rest done s size enough h = absurd (omega arith)
  gather_whole (suc fuel) buf [] rest done s size enough h =
      (s, gather_end fuel buf s (omega arith) ∙ ap (λ b. some (ok b, s)) (sym (append-nil buf)), h)
  gather_whole (suc fuel) buf (f ∷ front) rest done s size enough h =
      let n : ℕ = 32 - length buf in
      let (bs, got, split, short, some_read, kept, up) = laws.read_some n s h.up (omega arith) in
      let t : st.State = (st.read n s).1 in
      let e : bs ++ laws.unread t ≡ (f ∷ front) ++ rest = sym split ∙ h.coming_lem in
      let (more, front_lem, left) = overlap bs (laws.unread t) (f ∷ front) rest e (omega arith) in
      let pos : 0 < length bs = nonempty bs some_read (h.coming_lem) in
      let sizes : length (f ∷ front) ≡ length bs + length more =
        ap length front_lem ∙ length-append bs more in
      let h₁ : At st laws t (more ++ rest) done = record {
        up = up;
        coming_lem = left;
        written_lem = kept ∙ h.written_lem;
      } in
      let (u, rest_read, h₂) =
        gather_whole fuel (buf ++ bs) more rest done t (omega (arith, length-append buf bs))
          (omega arith) h₁ in
      (
        u,
        pieced fuel buf bs more (f ∷ front) s t u (gather_step fuel buf bs s (omega arith) pos got)
            rest_read front_lem,
        h₂,
      )
    where
      nonempty :
          (bs : Bytes)
          → (0 < length bs) ⊎ (laws.unread s ≡ [])
          → laws.unread s ≡ (f ∷ front) ++ rest
          → 0 < length bs
      nonempty bs (inl pos) e = pos
      nonempty bs (inr empty) e = absurd (ground arith)

  accept-At :
      (s : st.State) {coming done : Bytes}
      → At st laws s coming done
      → (t : st.State) × Returns (accept base58 hex st) s tt t
        × At st laws t coming (done ++ (0 ∷ []))
  unfolding accept
  accept-At s h =
      let (wrote, h₁) = timed_write st laws _ _ (0 ∷ []) s h in
      let (flushed, h₂) = timed_flush st laws _ _ _ h₁ in (_, Returns-bind _ _ wrote flushed, h₂)

  claim_fresh :
      (ns : Nonces) (nonce : Bytes) (s : st.State)
      → contains ns nonce ≡ false
      → Returns (claim base58 hex st nonce) (s, ns) tt (s, insert ns nonce)
  unfolding claim
  claim_fresh ns nonce s h = rw h refl

  cut_first :
      (nonce discriminator : Bytes) → length nonce ≡ 16 → take 16 (nonce ++ discriminator) ≡ nonce
  cut_first nonce discriminator h = rw h at (take-append nonce discriminator)

  cut_second :
      (nonce discriminator : Bytes)
      → length nonce ≡ 16
      → length discriminator ≡ 16
      → take 16 (drop 16 (nonce ++ discriminator)) ≡ discriminator
  cut_second nonce discriminator hn hd =
      let back : drop 16 (nonce ++ discriminator) ≡ discriminator =
        rw hn at (drop-append nonce discriminator) in
      rw back
        (ap (take 16) (sym (append-nil discriminator)) ∙ rw hd at (take-append discriminator []))

  admits :
      (nonce discriminator : Bytes) (ns : Nonces) (s : st.State) {rest done : Bytes}
      → length nonce ≡ 16
      → length discriminator ≡ 16
      → contains ns nonce ≡ false
      → At st laws s rest done
      → (t : st.State) × Returns
          (admit base58 hex st (nonce ++ discriminator))
          (s, ns)
          (
            record { text = base58.to_base58 discriminator },
            lit "peer-" ++ hex.encode (take 4 discriminator),
          )
          (t, insert ns nonce)
        × At st laws t rest (done ++ (0 ∷ []))
  unfolding admit
  admits nonce discriminator ns s hn hd fresh h =
      let (t, accepted, h₁) = accept-At s h in
      let ns' : Nonces = insert ns nonce in
      (
        t,
        rw (cut_first nonce discriminator hn, cut_second nonce discriminator hn hd)
            (Returns-bind _ _ (claim_fresh ns nonce s fresh)
              (Returns-bind _ _ (lifted t ns' accepted) refl)),
        h₁,
      )
    where
      lifted :
          (t : st.State) (ns' : Nonces)
          → Returns (accept base58 hex st) s tt t
          → Returns (on_stream base58 hex st (accept base58 hex st)) (s, ns') tt (t, ns')
      lifted t ns' accepted = rw accepted refl

  handshake_read :
      (s s₁ : st.State) (ns : Nonces) (buf : Bytes)
      → gather base58 hex st 33 [] s ≡ some (ok buf, s₁)
      → handshake base58 hex st (s, ns) ≡ some (admit base58 hex st buf (s₁, ns))
  unfolding handshake
  handshake_read s s₁ ns buf h = rw (h, handshake) refl

  -- However the network cuts them into pieces, sixteen fresh bytes and sixteen more are read to the end and no further
  -- within the 33 rounds of fuel, and answered by the byte 0; the peer is admitted under the base58 of the second
  -- sixteen and named after their first four, and the nonce is used from then on.
  pub handshake_whole :
      (nonce discriminator : Bytes) (ns : Nonces) (s : st.State) {rest done : Bytes}
      → length nonce ≡ 16
      → length discriminator ≡ 16
      → contains ns nonce ≡ false
      → At st laws s ((nonce ++ discriminator) ++ rest) done
      → (t : st.State) × (handshake base58 hex st (s, ns)
          ≡ some (
            ok (
              record { text = base58.to_base58 discriminator },
              lit "peer-" ++ hex.encode (take 4 discriminator),
            ),
            (t, insert ns nonce),
          ))
        × At st laws t rest (done ++ (0 ∷ []))
  handshake_whole nonce discriminator ns s {rest} {done} hn hd fresh h =
      let buf : Bytes = nonce ++ discriminator in
      let (s₁, read, h₁) =
        gather_whole 33 [] buf rest done s (omega (arith, length-append nonce discriminator))
          (omega (arith, length-append nonce discriminator)) h in
      let (t, admitted, h₂) = admits nonce discriminator ns s₁ hn hd fresh h₁ in
      (t, handshake_read s s₁ ns buf read ∙ ap some admitted, h₂)
