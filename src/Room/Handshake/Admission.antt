-- ===== src/Room/Handshake/Admission.antt =====
-- The two sides of the handshake together, on streams that work.
use nullpipe.Common.{
  ◌≡◌, refl, ap, sym, ◌∙◌, true, false, [], ◌∷◌, ◌++◌, append-nil, ok, length, take, drop,
  length-append, take-append, drop-append, arith,
}
use nullpipe.Std.Utf8.{Bytes, IsUtf8, is_utf8}
use nullpipe.Std.Text.{Text}
use nullpipe.Types.{nonce_reused}
use nullpipe.External.Codecs.{Base58}
use nullpipe.External.Streams.{Stream, StreamLaws}
use nullpipe.External.Actions.{
  Action, Returns, Raises, Returns-timed, Returns-bind, Raises-bind, Raises-bind_first,
}
use nullpipe.Nonces.{Nonces, contains, insert}
use nullpipe.Wire.{Json, JsonLaws, IsText, system_message, encode_message}
use nullpipe.Wire.Reading.{At, read_sized, timed_write, timed_flush, read_frame-encode_message}
use nullpipe.Room.Handshake.{
  Shared, handshake_len, on_stream, read_hello, check_size, claim, accept, read_name, decode_name,
  hub_handshake,
}

module _ (json : Json) (base58 : Base58) (st : Stream) (laws : StreamLaws st) where
  on_stream-Returns :
      {A : Type 0} (m : Action st.State A) {s t : st.State} {a : A} (ns : Nonces)
      → Returns m s a t
      → Returns (on_stream json base58 st m) (s, ns) a (t, ns)
  on_stream-Returns m ns h = rw h

  hello_front :
      (nonce discriminator : Bytes) (s : st.State) {rest done : Bytes}
      → length nonce ≡ 16
      → length discriminator ≡ 16
      → At st laws s (nonce ++ discriminator ++ rest) done
      → (t : st.State) × Returns (read_hello json base58 st) s (nonce ++ discriminator) t
        × At st laws t rest done
  unfolding read_hello
  hello_front nonce discriminator s {rest} {done} hn hd h =
      let size : length (nonce ++ discriminator) ≡ handshake_len =
        omega (arith, length-append nonce discriminator) in
      let (got, h₁) =
        read_sized st laws handshake_len (nonce ++ discriminator) rest done s size h in
      (_, Returns-timed _ _ (st.read_exact handshake_len) s got, h₁)

  accept-At :
      (s : st.State) {coming done : Bytes}
      → At st laws s coming done
      → (t : st.State) × Returns (accept json base58 st) s tt t
        × At st laws t coming (done ++ (0 ∷ []))
  unfolding accept
  accept-At s h =
      let (wrote, h₁) = timed_write st laws _ _ (0 ∷ []) s h in
      let (flushed, h₂) = timed_flush st laws _ _ _ h₁ in (_, Returns-bind _ _ wrote flushed, h₂)

  claim_fresh :
      (ns : Nonces) (nonce : Bytes) (s : st.State)
      → contains ns nonce ≡ false
      → Returns (claim json base58 st nonce) (s, ns) tt (s, insert ns nonce)
  unfolding claim
  claim_fresh ns nonce s h = rw h

  claim_used :
      (ns : Nonces) (nonce : Bytes) (s : st.State)
      → contains ns nonce ≡ true
      → Raises (claim json base58 st nonce) (s, ns) nonce_reused ((st.write_all (1 ∷ []) s).1, ns)
  unfolding claim
  claim_used ns nonce s h = rw h

  check_size_passes :
      (buf : Bytes) (s : Shared json base58 st)
      → length buf ≡ handshake_len
      → Returns (check_size json base58 st buf) s tt s
  check_size_passes buf s h = rw h

  first_half :
      (nonce discriminator : Bytes) → length nonce ≡ 16 → take 16 (nonce ++ discriminator) ≡ nonce
  first_half nonce discriminator h = rw h at (take-append nonce discriminator)

  second_half :
      (nonce discriminator : Bytes)
      → length nonce ≡ 16
      → length discriminator ≡ 16
      → take 16 (drop 16 (nonce ++ discriminator)) ≡ discriminator
  second_half nonce discriminator hn hd =
      let back : drop 16 (nonce ++ discriminator) ≡ discriminator =
        rw hn at (drop-append nonce discriminator) in
      rw back
        (ap (take 16) (sym (append-nil discriminator)) ∙ rw hd at (take-append discriminator []))

  -- A nonce that has been used is refused with the byte 1, and the set stays as it was.
  pub hub_handshake_reused :
      (nonce discriminator : Bytes) (ns : Nonces) (s : st.State) {rest done : Bytes}
      → length nonce ≡ 16
      → length discriminator ≡ 16
      → contains ns nonce ≡ true
      → At st laws s (nonce ++ discriminator ++ rest) done
      → (t : st.State) × Raises (hub_handshake json base58 st) (s, ns) nonce_reused (t, ns)
        × At st laws t rest (done ++ (1 ∷ []))
  unfolding hub_handshake
  hub_handshake_reused nonce discriminator ns s hn hd used h =
      let (s₁, got, h₁) = hello_front nonce discriminator s hn hd h in
      let (_, h₂) = timed_write st laws [] [] (1 ∷ []) s₁ h₁ in
      let buf : Bytes = nonce ++ discriminator in
      let size : length buf ≡ handshake_len = omega (arith, length-append nonce discriminator) in
      let refused : Raises (claim json base58 st (take 16 buf)) (s₁, ns) nonce_reused
          ((st.write_all (1 ∷ []) s₁).1, ns) =
        rw (first_half nonce discriminator hn) (claim_used ns nonce s₁ used) in
      (
        _,
        Raises-bind _ _ (on_stream-Returns (read_hello json base58 st) ns got)
            (Raises-bind _ _ (check_size_passes buf (s₁, ns) size) (Raises-bind_first _ _ refused)),
        h₂,
      )

  system_text : (name : Text) → IsUtf8 name → IsText (system_message name)
  unfolding system_message is_utf8
  system_text name h = (refl, h)

  name_read :
      (json_laws : JsonLaws json) (name frame : Bytes) (s : st.State) {rest done : Bytes}
      → IsUtf8 name
      → encode_message json (system_message name) ≡ ok frame
      → At st laws s (frame ++ rest) done
      → (t : st.State) × Returns (read_name json base58 st) s frame t
        × (decode_name json base58 st frame ≡ ok (system_message name))
        × At st laws t rest done
  unfolding read_name decode_name
  name_read json_laws name frame s {rest} {done} text e h =
      let (got, decoded, h₁) =
        read_frame-encode_message st laws json json_laws (system_message name) frame rest done s
          (system_text name text) e h in
      (_, rw got, rw decoded, h₁)

  -- Sixteen fresh bytes, sixteen more and a name are answered by the byte 0, and the peer is admitted
  -- under the base58 of its random bytes and the name that it sent; its nonce is used from then on.
  pub hub_handshake_admits :
      (json_laws : JsonLaws json) (nonce discriminator name frame : Bytes) (ns : Nonces)
      (s : st.State) {rest done : Bytes}
      → length nonce ≡ 16
      → length discriminator ≡ 16
      → IsUtf8 name
      → encode_message json (system_message name) ≡ ok frame
      → contains ns nonce ≡ false
      → At st laws s (nonce ++ discriminator ++ (frame ++ rest)) done
      → (t : st.State) × Returns
          (hub_handshake json base58 st)
          (s, ns)
          (record { text = base58.to_base58 discriminator }, name)
          (t, insert ns nonce)
        × At st laws t rest (done ++ (0 ∷ []))
  unfolding hub_handshake
  hub_handshake_admits json_laws nonce discriminator name frame ns s hn hd text e fresh h =
      let (s₁, got, h₁) = hello_front nonce discriminator s hn hd h in
      let (s₂, accepted, h₂) = accept-At s₁ h₁ in
      let (s₃, named, decoded, h₃) = name_read json_laws name frame s₂ text e h₂ in
      let buf : Bytes = nonce ++ discriminator in
      let ns' : Nonces = insert ns nonce in
      let size : length buf ≡ handshake_len = omega (arith, length-append nonce discriminator) in
      let claimed : Returns (claim json base58 st (take 16 buf)) (s₁, ns) tt (s₁, ns') =
        rw (first_half nonce discriminator hn) (claim_fresh ns nonce s₁ fresh) in
      let end : (
        ok (record { text = base58.to_base58 (take 16 (drop 16 buf)) }, (system_message name).text),
        (s₃, ns'),
      )
          ≡ (ok (record { text = base58.to_base58 discriminator }, name), (s₃, ns')) =
        rw (second_half nonce discriminator hn hd) (unfold system_message in refl) in
      (
        s₃,
        Returns-bind _ _ (on_stream-Returns (read_hello json base58 st) ns got) (
            Returns-bind _ _ (check_size_passes buf (s₁, ns) size) (
              Returns-bind _ _ claimed (
                Returns-bind _ _ (on_stream-Returns (accept json base58 st) ns' accepted) (
                  Returns-bind _ _ (on_stream-Returns (read_name json base58 st) ns' named)
                    (Returns-bind _ _ (ap (λ r. (r, (s₃, ns'))) decoded) end))))),
        h₃,
      )
