-- ===== src/Joiner/Handshake/Agreement.antt =====
-- What the joiner's handshake does with each answer of the hub.
use nullpipe.Common.{ℕ, ◌≡◌, ◌≢◌, refl, ap, [], ◌∷◌, ◌++◌, ok, arith}
use nullpipe.Std.Utf8.{Bytes}
use nullpipe.Std.Text.{Text, lit}
use nullpipe.Types.{connection}
use nullpipe.External.Codecs.{Base58}
use nullpipe.External.Streams.{Stream, StreamLaws}
use nullpipe.External.Actions.{
  Returns, Raises, timed, Returns-timed, Returns-bind, Raises-bind, Raises-bind_first,
}
use nullpipe.Wire.{Json, system_message, encode_message}
use nullpipe.Wire.Reading.{At, read_front, timed_write, timed_flush}
use nullpipe.Joiner.Handshake.{hello, check_response, send_name, handshake}

module _ (json : Json) (base58 : Base58) (st : Stream) (laws : StreamLaws st) where
  hello-At :
      (nonce discriminator : Bytes) (s : st.State) {coming done : Bytes}
      → At st laws s coming done
      → (t : st.State) × Returns (hello json base58 st nonce discriminator) s tt t
        × At st laws t coming (done ++ (nonce ++ discriminator))
  unfolding hello
  hello-At nonce discriminator s h =
      let (wrote, h₁) = timed_write st laws _ _ (nonce ++ discriminator) s h in
      let (flushed, h₂) = timed_flush st laws _ _ _ h₁ in (_, Returns-bind _ _ wrote flushed, h₂)

  send_name-At :
      (name : Text) (frame : Bytes) (s : st.State) {coming done : Bytes}
      → encode_message json (system_message name) ≡ ok frame
      → At st laws s coming done
      → (t : st.State) × Returns (send_name json base58 st name) s tt t
        × At st laws t coming (done ++ frame)
  unfolding send_name
  send_name-At name frame s e h =
      let (wrote, h₁) = timed_write st laws _ _ frame s h in
      let (flushed, h₂) = timed_flush st laws _ _ _ h₁ in
      (_, Returns-bind _ _ (ap (λ r. (r, s)) e) (Returns-bind _ _ wrote flushed), h₂)

  answer_front :
      (late failed : Text) (answer : ℕ) (s : st.State) {rest done : Bytes}
      → At st laws s (answer ∷ rest) done
      → (t : st.State) × Returns (timed late failed (st.read_exact 1)) s (answer ∷ []) t
        × At st laws t rest done
  answer_front late failed answer s {rest} {done} h =
      let (got, h₁) = read_front st laws (answer ∷ []) rest done s h in
      (_, Returns-timed late failed (st.read_exact 1) s got, h₁)

  -- If the hub answers 0, the joiner has sent the nonce, its random bytes and the frame with its name,
  -- in this order and nothing else, and it goes by the base58 of its random bytes.
  pub handshake_accepted :
      (discriminator nonce : Bytes) (name : Text) (frame : Bytes) (s : st.State) {rest done : Bytes}
      → encode_message json (system_message name) ≡ ok frame
      → At st laws s (0 ∷ rest) done
      → (t : st.State) × Returns
          (handshake json base58 st discriminator name nonce)
          s
          (record { text = base58.to_base58 discriminator })
          t
        × At st laws t rest (done ++ (nonce ++ discriminator) ++ frame)
  unfolding handshake check_response
  handshake_accepted discriminator nonce name frame s e h =
      let (s₁, greeted, h₁) = hello-At nonce discriminator s h in
      let (s₂, answered, h₂) = answer_front _ _ 0 s₁ h₁ in
      let (s₃, named, h₃) = send_name-At name frame s₂ e h₂ in
      (
        s₃,
        Returns-bind _ _ greeted
            (Returns-bind _ _ answered (Returns-bind _ _ refl (Returns-bind _ _ named refl))),
        h₃,
      )

  -- If the hub answers anything else, the joiner reports the rejection and does not send its name.
  pub handshake_rejected :
      (discriminator nonce : Bytes) (name : Text) (answer : ℕ) (s : st.State) {rest done : Bytes}
      → answer ≢ 0
      → At st laws s (answer ∷ rest) done
      → (t : st.State) × Raises
          (handshake json base58 st discriminator name nonce)
          s
          (connection (lit "handshake rejected by hub"))
          t
        × At st laws t rest (done ++ (nonce ++ discriminator))
  unfolding handshake check_response
  handshake_rejected discriminator nonce name answer s h₀ h =
      let (s₁, greeted, h₁) = hello-At nonce discriminator s h in
      let (s₂, answered, h₂) = answer_front _ _ answer s₁ h₁ in
      (
        s₂,
        Raises-bind _ _ greeted (Raises-bind _ _ answered (Raises-bind_first _ _ (ground arith))),
        h₂,
      )
