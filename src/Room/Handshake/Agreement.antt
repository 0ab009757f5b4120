-- ===== src/Room/Handshake/Agreement.antt =====
-- The joiner's handshake against the hub's.
use nullpipe.Common.{◌≡◌, ap, sym, ◌∙◌, false, [], ◌∷◌, ◌++◌, append-nil, ok, length}
use nullpipe.Std.Utf8.{Bytes, IsUtf8}
use nullpipe.External.Codecs.{Base58}
use nullpipe.External.Streams.{Stream, StreamLaws}
use nullpipe.External.Actions.{Returns}
use nullpipe.Nonces.{Nonces, contains, insert}
use nullpipe.Wire.{Json, JsonLaws, system_message, encode_message}
use nullpipe.Wire.Reading.{At, At-coming}
use nullpipe.Joiner.Handshake
use nullpipe.Joiner.Handshake.Agreement.{handshake_accepted}
use nullpipe.Room.Handshake.{hub_handshake}
use nullpipe.Room.Handshake.Admission.{hub_handshake_admits}

module _ (json : Json) (base58 : Base58) (st : Stream) (laws : StreamLaws st)
    (json_laws : JsonLaws json) where
  -- The joiner's and the hub's handshakes fit together: each writes what the other reads, both succeed,
  -- and they agree on the peer's identifier; the hub learns the name and uses up the nonce.
  pub handshake_agreement :
      (nonce discriminator name frame : Bytes) (ns : Nonces) (joiner hub : st.State)
      → length nonce ≡ 16
      → length discriminator ≡ 16
      → IsUtf8 name
      → encode_message json (system_message name) ≡ ok frame
      → contains ns nonce ≡ false
      → At st laws joiner (0 ∷ []) []
      → At st laws hub (nonce ++ discriminator ++ frame) []
      → (joiner' hub' : st.State) × Returns
          (Handshake.handshake json base58 st discriminator name nonce)
          joiner
          (record { text = base58.to_base58 discriminator })
          joiner'
        × Returns
            (hub_handshake json base58 st)
            (hub, ns)
            (record { text = base58.to_base58 discriminator }, name)
            (hub', insert ns nonce)
        × (laws.written joiner' ≡ laws.unread hub)
        × (laws.written hub' ≡ laws.unread joiner)
        × (laws.unread joiner' ≡ [])
        × (laws.unread hub' ≡ [])
  handshake_agreement nonce discriminator name frame ns joiner hub hn hd text e fresh hj hh =
      let (joiner', joined, hj') =
        handshake_accepted json base58 st laws discriminator nonce name frame joiner e hj in
      let ready =
        At-coming st laws hub hh (ap (λ b. nonce ++ discriminator ++ b) (sym (append-nil frame))) in
      let (hub', admitted, hh') =
        hub_handshake_admits json base58 st laws json_laws nonce discriminator name frame ns hub hn
          hd text e fresh ready in
      (
        joiner',
        hub',
        joined,
        admitted,
        hj'.written_lem ∙ sym hh.coming_lem,
        hh'.written_lem ∙ sym hj.coming_lem,
        hj'.coming_lem,
        hh'.coming_lem,
      )
