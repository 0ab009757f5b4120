-- ===== src/Joiner/Connect/Reaching.antt =====
-- What `Joiner::connect` gives when everything that it calls succeeds.
use nullpipe.Common.{ℕ, ◌≡◌, ap, ◌∙◌, some, Result, ok}
use nullpipe.Common.{◌>>=◌ as bind}
use nullpipe.Std.Utf8.{Bytes}
use nullpipe.Std.Text.{Text}
use nullpipe.Types.{ChatError, PeerId}
use nullpipe.External.Codecs.{Base58, Hex}
use nullpipe.External.Streams.{Stream}
use nullpipe.External.Actions.{Returns}
use nullpipe.Wire.{Json}
use nullpipe.Invite.{InvitePayload, decode}
use nullpipe.Joiner.Handshake.{handshake}
use nullpipe.Joiner.Connect.{connect_ttl, effective_name, finish, connect_to, connect}

module _ (json : Json) (base58 : Base58) (hex : Hex) (st : Stream) where
  pub connects :
      (connector : Text → ℕ → Result st.State ChatError) (now : ℕ)
      (discriminator token name : Bytes) (p : InvitePayload) (s t : st.State) (id : PeerId)
      → decode base58 hex token (some connect_ttl) now ≡ ok p
      → connector p.onion_address 80 ≡ ok s
      → Returns
          (handshake json base58 st discriminator (effective_name name p.suggested_name) p.nonce)
          s
          id
          t
      → connect json base58 hex st connector now discriminator token name
        ≡ ok (record { stream = some t; peer_id = id; name = effective_name name p.suggested_name })
  unfolding connect connect_to
  connects connector now discriminator token name p s t id decoded reached shaken =
      let chosen : Text = effective_name name p.suggested_name in
      ap (λ r. bind r (connect_to json base58 hex st connector discriminator name)) decoded
      ∙ ap
          (λ r. bind r (λ s.
            finish json base58 hex st chosen
              (handshake json base58 st discriminator chosen p.nonce s)))
          reached
      ∙ ap (finish json base58 hex st chosen) shaken
