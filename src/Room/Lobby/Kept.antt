-- ===== src/Room/Lobby/Kept.antt =====
-- The peers that the connections of a host keep.
use nullpipe.Common.{
  get_elem?, set_elem, ℕ, zero, suc, ◌≡◌, ◌≢◌, refl, ap, Option, none, some, List, [], ◌∷◌, ◌++◌,
}
use nullpipe.Types.{PeerInfo}
use nullpipe.External.Codecs.{Base58}
use nullpipe.External.Streams.{Stream}
use nullpipe.External.Channels.{Sender}
use nullpipe.Wire.{Json}
use nullpipe.Room.Lobby.{
  Phase, handshaking, admitted, registered, announced, served, removed, closed,
}

module _ (json : Json) (base58 : Base58) (st : Stream) (sender : Sender) where
  -- The peer that a connection keeps in the map.
  abbrev pub kept : Phase json base58 st sender → Option PeerInfo
  kept (handshaking s) = none
  kept (admitted s info) = none
  kept (registered s info) = some info
  kept (announced s info) = some info
  kept (served s info) = some info
  kept (removed info) = none
  kept closed = none

  abbrev pub kept_at : List (Phase json base58 st sender) → ℕ → Option PeerInfo
  kept_at [] i = none
  kept_at (p ∷ ps) zero = kept p
  kept_at (p ∷ ps) (suc i) = kept_at ps i

  pub kept_at-set_same :
      (ps : List (Phase json base58 st sender)) (i : ℕ) (p q : Phase json base58 st sender)
      → get_elem? ps i ≡ some q
      → kept_at (set_elem ps i p) i ≡ kept p
  kept_at-set_same [] i p q h = cc
  kept_at-set_same (x ∷ ps) zero p q h = refl
  kept_at-set_same (x ∷ ps) (suc i) p q h = kept_at-set_same ps i p q h

  pub kept_at-set_other :
      (ps : List (Phase json base58 st sender)) (i j : ℕ) (p : Phase json base58 st sender)
      → i ≢ j
      → kept_at (set_elem ps i p) j ≡ kept_at ps j
  kept_at-set_other [] i j p ne = refl
  kept_at-set_other (x ∷ ps) zero zero p ne = absurd (ne refl)
  kept_at-set_other (x ∷ ps) zero (suc j) p ne = refl
  kept_at-set_other (x ∷ ps) (suc i) zero p ne = refl
  kept_at-set_other (x ∷ ps) (suc i) (suc j) p ne = kept_at-set_other ps i j p (λ e. ne (ap suc e))

  pub kept_at-get :
      (ps : List (Phase json base58 st sender)) (i : ℕ) (q : Phase json base58 st sender)
      → get_elem? ps i ≡ some q
      → kept_at ps i ≡ kept q
  kept_at-get [] i q h = cc
  kept_at-get (x ∷ ps) zero q h = let e : x ≡ q = cc in ap kept e
  kept_at-get (x ∷ ps) (suc i) q h = kept_at-get ps i q h

  pub kept_at-append :
      (ps : List (Phase json base58 st sender)) (p : Phase json base58 st sender) (i : ℕ)
      (info : PeerInfo)
      → kept_at ps i ≡ some info
      → kept_at (ps ++ p ∷ []) i ≡ some info
  kept_at-append [] p i info h = cc
  kept_at-append (x ∷ ps) p zero info h = h
  kept_at-append (x ∷ ps) p (suc i) info h = kept_at-append ps p i info h
