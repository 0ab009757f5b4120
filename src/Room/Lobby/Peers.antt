-- ===== src/Room/Lobby/Peers.antt =====
-- The nonces and the list of peers of a host, over all interleavings of its connections.
use nullpipe.Common.{
  get_elem?, set_elem, ℕ, ◌≡◌, refl, sym, ap, ◌∙◌, subst, inl, inr, true, Bool-cases, Option, none,
  some, List, [], ◌∷◌, Result, ok, err, ◌==◌, arith,
}
use nullpipe.Std.Text.{Text}
use nullpipe.Types.{ChatError, PeerId, PeerInfo}
use nullpipe.External.Codecs.{Base58}
use nullpipe.External.Streams.{Stream}
use nullpipe.External.Channels.{Sender}
use nullpipe.Nonces.{Nonces, IsDistinct}
use nullpipe.PeerMap.{
  Map, lookup, insert, remove, lookup-insert, lookup-remove, IsUnique, insert-IsUnique,
  remove-IsUnique, same_id, same_id_iff,
}
use nullpipe.Wire.{Json}
use nullpipe.Room.Handshake.{hub_handshake}
use nullpipe.Room.Handshake.Claims.{IsDistinct-Claims, hub_handshake-Claims}
use nullpipe.Room.Lobby.{
  Phase, handshaking, admitted, registered, announced, served, removed, closed, Host, Lobby,
  advance, after_handshake, Move, accept, go, lobby, moved, go_at, move, run, start,
}
use nullpipe.Room.Lobby.Kept.{
  kept, kept_at, kept_at-set_same, kept_at-set_other, kept_at-get, kept_at-append,
}

module _ (json : Json) (base58 : Base58) (st : Stream) (sender : Sender) where
  -- Every peer in the map is there under its own identifier, and some connection of it is being served.
  abbrev pub AllServed : Map PeerInfo → List (Phase json base58 st sender) → Type 0
  AllServed m ps =
      (k : PeerId) (info : PeerInfo)
      → lookup k m ≡ some info
      → (info.id ≡ k) × ((i : ℕ) × (kept_at json base58 st sender ps i ≡ some info))

  -- A connection changes its phase and keeps what it kept, or begins or ends to keep a peer.
  module _ (ps : List (Phase json base58 st sender)) (i : ℕ) (q : Phase json base58 st sender)
      (at : get_elem? ps i ≡ some q) where
    found :
        (p : Phase json base58 st sender) (j : ℕ) (info : PeerInfo)
        → (kept json base58 st sender q ≡ some info → kept json base58 st sender p ≡ some info)
        → kept_at json base58 st sender ps j ≡ some info
        → kept_at json base58 st sender (set_elem ps i p) j ≡ some info
    found p j info still h = elim (Bool-cases (i == j)) [
      | inl e ↦
          let same : i ≡ j = ground arith in
          let here : kept json base58 st sender q ≡ some info =
            sym (kept_at-get json base58 st sender ps i q at)
            ∙ ap (kept_at json base58 st sender ps) same
            ∙ h in
          subst (λ n. kept_at json base58 st sender (set_elem ps i p) n ≡ some info) same
            (kept_at-set_same json base58 st sender ps i p q at ∙ still here)
      | inr ne ↦ kept_at-set_other json base58 st sender ps i j p (ground arith) ∙ h
    ]

    AllServed-same :
        (p : Phase json base58 st sender) (m : Map PeerInfo)
        → ((info : PeerInfo)
            → kept json base58 st sender q ≡ some info
            → kept json base58 st sender p ≡ some info)
        → AllServed m ps
        → AllServed m (set_elem ps i p)
    AllServed-same p m still h k info listed =
        let (named, (j, there)) = h k info listed in (named, (j, found p j info (still info) there))

    AllServed-insert :
        (p : Phase json base58 st sender) (m : Map PeerInfo) (new : PeerInfo)
        → kept json base58 st sender q ≡ none
        → kept json base58 st sender p ≡ some new
        → AllServed m ps
        → AllServed (insert new.id new m) (set_elem ps i p)
    AllServed-insert p m new before after h k info listed = elim (Bool-cases (same_id new.id k)) [
      | inl e ↦
          let got : some new ≡ some info =
            sym (lookup-insert new.id k new m ∙ (rw e refl)) ∙ listed in
          let same : new ≡ info = cc in
          (
            ap (λ x. x.id) (sym same) ∙ (same_id_iff new.id k).0 e,
            (i, kept_at-set_same json base58 st sender ps i p q at ∙ after ∙ got),
          )
      | inr ne ↦
          let old : lookup k m ≡ some info =
            sym (lookup-insert new.id k new m ∙ (rw ne refl)) ∙ listed in
          let (named, (j, there)) = h k info old in (named, (j, found p j info (λ e. cc) there))
    ]

    AllServed-remove :
        (p : Phase json base58 st sender) (m : Map PeerInfo) (gone : PeerInfo)
        → kept json base58 st sender q ≡ some gone
        → AllServed m ps
        → AllServed (remove gone.id m) (set_elem ps i p)
    AllServed-remove p m gone before h k info listed = elim (Bool-cases (same_id gone.id k)) [
      | inl e ↦
          let got : none ≡ some info = sym (lookup-remove gone.id k m ∙ (rw e refl)) ∙ listed in cc
      | inr ne ↦
          let old : lookup k m ≡ some info =
            sym (lookup-remove gone.id k m ∙ (rw ne refl)) ∙ listed in
          let (named, (j, there)) = h k info old in
          let clash : kept json base58 st sender q ≡ some info
              → kept json base58 st sender p ≡ some info =
            λ e.
              let same : gone ≡ info = cc in
              let t : same_id gone.id k ≡ true =
                (same_id_iff gone.id k).1 (ap (λ x. x.id) same ∙ named) in
              cc in
          (named, (j, found p j info clash there))
    ]

  -- What holds of a host at any time: no nonce and no identifier twice, and every listed peer served.
  abbrev pub IsSound : Host json base58 st sender → Type 0
  IsSound h = IsDistinct h.nonces × IsUnique h.peer_map × AllServed h.peer_map h.connections

  pub after_handshake-kept :
      (now : ℕ) (r : Result (PeerId × Text) ChatError × (st.State × Nonces))
      (l : Lobby json base58 st sender)
      → let (p, l') = after_handshake json base58 st sender now r l in
        (kept json base58 st sender p ≡ none) × (l'.nonces ≡ r.1.1) × (l'.peer_map ≡ l.peer_map)
  after_handshake-kept now (err e, (s, ns)) l = (refl, refl, refl)
  after_handshake-kept now (ok (peer_id, name), (s, ns)) l = (refl, refl, refl)

  advance-IsSound :
      (now i : ℕ) (h : Host json base58 st sender) (q : Phase json base58 st sender)
      → get_elem? h.connections i ≡ some q
      → IsSound h
      → IsSound (
          moved json base58 st sender i
            (advance json base58 st sender now q (lobby json base58 st sender h))
            h)
  unfolding advance
  advance-IsSound now i h (handshaking s) at (d, u, a) =
      let l = lobby json base58 st sender h in
      let r = hub_handshake json base58 st (s, h.nonces) in
      let (nothing, nonces, peers) = after_handshake-kept now r l in
      let p = (after_handshake json base58 st sender now r l).0 in
      (
        subst IsDistinct (sym nonces) (
            IsDistinct-Claims h.nonces r.1.1 (hub_handshake-Claims json base58 st (s, h.nonces)) d),
        subst IsUnique (sym peers) u,
        subst (λ m. AllServed m (set_elem h.connections i p)) (sym peers)
            (AllServed-same h.connections i (handshaking s) at p h.peer_map (λ info e. cc) a),
      )
  advance-IsSound now i h (admitted s info) at (d, u, a) = (
    d,
    insert-IsUnique info.id info h.peer_map u,
    AllServed-insert h.connections i (admitted s info) at (registered s info) h.peer_map info refl
        refl a,
  )
  advance-IsSound now i h (registered s info) at (d, u, a) = (
    d,
    u,
    AllServed-same h.connections i (registered s info) at (announced s info) h.peer_map (λ x e. e)
        a,
  )
  advance-IsSound now i h (announced s info) at (d, u, a) =
      (d, u, AllServed-same h.connections i (announced s info) at _ h.peer_map (λ x e. e) a)
  advance-IsSound now i h (served s info) at (d, u, a) = (
    d,
    remove-IsUnique info.id h.peer_map u,
    AllServed-remove h.connections i (served s info) at (removed info) h.peer_map info refl a,
  )
  advance-IsSound now i h (removed info) at (d, u, a) =
      (d, u, AllServed-same h.connections i (removed info) at closed h.peer_map (λ x e. cc) a)
  advance-IsSound now i h closed at (d, u, a) =
      (d, u, AllServed-same h.connections i closed at closed h.peer_map (λ x e. e) a)

  go_at-IsSound :
      (i now : ℕ) (o : Option (Phase json base58 st sender)) (h : Host json base58 st sender)
      → get_elem? h.connections i ≡ o
      → IsSound h
      → IsSound (go_at json base58 st sender i now o h)
  go_at-IsSound i now none h at good = good
  go_at-IsSound i now (some q) h at good = advance-IsSound now i h q at good

  move-IsSound :
      (m : Move json base58 st sender) (h : Host json base58 st sender)
      → IsSound h
      → IsSound (move json base58 st sender m h)
  unfolding move
  move-IsSound (accept s) h (d, u, a) = (
    d,
    u,
    λ k info listed.
        let (named, (j, there)) = a k info listed in
        (
          named,
          (j, kept_at-append json base58 st sender h.connections (handshaking s) j info there),
        ),
  )
  move-IsSound (go i now) h good = go_at-IsSound i now (get_elem? h.connections i) h refl good

  run-IsSound_from :
      (ms : List (Move json base58 st sender)) (h : Host json base58 st sender)
      → IsSound h
      → IsSound (run json base58 st sender ms h)
  unfolding run
  run-IsSound_from [] h good = good
  run-IsSound_from (m ∷ ms) h good =
      run-IsSound_from ms (move json base58 st sender m h) (move-IsSound m h good)

  -- However the connections of a host interleave and whatever the peers send: no nonce is used twice, no identifier is
  -- listed twice, and every listed peer is listed under its own identifier and has a connection that is
  -- still being served.
  pub run-IsSound :
      (ms : List (Move json base58 st sender)) (c : sender.Channel)
      → IsSound (run json base58 st sender ms (start json base58 st sender c))
  unfolding start lookup
  run-IsSound ms c =
      run-IsSound_from ms (start json base58 st sender c) (tt, tt, λ k info listed. cc)
