-- ===== src/Room/Lobby/Listing.antt =====
-- The list of peers of a host holds every peer that a connection serves, while these have identifiers of their own.
use nullpipe.Common.{
  get_elem?, set_elem, ℕ, zero, suc, ◌≡◌, ◌≢◌, refl, sym, ap, ◌∙◌, subst, inl, inr, true, false,
  Bool-cases, Option, none, some, List, [], ◌∷◌, ◌++◌, ◌==◌, arith,
}
use nullpipe.Types.{PeerInfo}
use nullpipe.External.Codecs.{Base58}
use nullpipe.External.Streams.{Stream}
use nullpipe.External.Channels.{Sender}
use nullpipe.PeerMap.{
  Map, lookup, insert, remove, lookup-insert, lookup-remove, same_id, same_id_iff,
}
use nullpipe.Wire.{Json}
use nullpipe.Room.Handshake.{hub_handshake}
use nullpipe.Room.Lobby.{
  Phase, handshaking, admitted, registered, announced, served, removed, closed, Host, advance,
  after_handshake, Move, accept, go, lobby, moved, go_at, move, run, start,
}
use nullpipe.Room.Lobby.Kept.{kept, kept_at-set_same, kept_at-set_other, kept_at-get}
use nullpipe.Room.Lobby.Peers.{after_handshake-kept}
use nullpipe.Room.Lobby.Apart.{Phases, at, are_apart, are_apart-at, stay_apart}

module _ (json : Json) (base58 : Base58) (st : Stream) (sender : Sender) where
  -- What a connection keeps stands in the map.
  abbrev pub AllListed : Map PeerInfo → Phases json base58 st sender → Type 0
  AllListed m ps =
      (i : ℕ) (x : PeerInfo) → at json base58 st sender ps i ≡ some x → lookup x.id m ≡ some x

  -- A connection changes its phase and keeps what it kept, or begins or ends to keep a peer.
  module _ (ps : Phases json base58 st sender) (i : ℕ) (q p : Phase json base58 st sender)
      (here : get_elem? ps i ≡ some q) where
    after_at :
        (j : ℕ)
        → i ≡ j
        → at json base58 st sender (set_elem ps i p) j ≡ kept json base58 st sender p
    after_at j e =
        subst (λ n. at json base58 st sender (set_elem ps i p) n ≡ kept json base58 st sender p) e
          (kept_at-set_same json base58 st sender ps i p q here)

    AllListed-same :
        (m : Map PeerInfo)
        → ((x : PeerInfo)
            → kept json base58 st sender p ≡ some x
            → kept json base58 st sender q ≡ some x)
        → AllListed m ps
        → AllListed m (set_elem ps i p)
    AllListed-same m back l j x e = elim (Bool-cases (i == j)) [
      | inl t ↦
          let now : kept json base58 st sender p ≡ some x = sym (after_at j (ground arith)) ∙ e in
          l i x (kept_at-get json base58 st sender ps i q here ∙ back x now)
      | inr f ↦ l j x (sym (kept_at-set_other json base58 st sender ps i j p (ground arith)) ∙ e)
    ]

    AllListed-insert :
        (m : Map PeerInfo) (new : PeerInfo)
        → kept json base58 st sender p ≡ some new
        → are_apart json base58 st sender (set_elem ps i p) ≡ true
        → AllListed m ps
        → AllListed (insert new.id new m) (set_elem ps i p)
    AllListed-insert m new after apart l j x e = elim (Bool-cases (i == j)) [
      | inl t ↦
          let now : some new ≡ some x = sym after ∙ sym (after_at j (ground arith)) ∙ e in
          let same : new ≡ x = cc in
          let own : same_id new.id x.id ≡ true =
            (same_id_iff new.id x.id).1 (ap (λ y. y.id) same) in
          lookup-insert new.id x.id new m ∙ (rw own now)
      | inr f ↦
          let ne : i ≢ j = ground arith in
          let other : same_id new.id x.id ≡ false =
            are_apart-at json base58 st sender (set_elem ps i p) i j new x apart ne
              (after_at i refl ∙ after) e in
          lookup-insert new.id x.id new m
          ∙ (rw other (l j x (sym (kept_at-set_other json base58 st sender ps i j p ne) ∙ e)))
    ]

    AllListed-remove :
        (m : Map PeerInfo) (gone : PeerInfo)
        → kept json base58 st sender q ≡ some gone
        → kept json base58 st sender p ≡ none
        → are_apart json base58 st sender ps ≡ true
        → AllListed m ps
        → AllListed (remove gone.id m) (set_elem ps i p)
    AllListed-remove m gone before after apart l j x e = elim (Bool-cases (i == j)) [
      | inl t ↦ let now : none ≡ some x = sym after ∙ sym (after_at j (ground arith)) ∙ e in cc
      | inr f ↦
          let ne : i ≢ j = ground arith in
          let old : at json base58 st sender ps j ≡ some x =
            sym (kept_at-set_other json base58 st sender ps i j p ne) ∙ e in
          let was : at json base58 st sender ps i ≡ some gone =
            kept_at-get json base58 st sender ps i q here ∙ before in
          let other : same_id gone.id x.id ≡ false =
            are_apart-at json base58 st sender ps i j gone x apart ne was old in
          lookup-remove gone.id x.id m ∙ (rw other (l j x old))
    ]

  abbrev after_move :
      ℕ → ℕ → Phase json base58 st sender → Host json base58 st sender → Host json base58 st sender
  after_move now i q h =
      moved json base58 st sender i
        (advance json base58 st sender now q (lobby json base58 st sender h)) h

  advance-AllListed :
      (now i : ℕ) (h : Host json base58 st sender) (q : Phase json base58 st sender)
      → get_elem? h.connections i ≡ some q
      → are_apart json base58 st sender h.connections ≡ true
      → are_apart json base58 st sender (after_move now i q h).connections ≡ true
      → AllListed h.peer_map h.connections
      → AllListed (after_move now i q h).peer_map (after_move now i q h).connections
  unfolding advance
  advance-AllListed now i h (handshaking s) here apart apart' l =
      let r = hub_handshake json base58 st (s, h.nonces) in
      let next = after_handshake json base58 st sender now r (lobby json base58 st sender h) in
      let (nothing, nonces, peers) =
        after_handshake-kept json base58 st sender now r (lobby json base58 st sender h) in
      subst (λ m. AllListed m (set_elem h.connections i next.0)) (sym peers)
        (AllListed-same h.connections i (handshaking s) next.0 here h.peer_map (λ x e. cc) l)
  advance-AllListed now i h (admitted s info) here apart apart' l =
      AllListed-insert h.connections i (admitted s info) (registered s info) here h.peer_map info
        refl apart' l
  advance-AllListed now i h (registered s info) here apart apart' l =
      AllListed-same h.connections i (registered s info) (announced s info) here h.peer_map
        (λ x e. e) l
  advance-AllListed now i h (announced s info) here apart apart' l =
      AllListed-same h.connections i (announced s info) _ here h.peer_map (λ x e. e) l
  advance-AllListed now i h (served s info) here apart apart' l =
      AllListed-remove h.connections i (served s info) (removed info) here h.peer_map info refl refl
        apart l
  advance-AllListed now i h (removed info) here apart apart' l =
      AllListed-same h.connections i (removed info) closed here h.peer_map (λ x e. cc) l
  advance-AllListed now i h closed here apart apart' l =
      AllListed-same h.connections i closed closed here h.peer_map (λ x e. e) l

  go_at-AllListed :
      (i now : ℕ) (o : Option (Phase json base58 st sender)) (h : Host json base58 st sender)
      → get_elem? h.connections i ≡ o
      → are_apart json base58 st sender h.connections ≡ true
      → are_apart json base58 st sender (go_at json base58 st sender i now o h).connections ≡ true
      → AllListed h.peer_map h.connections
      → AllListed
          (go_at json base58 st sender i now o h).peer_map
          (go_at json base58 st sender i now o h).connections
  go_at-AllListed i now none h here apart apart' l = l
  go_at-AllListed i now (some q) h here apart apart' l =
      advance-AllListed now i h q here apart apart' l

  kept_at-new :
      (ps : Phases json base58 st sender) (s : st.State) (i : ℕ)
      → at json base58 st sender (ps ++ handshaking s ∷ []) i ≡ at json base58 st sender ps i
  kept_at-new [] s zero = refl
  kept_at-new [] s (suc i) = refl
  kept_at-new (p ∷ ps) s zero = refl
  kept_at-new (p ∷ ps) s (suc i) = kept_at-new ps s i

  move-AllListed :
      (m : Move json base58 st sender) (h : Host json base58 st sender)
      → are_apart json base58 st sender h.connections ≡ true
      → are_apart json base58 st sender (move json base58 st sender m h).connections ≡ true
      → AllListed h.peer_map h.connections
      → AllListed
          (move json base58 st sender m h).peer_map
          (move json base58 st sender m h).connections
  unfolding move
  move-AllListed (accept s) h apart apart' l =
      λ i x e. l i x (sym (kept_at-new h.connections s i) ∙ e)
  move-AllListed (go i now) h apart apart' l =
      go_at-AllListed i now (get_elem? h.connections i) h refl apart apart' l

  stay_apart-now :
      (ms : List (Move json base58 st sender)) (h : Host json base58 st sender)
      → stay_apart json base58 st sender ms h ≡ true
      → are_apart json base58 st sender h.connections ≡ true
  unfolding stay_apart
  stay_apart-now [] h e = e
  stay_apart-now (m ∷ ms) h e = ground arith

  run-AllListed_from :
      (ms : List (Move json base58 st sender)) (h : Host json base58 st sender)
      → stay_apart json base58 st sender ms h ≡ true
      → AllListed h.peer_map h.connections
      → AllListed
          (run json base58 st sender ms h).peer_map
          (run json base58 st sender ms h).connections
  unfolding run stay_apart
  run-AllListed_from [] h e l = l
  run-AllListed_from (m ∷ ms) h e l =
      let next = move json base58 st sender m h in
      let now : are_apart json base58 st sender h.connections ≡ true = ground arith in
      let rest : stay_apart json base58 st sender ms next ≡ true = ground arith in
      run-AllListed_from ms next rest (move-AllListed m h now (stay_apart-now ms next rest) l)

  -- However the connections of a host interleave and whatever the peers send, as long as no two connections keep
  -- peers of one identifier at the same time, every peer that a connection serves is in the list.
  pub run-AllListed :
      (ms : List (Move json base58 st sender)) (c : sender.Channel)
      → stay_apart json base58 st sender ms (start json base58 st sender c) ≡ true
      → AllListed
          (run json base58 st sender ms (start json base58 st sender c)).peer_map
          (run json base58 st sender ms (start json base58 st sender c)).connections
  unfolding start
  run-AllListed ms c e = run-AllListed_from ms (start json base58 st sender c) e (λ i x h. cc)
