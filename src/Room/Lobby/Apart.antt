-- ===== src/Room/Lobby/Apart.antt =====
-- Connections of a host that keep peers of different identifiers, at one time and along a run.
use nullpipe.Common.{
  get_elem?, set_elem, ℕ, zero, suc, ◌≡◌, ◌≢◌, refl, ap, subst, Bool, true, false, not, ◌&&◌,
  Option, none, some, List, [], ◌∷◌, arith, map, sym, ◌∙◌,
}
use nullpipe.Types.{PeerId, PeerInfo}
use nullpipe.External.Codecs.{Base58}
use nullpipe.External.Streams.{Stream}
use nullpipe.External.Channels.{Sender}
use nullpipe.PeerMap.{same_id, same_id_iff}
use nullpipe.Wire.{Json}
use nullpipe.Room.Lobby.{
  Phase, handshaking, Host, advance, Move, accept, go, lobby, go_at, move, start,
}
use nullpipe.Room.Lobby.Kept.{kept, kept_at}

abbrev differ : Option PeerInfo → Option PeerInfo → Bool
differ none b = true
differ (some x) none = true
differ (some x) (some y) = not (same_id x.id y.id)

not-true : (b : Bool) → not b ≡ true → b ≡ false
not-true true h = cc
not-true false h = refl

same_id-sym : (a b : PeerId) → same_id a b ≡ false → same_id b a ≡ false
same_id-sym a b h = ground (arith, same_id_iff a b, same_id_iff b a)

both_true : {a b : Bool} → a ≡ true → b ≡ true → a && b ≡ true
both_true h k = ground arith

module _ (json : Json) (base58 : Base58) (st : Stream) (sender : Sender) where
  abbrev pub Phases : Type 0
  Phases = List (Phase json base58 st sender)

  abbrev pub at : Phases → ℕ → Option PeerInfo
  at = kept_at json base58 st sender

  abbrev differs_from : Option PeerInfo → Phases → Bool
  differs_from o [] = true
  differs_from o (p ∷ ps) = differ o (kept json base58 st sender p) && differs_from o ps

  -- No two connections keep peers of one identifier.
  abbrev pub are_apart : Phases → Bool
  are_apart [] = true
  are_apart (p ∷ ps) = differs_from (kept json base58 st sender p) ps && are_apart ps

  differs_from-at :
      (x y : PeerInfo) (ps : Phases) (j : ℕ)
      → differs_from (some x) ps ≡ true
      → at ps j ≡ some y
      → same_id x.id y.id ≡ false
  differs_from-at x y [] j d h = cc
  differs_from-at x y (p ∷ ps) zero d h =
      let first : differ (some x) (kept json base58 st sender p) ≡ true = ground arith in
      not-true (same_id x.id y.id) (subst (λ o. differ (some x) o ≡ true) h first)
  differs_from-at x y (p ∷ ps) (suc j) d h = differs_from-at x y ps j (ground arith) h

  pub are_apart-at :
      (ps : Phases) (i j : ℕ) (x y : PeerInfo)
      → are_apart ps ≡ true
      → i ≢ j
      → at ps i ≡ some x
      → at ps j ≡ some y
      → same_id x.id y.id ≡ false
  are_apart-at [] i j x y d ne h k = cc
  are_apart-at (p ∷ ps) zero zero x y d ne h k = absurd (ne refl)
  are_apart-at (p ∷ ps) zero (suc j) x y d ne h k =
      let first : differs_from (kept json base58 st sender p) ps ≡ true = ground arith in
      differs_from-at x y ps j (subst (λ o. differs_from o ps ≡ true) h first) k
  are_apart-at (p ∷ ps) (suc i) zero x y d ne h k =
      let first : differs_from (kept json base58 st sender p) ps ≡ true = ground arith in
      same_id-sym y.id x.id
        (differs_from-at y x ps i (subst (λ o. differs_from o ps ≡ true) k first) h)
  are_apart-at (p ∷ ps) (suc i) (suc j) x y d ne h k =
      are_apart-at ps i j x y (ground arith) (λ e. ne (ap suc e)) h k

  -- At no time of the run do two connections keep peers of one identifier.
  unfoldable pub stay_apart : List (Move json base58 st sender) → Host json base58 st sender → Bool
  unfolding move
  stay_apart [] h = are_apart h.connections
  stay_apart (m ∷ ms) h = are_apart h.connections && stay_apart ms (move json base58 st sender m h)

  differs_from-waiting :
      (o : Option PeerInfo) (ss : List st.State) → differs_from o (map handshaking ss) ≡ true
  differs_from-waiting o [] = refl
  differs_from-waiting none (s ∷ ss) = differs_from-waiting none ss
  differs_from-waiting (some x) (s ∷ ss) = differs_from-waiting (some x) ss

  are_apart-waiting :
      (p : Phase json base58 st sender) (ss : List st.State)
      → are_apart (p ∷ map handshaking ss) ≡ true
  are_apart-waiting p [] = refl
  are_apart-waiting p (s ∷ ss) =
      let first = differs_from-waiting (kept json base58 st sender p) (s ∷ ss) in
      let rest = are_apart-waiting (handshaking s) ss in ground arith

  -- While only the first connection goes on, the connections stay apart.
  first_only :
      (times : List ℕ) (p : Phase json base58 st sender) (ss : List st.State)
      (h : Host json base58 st sender)
      → h.connections ≡ p ∷ map handshaking ss
      → stay_apart (map (go 0) times) h ≡ true
  unfolding stay_apart move
  first_only [] p ss h e = ap (are_apart) e ∙ are_apart-waiting p ss
  first_only (t ∷ times) p ss h e =
      let now = ap (are_apart) e ∙ are_apart-waiting p ss in
      let next = (advance json base58 st sender t p (lobby json base58 st sender h)).0 in
      let first : get_elem? h.connections 0 ≡ some p = ap (λ l. get_elem? l 0) e in
      let rest =
        first_only times next ss (go_at json base58 st sender 0 t (some p) h)
          (ap (λ l. set_elem l 0 next) e) in
      let rest' =
        subst (λ o. stay_apart (map (go 0) times) (go_at json base58 st sender 0 t o h) ≡ true)
          (sym first) rest in
      both_true now rest'

  pub first_served :
      (s s' : st.State) (times : List ℕ) (c : sender.Channel)
      → stay_apart (accept s ∷ accept s' ∷ map (go 0) times) (start json base58 st sender c) ≡ true
  unfolding stay_apart move start
  first_served s s' times c = first_only times (handshaking s) (s' ∷ []) _ refl
