-- ===== src/Hub/Connections/Staying.antt =====
-- While no write takes too long, no step of a connection ends its writer or takes its peer from the registry.
use nullpipe.Common.{
  ℕ, zero, suc, ◌≡◌, refl, sym, ap, ◌∙◌, subst, inl, inr, Bool, true, false, Bool-cases, Option,
  none, some, List, [], ◌∷◌, ◌++◌, Result, ok, err, get_elem?, set_elem, if_both, if◌then◌else◌,
  get_elem?-set_same, get_elem?-set_other, length, ltb, ◌==◌, arith,
}
use nullpipe.Std.Utf8.{Bytes}
use nullpipe.Std.Text.{Text}
use nullpipe.Types.{ChatError, ChatEvent, PeerId, IoError}
use nullpipe.External.Codecs.{Base58, Hex}
use nullpipe.External.Streams.{Stream}
use nullpipe.Nonces.{Nonces}
use nullpipe.PeerMap.{lookup, lookup-insert, same_id}
use nullpipe.Wire.{Json, WireMessage, read_frame}
use nullpipe.Hub.{Hub}
use nullpipe.Hub.Registry.{register, PeerEntry, PeerRegistry}
use nullpipe.Hub.Handshake.{handshake}
use nullpipe.Hub.Tasks.{
  Turn, own_frame, broadcasted, lagged, in_time, put, encoded, event_message, writer_round,
  received,
}
use nullpipe.Hub.Connections.{
  Phase, handshaking, refused, admitted, registered, announced, serving, written_out, removed,
  notified, gone, Serving, after_handshake, step, read_round, after_read, write_turn, after_round,
  advance_cursor, next_turn, own_turn, event_turn, frames_of, write_round, queue_capacity,
}
use nullpipe.Hub.Connections.Moves.{moved, fresh}
use nullpipe.Hub.Connections.Keeping.{Conn}
use nullpipe.Hub.Connections.Changes.{advance_cursor-phase}

-- The writer of a connection has not ended.
abbrev pub IsAlive : Phase → Type 0
IsAlive handshaking = Unit
IsAlive (refused e) = Unit
IsAlive (admitted id name) = Unit
IsAlive (registered id name) = Unit
IsAlive (announced id name) = Unit
IsAlive (serving id name) = Unit
IsAlive (written_out id name) = ⊥
IsAlive (removed id name) = ⊥
IsAlive (notified id name) = ⊥
IsAlive (gone id name) = ⊥

abbrev pub IsRegistered : PeerId → PeerRegistry → Type 0
IsRegistered id reg = (e : PeerEntry) × (lookup id reg ≡ some e)

module _ (json : Json) (base58 : Base58) (hex : Hex) (st : Stream)
    (never_late : (bs : Bytes) (s : st.State)
      → (r : Result (Unit {0}) IoError) × ((st.write_all bs s).0 ≡ ok r)) where
  abbrev pub AllAlive : List (Conn json base58 hex st) → Type 0
  AllAlive conns =
      (i : ℕ) (c : Conn json base58 hex st) → get_elem? conns i ≡ some c → IsAlive c.phase

  -- All writers of the second are at work, and whoever was registered in the first is so in the second.
  pub record Stays (sv sv' : Serving json base58 hex st) : Type 0 where
    pub alive : AllAlive sv'.connections
    pub registered_lem :
        (id : PeerId) → IsRegistered id sv.hub.peer_registry → IsRegistered id sv'.hub.peer_registry

  AllAlive-set :
      (conns : List (Conn json base58 hex st)) (i : ℕ) (c c' : Conn json base58 hex st)
      → get_elem? conns i ≡ some c
      → IsAlive c'.phase
      → AllAlive conns
      → AllAlive (set_elem conns i c')
  AllAlive-set conns i c c' here alive h j x e = elim (Bool-cases (i == j)) [
    | inl t ↦
        let same : i ≡ j = ground arith in
        let got : some c' ≡ some x =
          sym (get_elem?-set_same conns i c' here)
          ∙ ap (get_elem? (set_elem conns i c')) same
          ∙ e in
        let c_lem : c' ≡ x = cc in subst (λ y. IsAlive y.phase) c_lem alive
    | inr f ↦ h j x (sym (get_elem?-set_other conns i j c' (ground arith)) ∙ e)
  ]

  pub AllAlive-append :
      (conns : List (Conn json base58 hex st)) (s : st.State)
      → AllAlive conns
      → AllAlive (conns ++ fresh json base58 hex st s ∷ [])
  AllAlive-append [] s h zero c e =
      let same : fresh json base58 hex st s ≡ c = cc in subst (λ y. IsAlive y.phase) same tt
  AllAlive-append [] s h (suc i) c e = cc
  AllAlive-append (x ∷ conns) s h zero c e = h zero c e
  AllAlive-append (x ∷ conns) s h (suc i) c e =
      AllAlive-append conns s (λ j y q. h (suc j) y q) i c e

  put_goes : (o : Option Bytes) (s : st.State) → (put json st o s).0 ≡ true
  put_goes none s = refl
  put_goes (some frame) s = let (r, e) = never_late frame s in ap (in_time json st) e

  module _ (sv : Serving json base58 hex st) (i : ℕ) (c : Conn json base58 hex st)
      (here : get_elem? sv.connections i ≡ some c) (h : AllAlive sv.connections) where
    kept :
        (c' : Conn json base58 hex st) (hub : Hub)
        → IsAlive c'.phase
        → hub.peer_registry ≡ sv.hub.peer_registry
        → Stays sv (moved json base58 hex st i (c', hub) sv)
    kept c' hub alive reg = record {
      alive = AllAlive-set sv.connections i c c' here alive h;
      registered_lem = λ id r. subst (IsRegistered id) (sym reg) r;
    }

    same_again : Stays sv (moved json base58 hex st i (c, sv.hub) sv)
    same_again = kept c sv.hub (h i c here) refl

    handshaken :
        (o : Option (Result (PeerId × Text) ChatError × (st.State × Nonces)))
        → Stays sv (moved json base58 hex st i (after_handshake json base58 hex st c sv.hub o) sv)
    handshaken none = same_again
    handshaken (some (err e, (s, ns))) = kept _ _ tt refl
    handshaken (some (ok (id, name), (s, ns))) = kept _ _ tt refl

    entered :
        (now : ℕ) (id : PeerId) (name : Text)
        → Stays sv (
            moved json base58 hex st i
              (step json base58 hex st i now (admitted id name) c sv.hub)
              sv)
    unfolding step register
    entered now id name = record {
      alive = AllAlive-set sv.connections i c (record c { phase = registered id name }) here tt h;
      registered_lem = λ k r. elim (Bool-cases (same_id id k)) [
        | inl t ↦ (
          record { name = name; joined_at = now; tx = i },
          lookup-insert id k _ sv.hub.peer_registry ∙ (rw t refl),
        )
        | inr ne ↦ (r.0, lookup-insert id k _ sv.hub.peer_registry ∙ (rw ne r.1))
      ];
    }

    pub step-Stays :
        (now : ℕ) (p : Phase)
        → c.phase ≡ p
        → Stays sv (moved json base58 hex st i (step json base58 hex st i now p c sv.hub) sv)
    unfolding step
    step-Stays now handshaking e =
        handshaken (handshake base58 hex st (c.stream, sv.hub.used_nonces))
    step-Stays now (refused x) e = same_again
    step-Stays now (admitted id name) e = entered now id name
    step-Stays now (registered id name) e = kept _ _ tt refl
    step-Stays now (announced id name) e = kept _ _ tt refl
    step-Stays now (serving id name) e = same_again
    step-Stays now (written_out id name) e = elim (subst IsAlive e (h i c here)) [ ]
    step-Stays now (removed id name) e = elim (subst IsAlive e (h i c here)) [ ]
    step-Stays now (notified id name) e = elim (subst IsAlive e (h i c here)) [ ]
    step-Stays now (gone id name) e = elim (subst IsAlive e (h i c here)) [ ]

    after_read-Stays :
        (who : PeerId × Text) (s : st.State) (o : Option WireMessage)
        → Stays sv
            (moved json base58 hex st i (after_read json base58 hex st i who c sv.hub s o) sv)
    after_read-Stays (id, name) s none = kept _ _ (h i c here) refl
    after_read-Stays (id, name) s (some m) = kept _ _ (h i c here) refl

    pub read_round-Stays :
        (o : Option (PeerId × Text))
        → Stays sv (moved json base58 hex st i (read_round json base58 hex st i o c sv.hub) sv)
    unfolding read_round
    read_round-Stays none = same_again
    read_round-Stays (some who) =
        let P = λ (r : Conn json base58 hex st × Hub). Stays sv (moved json base58 hex st i r sv) in
        if_both P c.reading
          (if_both P (ltb (length sv.hub.queue) queue_capacity)
            (after_read-Stays who (read_frame st c.stream).1
              (received json st (read_frame st c.stream).0))
            same_again)
          same_again

    after_round-Stays :
        (who : PeerId × Text) (r : Bool × st.State) (c₁ : Conn json base58 hex st)
        → c₁.phase ≡ c.phase
        → r.0 ≡ true
        → Stays sv (moved json base58 hex st i (after_round json base58 hex st who r c₁, sv.hub) sv)
    after_round-Stays who (true, s) c₁ e goes =
        kept (record c₁ { stream = s }) sv.hub (subst IsAlive (sym e) (h i c here)) refl
    after_round-Stays (id, name) (false, s) c₁ e goes = cc

    turn-Stays :
        (who : PeerId × Text) (t : Turn json st)
        → (writer_round json st t c.stream).0 ≡ true
        → Stays sv
            (moved json base58 hex st i (write_turn json base58 hex st who (some t) c, sv.hub) sv)
    turn-Stays who t goes =
        after_round-Stays who (writer_round json st t c.stream)
          (advance_cursor json base58 hex st t c) (advance_cursor-phase json base58 hex st c t) goes

    event_turn-Stays :
        (who : PeerId × Text) (behind : Bool) (n : ℕ) (o : Option ChatEvent)
        → Stays sv (
            moved json base58 hex st i
              (
                write_turn json base58 hex st who
                    (if behind then some (lagged n) else event_turn json base58 hex st o)
                    c,
                sv.hub,
              )
              sv)
    unfolding writer_round
    event_turn-Stays who true n o = turn-Stays who (lagged n) refl
    event_turn-Stays who false n none = same_again
    event_turn-Stays who false n (some e) =
        turn-Stays who (broadcasted e)
          (put_goes (encoded json st (event_message json st e)) c.stream)

    own_turn-Stays :
        (who : PeerId × Text) (o : Option Bytes)
        → Stays sv (
            moved json base58 hex st i
              (write_turn json base58 hex st who (own_turn json base58 hex st o c sv.hub) c, sv.hub)
              sv)
    unfolding writer_round
    own_turn-Stays who (some frame) =
        turn-Stays who (own_frame frame) (put_goes (some frame) c.stream)
    own_turn-Stays who none = event_turn-Stays who _ _ (get_elem? sv.hub.events c.events_taken)

    pub write_round-Stays :
        (p : Phase)
        → Stays sv
            (moved json base58 hex st i (write_round json base58 hex st i p c sv.hub, sv.hub) sv)
    unfolding write_round next_turn
    write_round-Stays (serving id name) =
        own_turn-Stays (id, name) (get_elem? (frames_of i sv.hub.sends) c.own_taken)
    write_round-Stays handshaking = same_again
    write_round-Stays (refused e) = same_again
    write_round-Stays (admitted id name) = same_again
    write_round-Stays (registered id name) = same_again
    write_round-Stays (announced id name) = same_again
    write_round-Stays (written_out id name) = same_again
    write_round-Stays (removed id name) = same_again
    write_round-Stays (notified id name) = same_again
    write_round-Stays (gone id name) = same_again
