-- ===== src/Hub/Connections/Delivering.antt =====
-- What the writer of a connection brings to its peer while nothing else moves.
use nullpipe.Common.{
  ℕ, suc, ◌+◌, ◌-◌, ◌≤◌, ◌<◌, ◌≡◌, refl, sym, ap, ◌∙◌, subst, inl, inr, false, Bool-cases, none,
  List, [], ◌∷◌, ◌++◌, append_assoc, append-nil, length, drop, drop-next, drop-end, ltb, arith,
}
use nullpipe.Std.Utf8.{Bytes}
use nullpipe.Std.Text.{Text}
use nullpipe.Types.{ChatEvent, PeerId}
use nullpipe.External.Codecs.{Base58, Hex}
use nullpipe.External.Streams.{Stream, StreamLaws}
use nullpipe.Wire.{Json}
use nullpipe.Hub.{Hub}
use nullpipe.Hub.Tasks.{event_message, encoded}
use nullpipe.Hub.Connections.{broadcast_capacity, frames_of, next_turn, own_turn, event_turn}
use nullpipe.Hub.Connections.Keeping.{Conn}
use nullpipe.Hub.Connections.Writing.{
  flat, bytes_of, event_bytes, Writing, rounds, own_round, event_round, lagged_round,
}

module _ (json : Json) (base58 : Base58) (hex : Hex) (st : Stream) (laws : StreamLaws st) (i : ℕ)
    (id : PeerId) (name : Text) (hub : Hub) where
  appended :
      (c : Conn json base58 hex st) {coming : Bytes} (done front rest : Bytes)
      → Writing json base58 hex st laws id name c coming ((done ++ front) ++ rest)
      → Writing json base58 hex st laws id name c coming (done ++ (front ++ rest))
  appended c {coming} done front rest h =
      subst (Writing json base58 hex st laws id name c coming) (append_assoc done front rest) h

  nothing_new :
      (c : Conn json base58 hex st) {coming : Bytes} (done : Bytes)
      → Writing json base58 hex st laws id name c coming done
      → Writing json base58 hex st laws id name c coming (done ++ [])
  nothing_new c {coming} done h =
      subst (Writing json base58 hex st laws id name c coming) (sym (append-nil done)) h

  pub own_rounds :
      (frames : List Bytes) (c : Conn json base58 hex st) (coming done : Bytes)
      → drop c.own_taken (frames_of i hub.sends) ≡ frames
      → Writing json base58 hex st laws id name c coming done
      → (c' : Conn json base58 hex st) × (rounds json base58 hex st laws id name i hub
            (length frames)
            c
          ≡ c')
        × (drop c'.own_taken (frames_of i hub.sends) ≡ [])
        × (c'.events_taken ≡ c.events_taken)
        × Writing json base58 hex st laws id name c' coming (done ++ flat frames)
  own_rounds [] c coming done left h = (c, refl, left, refl, nothing_new c done h)
  own_rounds (frame ∷ frames) c coming done left h =
      let (s, round, at) = own_round json base58 hex st laws id name i hub c frame frames left h in
      let c₁ : Conn json base58 hex st = record c { stream = s; own_taken = suc c.own_taken } in
      let (c', runs, none_left, events, h') =
        own_rounds frames c₁ coming (done ++ frame)
          (drop-next c.own_taken (frames_of i hub.sends) left).1
          (record { phase_lem = h.phase_lem; at = at }) in
      (
        c',
        ap (rounds json base58 hex st laws id name i hub (length frames)) round ∙ runs,
        none_left,
        events,
        appended c' done frame (flat frames) h',
      )

  event_rounds :
      (es : List ChatEvent) (c : Conn json base58 hex st) (coming done : Bytes)
      → drop c.own_taken (frames_of i hub.sends) ≡ []
      → drop c.events_taken hub.events ≡ es
      → length hub.events ≤ c.events_taken + broadcast_capacity
      → Writing json base58 hex st laws id name c coming done
      → (c' : Conn json base58 hex st) × (rounds json base58 hex st laws id name i hub (length es) c
          ≡ c')
        × (next_turn json base58 hex st i c' hub ≡ none)
        × Writing json base58 hex st laws id name c' coming
            (done ++ event_bytes json base58 hex st laws es)
  unfolding next_turn
  event_rounds [] c coming done own left near h =
      let near_lem : ltb (c.events_taken + broadcast_capacity) (length hub.events) ≡ false =
        ground arith in
      (
        c,
        refl,
        ap (λ o. own_turn json base58 hex st o c hub)
              (drop-end c.own_taken (frames_of i hub.sends) own)
            ∙ rw near_lem
                (ap (event_turn json base58 hex st) (drop-end c.events_taken hub.events left)),
        nothing_new c done h,
      )
  event_rounds (e ∷ es) c coming done own left near h =
      let (s, round, at) =
        event_round json base58 hex st laws id name i hub c e es own left near h in
      let c₁ : Conn json base58 hex st = record c {
        stream = s;
        events_taken = suc c.events_taken;
      } in
      let (c', runs, waits, h') =
        event_rounds es c₁ coming (done ++ bytes_of (encoded json st (event_message json st e))) own
          (drop-next c.events_taken hub.events left).1 (omega arith)
          (record { phase_lem = h.phase_lem; at = at }) in
      (
        c',
        ap (rounds json base58 hex st laws id name i hub (length es)) round ∙ runs,
        waits,
        appended c' done (bytes_of (encoded json st (event_message json st e)))
            (event_bytes json base58 hex st laws es) h',
      )

  -- The number of the oldest event that the channel still keeps for this connection.
  abbrev pub oldest : Conn json base58 hex st → ℕ
  oldest c = c.events_taken + (length hub.events - broadcast_capacity - c.events_taken)

  -- The writer catches up with the events, over a gap if there is one.
  pub catching_up :
      (c : Conn json base58 hex st) (coming done : Bytes)
      → drop c.own_taken (frames_of i hub.sends) ≡ []
      → Writing json base58 hex st laws id name c coming done
      → (n : ℕ) × (c' : Conn json base58 hex st) × (n ≤ suc (length (drop (oldest c) hub.events)))
        × (rounds json base58 hex st laws id name i hub n c ≡ c')
        × (next_turn json base58 hex st i c' hub ≡ none)
        × Writing json base58 hex st laws id name c' coming
            (done ++ event_bytes json base58 hex st laws (drop (oldest c) hub.events))
  catching_up c coming done own h =
      elim (Bool-cases (ltb (c.events_taken + broadcast_capacity) (length hub.events))) [
        | inl far ↦
            let c₁ : Conn json base58 hex st = record c { events_taken = oldest c } in
            let far_lem : c.events_taken + broadcast_capacity < length hub.events = ground arith in
            let (c', runs, waits, h') =
              event_rounds (drop (oldest c) hub.events) c₁ coming done own refl (omega arith)
                (record { phase_lem = h.phase_lem; at = h.at }) in
            (
              suc (length (drop (oldest c) hub.events)),
              c',
              omega arith,
              ap
                    (rounds json base58 hex st laws id name i hub
                      (length (drop (oldest c) hub.events)))
                    (lagged_round json base58 hex st laws id name i hub c own far_lem h.phase_lem)
                  ∙ runs,
              waits,
              h',
            )
        | inr near ↦
            let near_lem : length hub.events ≤ c.events_taken + broadcast_capacity = ground arith in
            let same_lem : c.events_taken ≡ oldest c = omega arith in
            let (c', runs, waits, h') =
              event_rounds (drop (oldest c) hub.events) c coming done own
                (ap (λ k. drop k hub.events) same_lem) near_lem h in
            (length (drop (oldest c) hub.events), c', omega arith, runs, waits, h')
      ]
