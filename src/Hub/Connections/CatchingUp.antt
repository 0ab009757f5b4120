-- ===== src/Hub/Connections/CatchingUp.antt =====
-- A connection's writer among the moves of the hub.
use nullpipe.Common.{
  ℕ, zero, suc, ◌+◌, ◌-◌, ◌≤◌, ◌≡◌, refl, sym, ap, ◌∙◌, subst, none, some, List, [], ◌∷◌, ◌++◌,
  length, drop, get_elem?, get_elem?-set_same, set_elem-same, set_elem-twice, arith,
}
use nullpipe.Std.Utf8.{Bytes}
use nullpipe.Std.Text.{Text}
use nullpipe.Types.{ChatEvent, PeerId}
use nullpipe.External.Codecs.{Base58, Hex}
use nullpipe.External.Streams.{Stream, StreamLaws}
use nullpipe.Wire.{Json}
use nullpipe.Hub.Connections.{Serving, broadcast_capacity, frames_of, next_turn, write_round}
use nullpipe.Hub.Connections.Moves.{moved, Move, write, moves, move}
use nullpipe.Hub.Connections.Keeping.{Conn}
use nullpipe.Hub.Connections.Writing.{flat, event_bytes, Writing, rounds, rounds-plus}
use nullpipe.Hub.Connections.Delivering.{own_rounds, oldest, catching_up}

-- This many rounds of the writer of a connection.
abbrev pub writes :
    {json : Json} {base58 : Base58} {hex : Hex} {st : Stream}
    → ℕ
    → ℕ
    → List (Move json base58 hex st)
writes i zero = []
writes i (suc n) = write i ∷ writes i n

module _ (json : Json) (base58 : Base58) (hex : Hex) (st : Stream) (laws : StreamLaws st) (i : ℕ)
    (id : PeerId) (name : Text) where
  moves-writes :
      (n : ℕ) (sv : Serving json base58 hex st) (c : Conn json base58 hex st)
      → get_elem? sv.connections i ≡ some c
      → moves json base58 hex st (writes i n) sv
        ≡ moved json base58 hex st i
            (rounds json base58 hex st laws id name i sv.hub n c, sv.hub)
            sv
  unfolding moves move
  moves-writes zero sv c here =
      ap (λ l. record { hub = sv.hub; connections = l }) (sym (set_elem-same sv.connections i here))
  moves-writes (suc n) sv c here =
      let c₁ : Conn json base58 hex st = write_round json base58 hex st i c.phase c sv.hub in
      let one : move json base58 hex st (write i) sv ≡ moved json base58 hex st i (c₁, sv.hub) sv =
        rw here refl in
      ap (moves json base58 hex st (writes i n)) one
      ∙ moves-writes n (moved json base58 hex st i (c₁, sv.hub) sv) c₁
          (get_elem?-set_same sv.connections i c₁ here)
      ∙ ap (λ l. record { hub = sv.hub; connections = l })
          (set_elem-twice sv.connections i c₁
            (rounds json base58 hex st laws id name i sv.hub n c₁))

  -- On a stream that works, as many turns of a connection's writer as it has frames and events before it, and one more, are
  -- enough for it to have nothing left to do: it has written the frames of its own channel first and then the frames of
  -- the events that it has not taken, of the last 256 that the channel keeps, each once and in order; the hub and the
  -- other connections are as they were.
  pub writer_catches_up :
      (sv : Serving json base58 hex st) (c : Conn json base58 hex st) (coming done : Bytes)
      → get_elem? sv.connections i ≡ some c
      → Writing json base58 hex st laws id name c coming done
      → let own : List Bytes = drop c.own_taken (frames_of i sv.hub.sends) in
        let kept : List ChatEvent =
          drop (oldest json base58 hex st laws i id name sv.hub c) sv.hub.events in
        (n : ℕ) × (c' : Conn json base58 hex st) × (n ≤ suc (length own + length kept))
        × (moves json base58 hex st (writes i n) sv ≡ moved json base58 hex st i (c', sv.hub) sv)
        × (next_turn json base58 hex st i c' sv.hub ≡ none)
        × Writing json base58 hex st laws id name c' coming
            ((done ++ flat own) ++ event_bytes json base58 hex st laws kept)
  writer_catches_up sv c coming done here h =
      let own : List Bytes = drop c.own_taken (frames_of i sv.hub.sends) in
      let (c₁, first, none_left, events, h₁) =
        own_rounds json base58 hex st laws i id name sv.hub own c coming done refl h in
      let (n, c', few, second, waits, h') =
        catching_up json base58 hex st laws i id name sv.hub c₁ coming (done ++ flat own) none_left
          h₁ in
      let same_lem : oldest json base58 hex st laws i id name sv.hub c₁
          ≡ oldest json base58 hex st laws i id name sv.hub c =
        ap (λ k. k + (length sv.hub.events - broadcast_capacity - k)) events in
      let few_lem : n
          ≤ suc (length (drop (oldest json base58 hex st laws i id name sv.hub c) sv.hub.events)) =
        subst (λ k. n ≤ suc (length (drop k sv.hub.events))) same_lem few in
      (
        length own + n,
        c',
        omega arith,
        moves-writes (length own + n) sv c here
            ∙ ap (λ x. moved json base58 hex st i (x, sv.hub) sv)
                (rounds-plus json base58 hex st laws id name i sv.hub (length own) n c
                  ∙ ap (rounds json base58 hex st laws id name i sv.hub n) first
                  ∙ second),
        waits,
        subst
            (λ k.
              Writing json base58 hex st laws id name c' coming
                ((done ++ flat own) ++ event_bytes json base58 hex st laws (drop k sv.hub.events)))
            same_lem h',
      )
