-- ===== src/Hub/Connections/Writing.antt =====
-- One round of the writer of a connection on a stream that works.
use nullpipe.Common.{
  ℕ, zero, suc, ◌+◌, ◌-◌, ◌≤◌, ◌<◌, ◌≡◌, refl, sym, ap, ◌∙◌, true, false, Option, none, some, List,
  [], ◌∷◌, ◌++◌, append-nil, length, drop, drop-next, drop-end, ltb, arith,
}
use nullpipe.Std.Utf8.{Bytes}
use nullpipe.Std.Text.{Text}
use nullpipe.Types.{ChatEvent, PeerId}
use nullpipe.External.Codecs.{Base58, Hex}
use nullpipe.External.Streams.{Stream, StreamLaws}
use nullpipe.Wire.{Json}
use nullpipe.Wire.Reading.{At}
use nullpipe.Hub.{Hub}
use nullpipe.Hub.Tasks.{
  Turn, own_frame, broadcasted, lagged, event_message, in_time, encoded, put, writer_round,
}
use nullpipe.Hub.Connections.{
  serving, broadcast_capacity, frames_of, advance_cursor, write_turn, after_round, next_turn,
  write_round, own_turn, event_turn,
}
use nullpipe.Hub.Connections.Keeping.{Conn}

abbrev pub flat : List Bytes → Bytes
flat [] = []
flat (frame ∷ frames) = frame ++ flat frames

abbrev pub bytes_of : Option Bytes → Bytes
bytes_of none = []
bytes_of (some frame) = frame

module _ (json : Json) (base58 : Base58) (hex : Hex) (st : Stream) (laws : StreamLaws st) where
  -- The frames of these events; events that are not for peers or are too large have none.
  abbrev pub event_bytes : List ChatEvent → Bytes
  event_bytes [] = []
  event_bytes (e ∷ es) = bytes_of (encoded json st (event_message json st e)) ++ event_bytes es

  put-At :
      (o : Option Bytes) (s : st.State) {coming done : Bytes}
      → At st laws s coming done
      → (t : st.State) × (put json st o s ≡ (true, t)) × At st laws t coming (done ++ bytes_of o)
  put-At none s {done = done} h = (
    s,
    refl,
    record {
      up = h.up;
      coming_lem = h.coming_lem;
      written_lem = h.written_lem ∙ sym (append-nil done);
    },
  )
  put-At (some frame) s h =
      let (wrote, kept, sent, up) = laws.write frame s h.up in
      (
        (st.write_all frame s).1,
        ap (λ r. (in_time json st r, (st.write_all frame s).1)) wrote,
        record {
          up = up;
          coming_lem = kept ∙ h.coming_lem;
          written_lem = sent ∙ ap (λ b. b ++ frame) h.written_lem;
        },
      )

  module _ (id : PeerId) (name : Text) where
    -- The writer of this connection is at work on a stream that works, and has written these bytes.
    pub record Writing (c : Conn json base58 hex st) (coming done : Bytes) : Type 0 where
      pub phase_lem : c.phase ≡ serving id name
      pub at : At st laws c.stream coming done

    module _ (i : ℕ) (hub : Hub) where
      -- Rounds of the writer with nothing between them.
      abbrev pub rounds : ℕ → Conn json base58 hex st → Conn json base58 hex st
      rounds zero c = c
      rounds (suc n) c = rounds n (write_round json base58 hex st i c.phase c hub)

      pub rounds-plus :
          (m n : ℕ) (c : Conn json base58 hex st) → rounds (m + n) c ≡ rounds n (rounds m c)
      rounds-plus zero n c = let sum : 0 + n ≡ n = omega arith in ap (λ k. rounds k c) sum
      rounds-plus (suc m) n c =
          let sum : suc m + n ≡ suc (m + n) = omega arith in
          ap (λ k. rounds k c) sum
          ∙ rounds-plus m n (write_round json base58 hex st i c.phase c hub)

      -- A round of the writer that writes without delay.
      one_round :
          (c : Conn json base58 hex st) (t : Turn json st) (s : st.State)
          → c.phase ≡ serving id name
          → next_turn json base58 hex st i c hub ≡ some t
          → writer_round json st t c.stream ≡ (true, s)
          → write_round json base58 hex st i c.phase c hub
            ≡ record (advance_cursor json base58 hex st t c) { stream = s }
      unfolding write_round
      one_round c t s serves next wrote =
          ap (λ p. write_round json base58 hex st i p c hub) serves
          ∙ ap (λ o. write_turn json base58 hex st (id, name) o c) next
          ∙ ap
              (λ r.
                after_round json base58 hex st (id, name) r (advance_cursor json base58 hex st t c))
              wrote

      pub own_round :
          (c : Conn json base58 hex st) (frame : Bytes) (frames : List Bytes) {coming done : Bytes}
          → drop c.own_taken (frames_of i hub.sends) ≡ frame ∷ frames
          → Writing c coming done
          → (s : st.State) × (write_round json base58 hex st i c.phase c hub
              ≡ record c { stream = s; own_taken = suc c.own_taken })
            × At st laws s coming (done ++ frame)
      unfolding next_turn writer_round
      own_round c frame frames left h =
          let (here, rest) = drop-next c.own_taken (frames_of i hub.sends) left in
          let (s, wrote, at) = put-At (some frame) c.stream h.at in
          (
            s,
            one_round c (own_frame frame) s h.phase_lem
                (ap (λ o. own_turn json base58 hex st o c hub) here) wrote,
            at,
          )

      pub event_round :
          (c : Conn json base58 hex st) (e : ChatEvent) (es : List ChatEvent) {coming done : Bytes}
          → drop c.own_taken (frames_of i hub.sends) ≡ []
          → drop c.events_taken hub.events ≡ e ∷ es
          → length hub.events ≤ c.events_taken + broadcast_capacity
          → Writing c coming done
          → (s : st.State) × (write_round json base58 hex st i c.phase c hub
              ≡ record c { stream = s; events_taken = suc c.events_taken })
            × At st laws s coming (done ++ bytes_of (encoded json st (event_message json st e)))
      unfolding next_turn writer_round
      event_round c e es own left near h =
          let (here, rest) = drop-next c.events_taken hub.events left in
          let (s, wrote, at) = put-At (encoded json st (event_message json st e)) c.stream h.at in
          let near_lem : ltb (c.events_taken + broadcast_capacity) (length hub.events) ≡ false =
            ground arith in
          (
            s,
            one_round c (broadcasted e) s h.phase_lem
                (ap (λ o. own_turn json base58 hex st o c hub)
                    (drop-end c.own_taken (frames_of i hub.sends) own)
                  ∙ rw near_lem (ap (event_turn json base58 hex st) here))
                wrote,
            at,
          )

      pub lagged_round :
          (c : Conn json base58 hex st)
          → drop c.own_taken (frames_of i hub.sends) ≡ []
          → c.events_taken + broadcast_capacity < length hub.events
          → c.phase ≡ serving id name
          → write_round json base58 hex st i c.phase c hub ≡ record c {
            events_taken =
                c.events_taken + (length hub.events - broadcast_capacity - c.events_taken);
          }
      unfolding next_turn writer_round
      lagged_round c own far serves =
          let far_lem : ltb (c.events_taken + broadcast_capacity) (length hub.events) ≡ true =
            ground arith in
          one_round c (lagged (length hub.events - broadcast_capacity - c.events_taken)) c.stream
            serves
            (ap (λ o. own_turn json base58 hex st o c hub)
                (drop-end c.own_taken (frames_of i hub.sends) own)
              ∙ rw far_lem refl)
            refl
