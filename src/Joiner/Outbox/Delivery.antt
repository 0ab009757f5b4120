-- ===== src/Joiner/Outbox/Delivery.antt =====
-- Where the joiner's local events end up.
use mathlib.Core.List.{reverse, Perm, perm_append_singleton}
use mathlib.Core.List.Perm
use nullpipe.Common.{
  ◌≡◌, refl, sym, ap, ◌∙◌, List, [], ◌∷◌, ◌++◌, append_assoc, append-nil, map, true, false,
  Bool-cases, inl, inr,
}
use nullpipe.Std.Text.{Text}
use nullpipe.Types.{ChatEvent, PeerId}
use nullpipe.External.Channels.{Sender, SenderLaws}
use nullpipe.Joiner.Outbox.{
  Outbox, make_event, try_emit, flush, flush_pending, emit_all, drain_and_flush,
}

module _ (sender : Sender) (laws : SenderLaws sender) where
  open laws use {taken, Open, try_taken, try_refused}

  -- Everything that was handed to the outbox: what the channel took and what waits.
  abbrev pub accounted : Outbox sender → List ChatEvent
  accounted o = taken o.channel ++ o.pending

  pub try_emit_taken :
      (e : ChatEvent) (o : Outbox sender)
      → (sender.try_send e o.channel).0 ≡ true
      → try_emit sender e o ≡ record o { channel = (sender.try_send e o.channel).1 }
  unfolding try_emit
  try_emit_taken e o h = rw (h, try_emit)

  try_emit_refused :
      (e : ChatEvent) (o : Outbox sender)
      → (sender.try_send e o.channel).0 ≡ false
      → try_emit sender e o
        ≡ record { channel = (sender.try_send e o.channel).1; pending = o.pending ++ e ∷ [] }
  unfolding try_emit
  try_emit_refused e o h = rw (h, try_emit)

  -- One more event is accounted for: it was taken by the channel, or it waits.
  try_emit-perm :
      (e : ChatEvent) (o : Outbox sender)
      → Perm (accounted (try_emit sender e o)) (accounted o ++ e ∷ [])
  try_emit-perm e o = elim (Bool-cases (sender.try_send e o.channel).0) [
    | inl took ↦
        rw (try_emit_taken e o took, try_taken e o.channel took) (moved (taken o.channel) o.pending)
    | inr full ↦
        rw (try_emit_refused e o full, try_refused e o.channel full, append_assoc) (Perm.refl _)
  ]
    where
      moved : (xs ys : List ChatEvent) → Perm (xs ++ e ∷ [] ++ ys) (xs ++ ys ++ e ∷ [])
      moved xs ys =
          rw (append_assoc xs (e ∷ []) ys, append_assoc xs ys (e ∷ []))
            (Perm.append_left xs (Perm.symm (perm_append_singleton e ys)))

  -- No message is lost on the way to the outbox: each becomes one event, taken or waiting.
  pub emit_all-perm :
      (peer_id : PeerId) (name : Text) (texts : List Text) (o : Outbox sender)
      → Perm
          (accounted (emit_all sender peer_id name texts o))
          (accounted o ++ map (make_event peer_id name) texts)
  unfolding emit_all
  emit_all-perm peer_id name [] o = rw append-nil (Perm.refl _)
  emit_all-perm peer_id name (text ∷ texts) o =
      let event : ChatEvent = make_event peer_id name text in
      let later = map (make_event peer_id name) texts in
      Perm.trans (emit_all-perm peer_id name texts (try_emit sender event o)) (
        rw (append_assoc (accounted o) (event ∷ []) later) at
          (Perm.append (try_emit-perm event o) (Perm.refl later)))

  -- The channel has room for all of these, one after the other.
  abbrev pub HasRoom : List ChatEvent → sender.Channel → Type 0
  HasRoom [] c = Unit
  HasRoom (e ∷ es) c = ((sender.try_send e c).0 ≡ true) × HasRoom es (sender.try_send e c).1

  taken-flush :
      (es : List ChatEvent) (c : sender.Channel)
      → HasRoom es c
      → taken (flush sender es c) ≡ taken c ++ es
  unfolding flush
  taken-flush [] c h = sym (append-nil _)
  taken-flush (e ∷ es) c h =
      rw (h.0, flush)
        (taken-flush es _ h.1
          ∙ ap (λ l. l ++ es) (try_taken e c h.0)
          ∙ append_assoc (taken c) (e ∷ []) es)

  flush_pending-nil :
      (c : sender.Channel)
      → flush_pending sender (record { channel = c; pending = [] })
        ≡ record { channel = c; pending = [] }
  unfolding flush_pending
  flush_pending-nil c = refl

  -- With room for everything, a flush empties `pending` into the channel, and the events that waited
  -- arrive in the reverse of their order.
  pub flush_pending_reverses :
      (o : Outbox sender)
      → HasRoom (reverse o.pending) o.channel
      → (taken (flush_pending sender o).channel ≡ taken o.channel ++ reverse o.pending)
        × ((flush_pending sender o).pending ≡ [])
  unfolding flush_pending
  flush_pending_reverses o h = (taken-flush (reverse o.pending) o.channel h, refl)

  -- A channel that takes whatever is put on it while it is open.
  abbrev pub HasRoomFor : Type 0
  HasRoomFor =
      (e : ChatEvent) (c : sender.Channel)
      → Open c
      → ((sender.try_send e c).0 ≡ true) × Open (sender.try_send e c).1

  emit_all_taken :
      (room : HasRoomFor) (peer_id : PeerId) (name : Text) (texts : List Text) (c : sender.Channel)
      → Open c
      → (c' : sender.Channel) × (emit_all sender peer_id name texts
            (record { channel = c; pending = [] })
          ≡ record { channel = c'; pending = [] })
        × (taken c' ≡ taken c ++ map (make_event peer_id name) texts)
  unfolding emit_all
  emit_all_taken room peer_id name [] c open_ = (c, refl, sym (append-nil (taken c)))
  emit_all_taken room peer_id name (text ∷ texts) c open_ =
      let event = make_event peer_id name text in
      let (takes, still) = room event c open_ in
      let (c', emits, all_taken) =
        emit_all_taken room peer_id name texts (sender.try_send event c).1 still in
      (
        c',
        ap (emit_all sender peer_id name texts)
              (try_emit_taken event (record { channel = c; pending = [] }) takes)
            ∙ emits,
        all_taken
            ∙ ap (λ l. l ++ map (make_event peer_id name) texts) (try_taken event c takes)
            ∙ append_assoc (taken c) (event ∷ []) (map (make_event peer_id name) texts),
      )

  -- With room, the messages that are drained become events in their order, and nothing is left to flush.
  pub drain_and_flush_taken :
      (room : HasRoomFor) (peer_id : PeerId) (name : Text) (texts : List Text) (c : sender.Channel)
      → Open c
      → (c' : sender.Channel) × (drain_and_flush sender peer_id name texts
            (record { channel = c; pending = [] })
          ≡ record { channel = c'; pending = [] })
        × (taken c' ≡ taken c ++ map (make_event peer_id name) texts)
  unfolding drain_and_flush
  drain_and_flush_taken room peer_id name texts c open_ =
      let (c', emits, all_taken) = emit_all_taken room peer_id name texts c open_ in
      (c', ap (flush_pending sender) emits ∙ flush_pending-nil c', all_taken)
