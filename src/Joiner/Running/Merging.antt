-- ===== src/Joiner/Running/Merging.antt =====
-- What a connected joiner shows and sends, however its reader and its writer interleave.
use nullpipe.Common.{
  ℕ, suc, ◌≡◌, refl, sym, ap, ◌∙◌, Option, none, some, List, [], ◌∷◌, ◌++◌, append_assoc,
  append-nil, map, length, arith,
}
use nullpipe.Std.Utf8.{Bytes}
use nullpipe.Std.Text.{Text}
use nullpipe.Types.{ChatEvent}
use nullpipe.Wire.{WireMessage}
use nullpipe.Joiner.Outbox.{make_event}
use nullpipe.Joiner.Reader.{incoming_event}
use nullpipe.Joiner.Reader.Delivery.{Frames, end}
use nullpipe.Joiner.Writer.{outgoing}
use nullpipe.Joiner.Writer.Sending.{
  ChatFrames, process_sends, write_loop_step, write_loop-nil, write_loop-reader_done,
}
use nullpipe.Joiner.Writer.Sending
use nullpipe.Joiner.Running.{Move, read, turn, Running, reader_round}
use nullpipe.Joiner.Running.Steps.{
  Setting, Stands, Stands-eq, reader_round-Stands, send-Stands, read_moves, go,
}

-- The third list is the first two, put together in some order that keeps the order of each.
pub data Merge {ℓ} {A : Type ℓ} : List A → List A → List A → Type ℓ where
  nothing : Merge [] [] []
  first : {x : A} {xs ys zs : List A} → Merge xs ys zs → Merge (x ∷ xs) ys (x ∷ zs)
  second : {y : A} {xs ys zs : List A} → Merge xs ys zs → Merge xs (y ∷ ys) (y ∷ zs)

-- A round of the reader, or a text that is sent.
abbrev pub move_of : Option Text → Move
move_of none = read
move_of (some text) = turn (outgoing text)

abbrev pub rounds : List (Option Text) → ℕ
rounds [] = 0
rounds (none ∷ schedule) = suc (rounds schedule)
rounds (some text ∷ schedule) = rounds schedule

abbrev pub texts_of : List (Option Text) → List Text
texts_of [] = []
texts_of (none ∷ schedule) = texts_of schedule
texts_of (some text ∷ schedule) = text ∷ texts_of schedule

module _ (w : Setting) where
  open w use {json, json_laws, st, laws, sender, sender_laws, name, peer_id, room}
  open sender_laws use {taken, Open, try_taken, send_taken}

  abbrev pub Shown : List WireMessage → List (Option Text) → List ChatEvent → Type 0
  Shown ms schedule new =
      Merge (map incoming_event ms) (map (make_event peer_id name) (texts_of schedule)) new

  -- However the joiner's reader and writer interleave: when the reader has a round for each message of the hub, the
  -- joiner has sent the chat frames of its texts, and shown one event for each message and for each text, both in their
  -- order, and stands ready for what comes next.
  pub run_connected_merges :
      (schedule : List (Option Text)) (ms : List WireMessage) (moves : List Move)
      (r : Running json st sender) (events : List ChatEvent) (coming out done : Bytes)
      → rounds schedule ≡ length ms
      → Frames json ms coming
      → ChatFrames json name (texts_of schedule) out
      → Stands w r events coming done
      → (r' : Running json st sender) × (new : List ChatEvent) × (go w
            (map move_of schedule ++ moves)
            r
          ≡ go w moves r')
        × Shown ms schedule new
        × Stands w r' (events ++ new) [] (done ++ out)
  run_connected_merges [] [] moves r events coming out done size end Sending.end h =
      (r, [], refl, nothing, Stands-eq w r h (sym (append-nil events)) (sym (append-nil done)))
  run_connected_merges [] (m ∷ ms) moves r events coming out done size frames texts h = cc
  run_connected_merges (none ∷ schedule) [] moves r events coming out done size frames texts h = cc
  run_connected_merges (none ∷ schedule) (m ∷ ms) moves r events coming out done size frames texts
        h =
      let event = incoming_event m in
      let (rest, more, h₁) = reader_round-Stands w m ms r events done frames h in
      let (r', new, runs, merged, h₂) =
        run_connected_merges schedule ms moves (reader_round json st sender r)
          (events ++ event ∷ []) rest out done (omega arith) more texts h₁ in
      (
        r',
        event ∷ new,
        read_moves w (map move_of schedule ++ moves) r ∙ runs,
        first merged,
        Stands-eq w r' h₂ (append_assoc events (event ∷ []) new) refl,
      )
  run_connected_merges (some text ∷ schedule) ms moves r events coming all done size frames
        (Sending.one_more {frame = frame} {rest = rest} e more split) h =
      let event = make_event peer_id name text in
      let (r₁, sends, h₁) = send-Stands w text frame (map move_of schedule ++ moves) r events e h in
      let (r', new, runs, merged, h₂) =
        run_connected_merges schedule ms moves r₁ (events ++ event ∷ []) coming rest (done ++ frame)
          size frames more h₁ in
      (
        r',
        event ∷ new,
        sends ∙ runs,
        second merged,
        Stands-eq w r' h₂ (append_assoc events (event ∷ []) new)
            (append_assoc done frame rest ∙ ap (λ b. done ++ b) (sym split)),
      )
