-- ===== src/App/Headless/Racing.antt =====
-- What the room takes from the tasks that `run_headless` of crates/cli/src/main.rs spawns. Each task is a call of the room's
-- handle (room.rs); the runtime runs them in any order, and leaves those that have not begun when the program ends.
use mathlib.Core.List.{Perm, perm_middle, filter_map}
use mathlib.Core.List.Perm
use nullpipe.Common.{
  ◌≡◌, refl, sym, ap, ◌∙◌, subst, Bool, true, false, ◌⊎◌, inl, inr, Option, some, none, List, [],
  ◌∷◌, ◌++◌, append_assoc, append-nil, map,
}
use nullpipe.Std.Text.{Text}
use nullpipe.App.{Task, send_text, make_invite, list_peers, quit_room}
use nullpipe.App.Headless.{Turn, Console, waiting, left, run_headless, start}
use nullpipe.App.Headless.Sending.{texts, wanted, Sends, run_headless-Sends}
use nullpipe.Room.Handle.{RoomInner, send, quit}
use nullpipe.Room.Handle.Quitting.{send_either, quit-sent}

-- The call of a task, with whether the receiver of the send channel still lives. An invite and a list of peers change
-- nothing in the room.
abbrev pub run_task : Task → Bool → RoomInner → RoomInner
run_task (send_text text) taken inner = (send text taken inner).1
run_task (make_invite name) taken inner = inner
run_task list_peers taken inner = inner
run_task quit_room taken inner = quit inner

abbrev pub run_tasks : List (Task × Bool) → RoomInner → RoomInner
run_tasks [] inner = inner
run_tasks ((task, taken) ∷ tasks) inner = run_tasks tasks (run_task task taken inner)

abbrev IsQuit : Task → Type 0
IsQuit (send_text text) = ⊥
IsQuit (make_invite name) = ⊥
IsQuit list_peers = ⊥
IsQuit quit_room = Unit

-- No task quits the room, and the receiver of the send channel lives on.
abbrev pub AllTaken : List (Task × Bool) → Type 0
AllTaken [] = Unit
AllTaken ((task, taken) ∷ tasks) = (IsQuit task → ⊥) × (taken ≡ true) × AllTaken tasks

abbrev text_of : Task → Option Text
text_of (send_text text) = some text
text_of (make_invite name) = none
text_of list_peers = none
text_of quit_room = none

texts-filter_map : (ts : List Task) → texts ts ≡ filter_map text_of ts
unfolding filter_map
texts-filter_map [] = refl
texts-filter_map (send_text t ∷ ts) = ap (◌∷◌ t) (texts-filter_map ts)
texts-filter_map (make_invite n ∷ ts) = texts-filter_map ts
texts-filter_map (list_peers ∷ ts) = texts-filter_map ts
texts-filter_map (quit_room ∷ ts) = texts-filter_map ts

texts-perm : {ts us : List Task} → Perm ts us → Perm (texts ts) (texts us)
texts-perm {ts} {us} p = rw (texts-filter_map ts, texts-filter_map us) (Perm.filter_map text_of p)

texts_of_two : (ts us : List Task) → texts (ts ++ us) ≡ texts ts ++ texts us
texts_of_two [] us = refl
texts_of_two (send_text t ∷ ts) us = ap (◌∷◌ t) (texts_of_two ts us)
texts_of_two (make_invite n ∷ ts) us = texts_of_two ts us
texts_of_two (list_peers ∷ ts) us = texts_of_two ts us
texts_of_two (quit_room ∷ ts) us = texts_of_two ts us

-- What a room takes of these texts and what it misses, where all is well or not.
abbrev Takes : Type 0 → List (Task × Bool) → RoomInner → List Text → List Text → Type 0
Takes well ran inner got missed =
    ((run_tasks ran inner).sent ≡ inner.sent ++ got)
    × Perm (got ++ missed) (texts (map (λ r. r.0) ran))
    × (well → inner.quit_flag ≡ false → missed ≡ [])

run_tasks-Takes :
    (ran : List (Task × Bool)) (inner : RoomInner)
    → (got : List Text) × (missed : List Text) × Takes (AllTaken ran) ran inner got missed
run_tasks-Takes [] inner = ([], [], (sym (append-nil inner.sent), Perm.refl [], λ w q. refl))
run_tasks-Takes ((send_text t, taken) ∷ ran) inner = elim (send_either t taken inner) [
  | inl e ↦
      let (got, missed, (e', p, all)) = run_tasks-Takes ran (send t taken inner).1 in
      (
        t ∷ got,
        missed,
        (
          e' ∙ ap (λ i. i.sent ++ got) e ∙ append_assoc inner.sent (t ∷ []) got,
          Perm.cons t p,
          λ w q. all w.2 (ap (λ i. i.quit_flag) e ∙ q),
        ),
      )
  | inr (e, refused) ↦
      let (got, missed, (e', p, all)) = run_tasks-Takes ran (send t taken inner).1 in
      (
        got,
        t ∷ missed,
        (
          e' ∙ ap (λ i. i.sent ++ got) e,
          Perm.trans (perm_middle got missed) (Perm.cons t p),
          λ w q. absurd (refused w.1 q),
        ),
      )
]
run_tasks-Takes ((make_invite n, taken) ∷ ran) inner =
    let (got, missed, (e, p, all)) = run_tasks-Takes ran inner in
    (got, missed, (e, p, λ w q. all w.2 q))
run_tasks-Takes ((list_peers, taken) ∷ ran) inner =
    let (got, missed, (e, p, all)) = run_tasks-Takes ran inner in
    (got, missed, (e, p, λ w q. all w.2 q))
run_tasks-Takes ((quit_room, taken) ∷ ran) inner =
    let (got, missed, (e, p, all)) = run_tasks-Takes ran (quit inner) in
    (got, missed, (e ∙ ap (λ l. l ++ got) (quit-sent inner), p, λ w q. absurd (w.0 tt)))

ran_texts :
    (turns : List Turn) (c : Console)
    → (run_headless turns start ≡ left c) ⊎ (run_headless turns start ≡ waiting c)
    → texts c.spawned ≡ wanted false turns
ran_texts turns c (inl e) = subst (Sends (wanted false turns)) e (run_headless-Sends turns start)
ran_texts turns c (inr e) = subst (Sends (wanted false turns)) e (run_headless-Sends turns start)

-- The headless program spawns a task for each trimmed line that is neither empty nor a command and that comes
-- after the room was ready or a peer joined, and for none behind /quit or the end of the room. In a run that does
-- not panic, whichever of the spawned tasks run, in whatever order, and whether or not the receiver of the room's
-- send channel lives at each of them, the texts that the room takes and some that it misses are together exactly
-- these lines, each once and up to their order: what quits first or has lost its channel misses texts, and if
-- nothing quits and the channel lives, only the tasks that have not run are missed.
pub run_headless_takes :
    (turns : List Turn) (c : Console) (ran : List (Task × Bool)) (rest : List Task)
    (inner : RoomInner)
    → (run_headless turns start ≡ left c) ⊎ (run_headless turns start ≡ waiting c)
    → Perm (map (λ r. r.0) ran ++ rest) c.spawned
    → (got : List Text) × (missed : List Text) × ((run_tasks ran inner).sent ≡ inner.sent ++ got)
      × Perm (got ++ missed) (wanted false turns)
      × (AllTaken ran → inner.quit_flag ≡ false → missed ≡ texts rest)
run_headless_takes turns c ran rest inner ended order =
    let (got, missed, (e, p, all)) = run_tasks-Takes ran inner in
    (
      got,
      missed ++ texts rest,
      e,
      Perm.trans
          (rw (append_assoc got missed (texts rest)) at (Perm.append p (Perm.refl (texts rest))))
          (rw (sym (texts_of_two (map (λ r. r.0) ran) rest), sym (ran_texts turns c ended))
            (texts-perm order)),
      λ w q. ap (λ l. l ++ texts rest) (all w q),
    )
