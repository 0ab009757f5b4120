-- ===== src/App/Headless/Sending.antt =====
-- For which lines of its input the headless program spawns a send.
use nullpipe.Common.{
  ℕ, ltb, ◌≡◌, refl, sym, ap, ◌∙◌, Bool, true, false, not, ◌&&◌, ◌||◌, Bool-cases, Option-cases,
  inl, inr, List, [], ◌∷◌, ◌++◌, append_assoc, append-nil, ◌==◌, same, same→eq, if◌then◌else◌,
  arith,
}
use nullpipe.Std.Text.{Text, lit, strip_prefix}
use nullpipe.Std.Whitespace.{trim, split_whitespace}
use nullpipe.Types.{
  ChatEvent, message, peer_join, peer_leave, bootstrap_progress, room_ready, invite_created,
  room_closed, error,
}
use nullpipe.App.{Task, send_text, make_invite, list_peers, quit_room, truncate_onion, second_word}
use nullpipe.App.Headless.{
  Console, Turn, line_turn, event_turn, events_closed, Next, again, stop, panic, take_turn,
  handle_line, handle_event, command, slash_or_text, spawn, Progress, waiting, left, panicked,
  run_headless,
}

abbrev pub texts : List Task → List Text
texts [] = []
texts (send_text t ∷ ts) = t ∷ texts ts
texts (make_invite n ∷ ts) = texts ts
texts (list_peers ∷ ts) = texts ts
texts (quit_room ∷ ts) = texts ts

-- Not empty, with no slash at the front.
abbrev is_chat : Text → Bool
is_chat [] = false
is_chat (x ∷ line) = not (x == 47)

abbrev opens : ChatEvent → Bool
opens (message from name text) = false
opens (peer_join info) = true
opens (peer_leave pid) = false
opens (bootstrap_progress pct) = false
opens (room_ready onion port) = true
opens (invite_created code) = false
opens room_closed = false
opens (error e) = false

abbrev closes : ChatEvent → Bool
closes (message from name text) = false
closes (peer_join info) = false
closes (peer_leave pid) = false
closes (bootstrap_progress pct) = false
closes (room_ready onion port) = false
closes (invite_created code) = false
closes room_closed = true
closes (error e) = false

-- The lines to send: every trimmed line that is no command and not empty, from the first room-ready or
-- join event on, up to `/quit` or the end of the events.
abbrev pub wanted : Bool → List Turn → List Text
wanted ready [] = []
wanted ready (line_turn line ∷ turns) =
    let rest = wanted ready turns in
    if same (trim line) (lit "/quit")
    then []
    else if is_chat (trim line) && ready
    then trim line ∷ rest
    else rest
wanted ready (event_turn ev ∷ turns) =
    let rest = wanted (opens ev || ready) turns in if closes ev then [] else rest
wanted ready (events_closed ∷ turns) = []

-- The tasks of a run that did not panic.
abbrev pub Sends : List Text → Progress → Type 0
Sends ts (waiting c) = texts c.spawned ≡ ts
Sends ts (left c) = texts c.spawned ≡ ts
Sends ts panicked = Unit

texts-append : (ts : List Task) (t : Task) → texts (ts ++ t ∷ []) ≡ texts ts ++ texts (t ∷ [])
texts-append [] t = refl
texts-append (send_text u ∷ ts) t = ap (◌∷◌ u) (texts-append ts t)
texts-append (make_invite n ∷ ts) t = texts-append ts t
texts-append (list_peers ∷ ts) t = texts-append ts t
texts-append (quit_room ∷ ts) t = texts-append ts t

quiet : (ts : List Task) (t : Task) → texts (t ∷ []) ≡ [] → texts (ts ++ t ∷ []) ≡ texts ts
quiet ts t h = texts-append ts t ∙ (rw h (append-nil (texts ts)))

command-texts :
    (cmd : Text) (parts : List Text) (c : Console)
    → (texts (command cmd parts c).spawned ≡ texts c.spawned)
      × ((command cmd parts c).ready ≡ c.ready)
unfolding command
command-texts cmd parts c = (
  ground (
    arith,
    quiet c.spawned list_peers refl,
    quiet c.spawned (make_invite (second_word parts)) refl,
  ),
  ground arith,
)

-- What a turn that goes on has done.
abbrev Goes : List Text → Bool → Console → Next → Type 0
Goes sent ready c (again next) =
    (next.ready ≡ ready) × (texts next.spawned ≡ texts c.spawned ++ sent)
Goes sent ready c (stop last) = ◌≡◌ {A = ℕ} 0 1
Goes sent ready c panic = Unit

slash_or_text-Goes :
    (x : ℕ) (line : Text) (c : Console)
    → Goes
        (if is_chat (x ∷ line) && c.ready then (x ∷ line) ∷ [] else [])
        c.ready
        c
        (again (slash_or_text (x ∷ line) (strip_prefix 47 (x ∷ line)) c))
unfolding slash_or_text strip_prefix
slash_or_text-Goes x line c = elim (Bool-cases (x == 47)) [
  | inl e ↦ rw e (
      let h = command-texts line (split_whitespace line) c in
      (h.1, h.0 ∙ sym (append-nil (texts c.spawned))))
  | inr ne ↦ rw ne (elim (Bool-cases c.ready) [
    | inl r ↦ rw r (refl, texts-append c.spawned (send_text (x ∷ line)))
    | inr nr ↦ rw nr (refl, sym (append-nil (texts c.spawned)))
  ])
]

handle_line-Goes :
    (line : Text) (c : Console)
    → same line (lit "/quit") ≡ false
    → Goes (if is_chat line && c.ready then line ∷ [] else []) c.ready c (handle_line line c)
unfolding handle_line
handle_line-Goes [] c h = (refl, sym (append-nil (texts c.spawned)))
handle_line-Goes (x ∷ line) c h = rw h (slash_or_text-Goes x line c)

handle_line-quit :
    (line : Text) (c : Console) → same line (lit "/quit") ≡ true → handle_line line c ≡ stop c
unfolding handle_line lit
handle_line-quit [] c h = let absurd = same→eq [] (lit "/quit") h in cc
handle_line-quit (x ∷ line) c h = rw h refl

handle_event-Goes :
    (ev : ChatEvent) (c : Console)
    → closes ev ≡ false
    → Goes [] (opens ev || c.ready) c (handle_event ev c)
unfolding handle_event
handle_event-Goes (message from name text) c h = (refl, sym (append-nil (texts c.spawned)))
handle_event-Goes (peer_join info) c h = (refl, sym (append-nil (texts c.spawned)))
handle_event-Goes (peer_leave pid) c h = (refl, sym (append-nil (texts c.spawned)))
handle_event-Goes (bootstrap_progress pct) c h = elim (Bool-cases (ltb 0 pct && ltb pct 100)) [
  | inl e ↦ rw e (refl, sym (append-nil (texts c.spawned)))
  | inr ne ↦ rw ne (refl, sym (append-nil (texts c.spawned)))
]
handle_event-Goes (room_ready onion port) c h = elim (Option-cases (truncate_onion onion)) [
  | inl e ↦ rw e tt
  | inr (short, e) ↦ rw e (refl, sym (append-nil (texts c.spawned)))
]
handle_event-Goes (invite_created code) c h = (refl, sym (append-nil (texts c.spawned)))
handle_event-Goes room_closed c h = cc
handle_event-Goes (error e) c h = (refl, sym (append-nil (texts c.spawned)))

handle_event-closes :
    (ev : ChatEvent) (c : Console)
    → closes ev ≡ true
    → (last : Console) × (handle_event ev c ≡ stop last) × (last.spawned ≡ c.spawned)
unfolding handle_event
handle_event-closes (message from name text) c h = cc
handle_event-closes (peer_join info) c h = cc
handle_event-closes (peer_leave pid) c h = cc
handle_event-closes (bootstrap_progress pct) c h = cc
handle_event-closes (room_ready onion port) c h = cc
handle_event-closes (invite_created code) c h = cc
handle_event-closes room_closed c h = (_, refl, refl)
handle_event-closes (error e) c h = cc

go_on :
    (turn : Turn) (turns : List Turn) (sent : List Text) (ready : Bool) (c : Console)
    → Goes sent ready c (take_turn turn c)
    → ((next : Console)
        → Sends (texts next.spawned ++ wanted next.ready turns) (run_headless turns next))
    → Sends (texts c.spawned ++ (sent ++ wanted ready turns)) (run_headless (turn ∷ turns) c)
unfolding run_headless
go_on turn turns sent ready c = by_next (take_turn turn c)
  where
    by_next :
        (o : Next)
        → Goes sent ready c o
        → ((next : Console)
            → Sends (texts next.spawned ++ wanted next.ready turns) (run_headless turns next))
        → Sends (texts c.spawned ++ (sent ++ wanted ready turns)) (elim o [
          | again next ↦ run_headless turns next
          | stop last ↦ left (spawn quit_room last)
          | panic ↦ panicked
        ])
    by_next (again next) h ih =
        rw (sym (append_assoc (texts c.spawned) sent (wanted ready turns)), sym h.1, sym h.0)
          (ih next)
    by_next (stop last) h ih = ground arith
    by_next panic h ih = tt

stop_step :
    (turn : Turn) (turns : List Turn) (c last : Console)
    → take_turn turn c ≡ stop last
    → run_headless (turn ∷ turns) c ≡ left (spawn quit_room last)
unfolding run_headless
stop_step turn turns c last h = rw (h, run_headless) refl

if-append :
    (b : Bool) (t : Text) (ts : List Text)
    → (if b then t ∷ [] else []) ++ ts ≡ (if b then t ∷ ts else ts)
if-append true t ts = refl
if-append false t ts = refl

-- The spawned sends, in the order of their spawning.
pub run_headless-Sends :
    (turns : List Turn) (c : Console)
    → Sends (texts c.spawned ++ wanted c.ready turns) (run_headless turns c)
unfolding run_headless take_turn
run_headless-Sends [] c = sym (append-nil (texts c.spawned))
run_headless-Sends (line_turn line ∷ turns) c = elim (Bool-cases (same (trim line) (lit "/quit"))) [
  | inl e ↦
      rw (e, stop_step (line_turn line) turns c c (handle_line-quit (trim line) c e))
        (quiet c.spawned quit_room refl ∙ sym (append-nil (texts c.spawned)))
  | inr ne ↦
      rw (ne, sym (if-append (is_chat (trim line) && c.ready) (trim line) (wanted c.ready turns)))
        (go_on (line_turn line) turns
          (if is_chat (trim line) && c.ready then trim line ∷ [] else []) c.ready c
          (handle_line-Goes (trim line) c ne) (λ next. run_headless-Sends turns next))
]
run_headless-Sends (event_turn ev ∷ turns) c = elim (Bool-cases (closes ev)) [
  | inl e ↦
      let (last, ended, kept) = handle_event-closes ev c e in
      rw (e, stop_step (event_turn ev) turns c last ended)
        (quiet last.spawned quit_room refl ∙ ap texts kept ∙ sym (append-nil (texts c.spawned)))
  | inr ne ↦ rw ne (
      go_on (event_turn ev) turns [] (opens ev || c.ready) c (handle_event-Goes ev c ne)
        (λ next. run_headless-Sends turns next))
]
run_headless-Sends (events_closed ∷ turns) c =
    quiet c.spawned quit_room refl ∙ sym (append-nil (texts c.spawned))
