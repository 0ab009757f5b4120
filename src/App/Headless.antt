-- ===== src/App/Headless.antt =====
-- `run_headless` of crates/cli/src/main.rs. A turn is what its `select!` picks; the lines that it prints on either
-- stream are kept in order. `spawned` are the tasks in the order of their spawning, which need not be the order in which
-- they run, and last the `quit` that the program itself awaits; `Racing` has the runs of the tasks.
pub mod Sending
pub mod Racing
use nullpipe.Common.{
  ℕ, Bool, true, false, ◌&&◌, Option, none, some, List, [], ◌∷◌, ◌++◌, ltb, same, if◌then◌else◌,
}
use nullpipe.Std.Text.{Text, lit, is_empty, strip_prefix}
use nullpipe.Std.Decimal.{display}
use nullpipe.Std.Whitespace.{trim, split_whitespace}
use nullpipe.Types.{
  ChatEvent, message, peer_join, peer_leave, bootstrap_progress, room_ready, invite_created,
  room_closed, error, to_string,
}
use nullpipe.App.{
  Task, send_text, make_invite, list_peers, quit_room, truncate_onion, first_word, second_word,
}

pub record Console : Type 0 where
  pub ready : Bool
  pub out : List Text
  pub err : List Text
  pub spawned : List Task

pub data Turn : Type 0 where
  line_turn : Text → Turn
  event_turn : ChatEvent → Turn
  events_closed : Turn

-- What a turn leads to: the next round, the end of the loop, or a panic.
pub data Next : Type 0 where
  again stop : Console → Next
  panic : Next

abbrev print : Text → Console → Console
print s c = record c { out = c.out ++ s ∷ [] }

abbrev eprint : Text → Console → Console
eprint s c = record c { err = c.err ++ s ∷ [] }

abbrev spawn : Task → Console → Console
spawn task c = record c { spawned = c.spawned ++ task ∷ [] }

unfoldable pub command : Text → List Text → Console → Console
command cmd parts c =
    if same (first_word parts) (lit "invite")
    then spawn (make_invite (second_word parts)) c
    else if same (first_word parts) (lit "peers")
    then spawn list_peers c
    else print (lit "[system] unknown command: /" ++ cmd) c

-- The line is trimmed; `rest` is what stands behind a slash at its front.
unfoldable pub slash_or_text : Text → Option Text → Console → Console
unfolding command
slash_or_text line (some cmd) c = command cmd (split_whitespace cmd) c
slash_or_text line none c = if c.ready then spawn (send_text line) c else c

unfoldable pub handle_line : Text → Console → Next
unfolding slash_or_text
handle_line line c =
    if is_empty line
    then again c
    else if same line (lit "/quit")
    then stop c
    else again (slash_or_text line (strip_prefix 47 line) c)

abbrev show_ready : Option Text → Console → Next
show_ready none c = panic
show_ready (some short) c =
    again (print (lit "\n[system] room ready: " ++ short ++ lit "...") (record c { ready = true }))

unfoldable pub handle_event : ChatEvent → Console → Next
handle_event (bootstrap_progress pct) c = again (
    if ltb 0 pct && ltb pct 100
    then eprint (lit "\rBootstrapping: " ++ display pct ++ lit "%  ") c
    else c)
handle_event (room_ready onion_address port) c = show_ready (truncate_onion onion_address) c
handle_event (peer_join info) c =
    again (record (print (lit "[system] " ++ info.name ++ lit " joined") c) { ready = true })
handle_event (peer_leave pid) c = again (print (lit "[system] " ++ pid.text ++ lit " left") c)
handle_event (message from name text) c = again (print (lit "[" ++ name ++ lit "] " ++ text) c)
handle_event (invite_created code) c = again (print (lit "[system] new invite code: " ++ code) c)
handle_event room_closed c = stop (print (lit "[system] room closed") c)
handle_event (error e) c = again (eprint (lit "\n[error] " ++ to_string e) c)

unfoldable pub take_turn : Turn → Console → Next
unfolding handle_line handle_event
take_turn (line_turn line) c = handle_line (trim line) c
take_turn (event_turn ev) c = handle_event ev c
take_turn events_closed c = stop (eprint (lit "\n[system] connection lost") c)

pub data Progress : Type 0 where
  waiting left : Console → Progress
  panicked : Progress

-- After the loop the handle is told to quit.
unfoldable pub run_headless : List Turn → Console → Progress
run_headless [] c = waiting c
run_headless (turn ∷ turns) c = elim (take_turn turn c) [
  | again next ↦ run_headless turns next
  | stop last ↦ left (spawn quit_room last)
  | panic ↦ panicked
]

abbrev pub start : Console
start = record { ready = false; out = []; err = []; spawned = [] }
