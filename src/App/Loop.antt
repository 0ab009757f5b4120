-- ===== src/App/Loop.antt =====
-- `run_tui` of crates/cli/src/main.rs without the terminal: a turn is what its `select!` picks, with the reading of
-- the clock in milliseconds and the drawing behind it. A loop with no turn left is waiting.
pub mod Drawable
pub mod Lines
pub mod Running
use nullpipe.Common.{
  ℕ, ◌+◌, ◌-◌, Bool, true, false, not, Option, none, some, List, [], ◌∷◌, ◌++◌, Result, ok, err,
  ltb, if◌then◌else◌, map,
}
use nullpipe.Std.Text.{Text, lit, join}
use nullpipe.Types.{ChatEvent, PeerInfo}
use nullpipe.App.{
  App, Mode, bootstrap, running, shutting_down, new, handle_event, note, spawn, quit_room,
}
use nullpipe.App.Keys.{KeyEvent, handle_key}
use nullpipe.App.Screen.{Screen, render}

pub data CmdResult : Type 0 where
  invite_result : Result Text Text → CmdResult
  peers_result : List PeerInfo → CmdResult
  quit_result : CmdResult

abbrev pub handle_result : ℕ → CmdResult → App → App
handle_result now (invite_result (ok c)) app = note now (lit "invite code: " ++ c) app
handle_result now (invite_result (err e)) app = note now (lit "invite failed: " ++ e) app
handle_result now (peers_result []) app = note now (lit "no peers connected") app
handle_result now (peers_result (p ∷ ps)) app =
    note now (lit "peers: " ++ join (lit ", ") (map (λ q. q.name) (p ∷ ps))) app
handle_result now quit_result app = record app { quit = true }

pub data Turn : Type 0 where
  key_turn : KeyEvent → Turn
  event_turn : ChatEvent → Turn
  events_closed : Turn
  result_turn : CmdResult → Turn
  tick : Turn

-- The end of the event channel.
abbrev lose : ℕ → Mode → App → App
lose now (shutting_down since) app = app
lose now (bootstrap progress msg) app = record (note now (lit "connection lost") app) {
  mode = shutting_down now;
}
lose now running app = record (note now (lit "connection lost") app) { mode = shutting_down now }

abbrev pub take_turn : ℕ → Turn → App → Option App
take_turn now (key_turn key) app = handle_key now key app
take_turn now (event_turn ev) app = handle_event now ev app
take_turn now events_closed app = some (lose now app.mode app)
take_turn now (result_turn result) app = some (handle_result now result app)
take_turn now tick app = some app

abbrev overdue : ℕ → Mode → Bool
overdue now (bootstrap progress msg) = false
overdue now running = false
overdue now (shutting_down since) = ltb 5000 (now - since)

abbrev pub check_deadline : ℕ → App → App
check_deadline now app = if overdue now app.mode then record app { quit = true } else app

-- What `terminal.draw` comes to: an error before anything is rendered, or a rendering with a reading of the clock and the
-- size of the screen, and whether the terminal takes it.
pub data Drawing : Type 0 where
  not_begun : Drawing
  rendered : ℕ → ℕ → ℕ → Bool → Drawing

abbrev pub drawn : Bool → App → Option Screen → Option App
drawn taken app none = none
drawn taken app (some screen) = some (if taken then app else record app { quit = true })

-- An error is printed and ends the loop; a panic of the rendering is one of the program.
unfoldable pub draw : Drawing → App → Option App
draw not_begun app = some (record app { quit = true })
draw (rendered now width height taken) app = drawn taken app (render now width height app)

abbrev pub draw_next : ℕ → Drawing → Option App → Option App
draw_next now drawing none = none
draw_next now drawing (some next) = draw drawing (check_deadline now next)

-- `app.handle.take()` and the call of `quit`.
abbrev pub leave : App → App
leave app = if app.handle then spawn quit_room (record app { handle = false }) else app

pub data Progress : Type 0 where
  waiting left : App → Progress
  panicked : Progress

after_turn : App → Progress → Progress
after_turn app rest = if app.quit then left (leave app) else rest

unfoldable pub run_tui : List (ℕ × (Turn × Drawing)) → App → Progress
unfolding after_turn
run_tui [] app = waiting app
run_tui ((now, (turn, drawing)) ∷ turns) app =
    elim (draw_next now drawing (take_turn now turn app)) [
      | none ↦ panicked
      | some next ↦ after_turn next (run_tui turns next)
    ]

-- The state when the loop begins.
abbrev pub start : Bool → ℕ → App
start timestamps now = record (record (new timestamps now) { handle = true }) { cmd_tx = true }
