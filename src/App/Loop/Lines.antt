-- ===== src/App/Loop/Lines.antt =====
-- A turn of the terminal program keeps the line that is typed good.
use nullpipe.Common.{if_both, ℕ, refl, [], ◌∷◌, ok, err}
use nullpipe.Types.{
  ChatEvent, message, peer_join, peer_leave, bootstrap_progress, room_ready, invite_created,
  room_closed, error,
}
use nullpipe.App.{App, Mode, running, bootstrap, shutting_down, handle_event}
use nullpipe.App.Keys.Editing.{IsLine, Steps, handle_key-IsLine}
use nullpipe.App.Screen.Keeping.{IsTameEvent}
use nullpipe.App.Screen.Drawing.{truncate_onion_ascii}
use nullpipe.App.Loop.{
  Turn, key_turn, event_turn, events_closed, result_turn, tick, CmdResult, invite_result,
  peers_result, quit_result, take_turn, check_deadline, overdue, lose, handle_result,
}
use nullpipe.App.Loop.Drawable.{IsTame}

handle_event-IsLine :
    (now : ℕ) (ev : ChatEvent) (app : App)
    → IsTameEvent ev
    → IsLine app
    → Steps (handle_event now ev app)
unfolding handle_event
handle_event-IsLine now (message from name text) app t h = (_, refl, h)
handle_event-IsLine now (peer_join info) app t h = (_, refl, h)
handle_event-IsLine now (peer_leave pid) app t h = (_, refl, h)
handle_event-IsLine now (bootstrap_progress pct) app t h = (_, refl, h)
handle_event-IsLine now (room_ready onion port) app t h =
    let short = truncate_onion_ascii onion t in rw short.1 (_, refl, h)
handle_event-IsLine now (invite_created code) app t h = (_, refl, h)
handle_event-IsLine now room_closed app t h = (_, refl, h)
handle_event-IsLine now (error e) app t h = (_, refl, h)

lose-IsLine : (now : ℕ) (mode : Mode) (app : App) → IsLine app → IsLine (lose now mode app)
lose-IsLine now (bootstrap progress msg) app h = h
lose-IsLine now running app h = h
lose-IsLine now (shutting_down since) app h = h

handle_result-IsLine :
    (now : ℕ) (result : CmdResult) (app : App) → IsLine app → IsLine (handle_result now result app)
handle_result-IsLine now (invite_result (ok c)) app h = h
handle_result-IsLine now (invite_result (err e)) app h = h
handle_result-IsLine now (peers_result []) app h = h
handle_result-IsLine now (peers_result (p ∷ ps)) app h = h
handle_result-IsLine now quit_result app h = h

pub take_turn-IsLine :
    (now : ℕ) (turn : Turn) (app : App) → IsTame turn → IsLine app → Steps (take_turn now turn app)
take_turn-IsLine now (key_turn key) app t h = handle_key-IsLine now key app t h
take_turn-IsLine now (event_turn ev) app t h = handle_event-IsLine now ev app t h
take_turn-IsLine now events_closed app t h = (_, refl, lose-IsLine now app.mode app h)
take_turn-IsLine now (result_turn result) app t h = (_, refl, handle_result-IsLine now result app h)
take_turn-IsLine now tick app t h = (app, refl, h)

pub check_deadline-IsLine : (now : ℕ) (app : App) → IsLine app → IsLine (check_deadline now app)
check_deadline-IsLine now app h = if_both IsLine (overdue now app.mode) h h
