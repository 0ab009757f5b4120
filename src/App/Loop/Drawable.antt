-- ===== src/App/Loop/Drawable.antt =====
-- A turn of the terminal program keeps its state one that can be drawn.
use nullpipe.Common.{ℕ, some, [], ◌∷◌, ◌≡◌, subst, if_both, ok, err}
use nullpipe.App.{App, Mode, bootstrap, running, shutting_down}
use nullpipe.App.Keys.Drawable.{handle_key-Draws}
use nullpipe.App.Keys.Editing.{IsPlainKey}
use nullpipe.App.Loop.{
  Turn, key_turn, event_turn, events_closed, result_turn, tick, CmdResult, invite_result,
  peers_result, quit_result, take_turn, check_deadline, overdue, lose, handle_result,
}
use nullpipe.App.Screen.Keeping.{
  IsDrawable, Draws, IsTameEvent, note-IsDrawable, handle_event-Draws,
}

-- And only ASCII is typed.
abbrev pub IsTame : Turn → Type 0
IsTame (key_turn key) = IsPlainKey key.code
IsTame (event_turn ev) = IsTameEvent ev
IsTame events_closed = Unit
IsTame (result_turn result) = Unit
IsTame tick = Unit

lose-IsDrawable :
    (now : ℕ) (mode : Mode) (app : App) → IsDrawable app → IsDrawable (lose now mode app)
lose-IsDrawable now (bootstrap progress msg) app h = note-IsDrawable now _ app h
lose-IsDrawable now running app h = note-IsDrawable now _ app h
lose-IsDrawable now (shutting_down since) app h = h

handle_result-IsDrawable :
    (now : ℕ) (result : CmdResult) (app : App)
    → IsDrawable app
    → IsDrawable (handle_result now result app)
handle_result-IsDrawable now (invite_result (ok c)) app h = note-IsDrawable now _ app h
handle_result-IsDrawable now (invite_result (err e)) app h = note-IsDrawable now _ app h
handle_result-IsDrawable now (peers_result []) app h = note-IsDrawable now _ app h
handle_result-IsDrawable now (peers_result (p ∷ ps)) app h = note-IsDrawable now _ app h
handle_result-IsDrawable now quit_result app h = h

-- What a turn leads to, if it does not panic, can be drawn.
pub take_turn-IsDrawable :
    (now : ℕ) (turn : Turn) (app next : App)
    → IsTame turn
    → IsDrawable app
    → take_turn now turn app ≡ some next
    → IsDrawable next
take_turn-IsDrawable now turn app next t h went = subst Draws went (by_turn turn t)
  where
    by_turn : (turn : Turn) → IsTame turn → Draws (take_turn now turn app)
    by_turn (key_turn key) t = handle_key-Draws now key app h
    by_turn (event_turn ev) t = handle_event-Draws now ev app t h
    by_turn events_closed t = lose-IsDrawable now app.mode app h
    by_turn (result_turn result) t = handle_result-IsDrawable now result app h
    by_turn tick t = h

pub check_deadline-IsDrawable :
    (now : ℕ) (app : App) → IsDrawable app → IsDrawable (check_deadline now app)
check_deadline-IsDrawable now app h = if_both IsDrawable (overdue now app.mode) h h
