-- ===== src/App/Keys/Drawable.antt =====
-- A key keeps the state of the terminal program one that can be drawn.
use nullpipe.Common.{ℕ, not, ◌&&◌, Option, none, some, ◌+◌, ◌-◌, if_both, length, ltb}
use nullpipe.Std.Text.{Text}
use nullpipe.Std.Edits.{insert_char, remove_char}
use nullpipe.App.{App, Mode, bootstrap, running, shutting_down}
use nullpipe.App.Keys.{
  is_c, KeyEvent, KeyCode, char, enter, backspace, delete, left, right, home, end, up, down,
  page_up, page_down, other_key, handle_key, edit, unlocked, with_input,
}
use nullpipe.App.Screen.Keeping.{IsDrawable, Draws, send-IsDrawable}

with_input-Draws :
    (cursor : ℕ) (app : App) (o : Option Text) → IsDrawable app → Draws (with_input cursor app o)
with_input-Draws cursor app none h = tt
with_input-Draws cursor app (some input) h = h

edit-Draws :
    (now : ℕ) (key : KeyEvent) (code : KeyCode) (app : App)
    → IsDrawable app
    → Draws (edit now key code app)
unfolding edit
edit-Draws now key (char c) app h =
    if_both Draws (not key.control && not key.other)
      (with_input-Draws (app.cursor + 1) app (insert_char app.cursor c app.input) h) h
edit-Draws now key enter app h = send-IsDrawable now app h
edit-Draws now key backspace app h =
    if_both Draws (ltb 0 app.cursor)
      (with_input-Draws (app.cursor - 1) app (remove_char (app.cursor - 1) app.input) h) h
edit-Draws now key delete app h =
    if_both Draws (ltb app.cursor (length app.input))
      (with_input-Draws app.cursor app (remove_char app.cursor app.input) h) h
edit-Draws now key left app h = if_both IsDrawable (ltb 0 app.cursor) h h
edit-Draws now key right app h = if_both IsDrawable (ltb app.cursor (length app.input)) h h
edit-Draws now key home app h = h
edit-Draws now key end app h = h
edit-Draws now key up app h = h
edit-Draws now key down app h = h
edit-Draws now key page_up app h = h
edit-Draws now key page_down app h = h
edit-Draws now key other_key app h = h

unlocked-Draws :
    (now : ℕ) (key : KeyEvent) (mode : Mode) (app : App)
    → IsDrawable app
    → Draws (unlocked now key mode app)
unfolding unlocked
unlocked-Draws now key (bootstrap progress msg) app h = h
unlocked-Draws now key (shutting_down since) app h = h
unlocked-Draws now key running app h = edit-Draws now key key.code app h

pub handle_key-Draws :
    (now : ℕ) (key : KeyEvent) (app : App) → IsDrawable app → Draws (handle_key now key app)
unfolding handle_key
handle_key-Draws now key app h =
    if_both Draws (is_c key.code && key.control) h (unlocked-Draws now key app.mode app h)
