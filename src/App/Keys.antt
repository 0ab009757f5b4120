-- ===== src/App/Keys.antt =====
-- `App::handle_key` of crates/cli/src/main.rs.
pub mod Editing
pub mod Undoing
pub mod Typing
pub mod Drawable
use nullpipe.Common.{
  ℕ, ◌+◌, ◌-◌, ◌%◌, ◌^◌, Bool, true, false, not, ◌&&◌, ◌||◌, Option, none, some, length, ltb, ◌==◌,
  if◌then◌else◌,
}
use nullpipe.Std.Text.{Text}
use nullpipe.Std.Edits.{insert_char, remove_char}
use nullpipe.App.{App, Mode, bootstrap, running, shutting_down, send}

pub data KeyCode : Type 0 where
  char : ℕ → KeyCode
  enter backspace delete left right home end up down page_up page_down other_key : KeyCode

-- `other` says that a modifier besides these two is held.
pub record KeyEvent : Type 0 where
  pub code : KeyCode
  pub shift : Bool
  pub control : Bool
  pub other : Bool

abbrev pub is_c : KeyCode → Bool
is_c (char c) = c == 99
is_c enter = false
is_c backspace = false
is_c delete = false
is_c left = false
is_c right = false
is_c home = false
is_c end = false
is_c up = false
is_c down = false
is_c page_up = false
is_c page_down = false
is_c other_key = false

abbrev pub with_input : ℕ → App → Option Text → Option App
with_input cursor app none = none
with_input cursor app (some input) = some (record app { input = input; cursor = cursor })

-- The scroll position is a `usize`.
abbrev scrolled_up : ℕ → App → App
scrolled_up n app = record app { scroll = (app.scroll + n) % 2 ^ 64 }

pub edit : ℕ → KeyEvent → KeyCode → App → Option App
edit now key enter app = some (send now app)
edit now key (char c) app =
    if not key.control && not key.other
    then with_input (app.cursor + 1) app (insert_char app.cursor c app.input)
    else some app
edit now key backspace app =
    if ltb 0 app.cursor
    then with_input (app.cursor - 1) app (remove_char (app.cursor - 1) app.input)
    else some app
edit now key delete app =
    if ltb app.cursor (length app.input)
    then with_input app.cursor app (remove_char app.cursor app.input)
    else some app
edit now key left app =
    some (if ltb 0 app.cursor then record app { cursor = app.cursor - 1 } else app)
edit now key right app =
    some (if ltb app.cursor (length app.input) then record app { cursor = app.cursor + 1 } else app)
edit now key home app = some (record app { cursor = 0 })
edit now key end app = some (record app { cursor = length app.input })
edit now key up app = some (scrolled_up 1 app)
edit now key down app = some (record app { scroll = app.scroll - 1 })
edit now key page_up app = some (scrolled_up 10 app)
edit now key page_down app = some (record app { scroll = app.scroll - 10 })
edit now key other_key app = some app

unlocked : ℕ → KeyEvent → Mode → App → Option App
unfolding edit
unlocked now key (bootstrap progress msg) app = some app
unlocked now key (shutting_down since) app = some app
unlocked now key running app = edit now key key.code app

unfoldable pub handle_key : ℕ → KeyEvent → App → Option App
unfolding unlocked
handle_key now key app =
    if is_c key.code && key.control
    then some (record app { quit = true })
    else unlocked now key app.mode app

-- A key with no modifier.
abbrev pub plain : KeyCode → KeyEvent
plain code = record { code = code; shift = false; control = false; other = false }
