-- ===== src/App/Keys/Editing.antt =====
-- What a key does to the line that is being typed.
use nullpipe.Common.{
  ℕ, suc, not, ◌&&◌, List, ◌+◌, ◌-◌, ◌≤◌, ◌<◌, ◌≡◌, refl, inl, inr, true, false, Bool-cases, Option,
  none, some, [], ◌∷◌, ◌++◌, length, take, drop, All-append, All-take, All-drop, arith, ltb,
  if◌then◌else◌, length-append, length-take, length-drop,
}
use nullpipe.Std.Text.{Text, strip_prefix}
use nullpipe.Std.Whitespace.{split_whitespace}
use nullpipe.Std.Edits.{IsAscii, insert_char, remove_char, insert_char_ascii, remove_char_ascii}
use nullpipe.App.{
  App, Mode, bootstrap, running, shutting_down, send, send_line, dispatch_command, run_command,
}
use nullpipe.App.Keys.{
  is_c, KeyEvent, KeyCode, char, enter, backspace, delete, left, right, home, end, up, down,
  page_up, page_down, other_key, handle_key, edit, unlocked, with_input,
}

-- A cursor within a line of ASCII.
abbrev pub IsLine : App → Type 0
IsLine app = IsAscii app.input × (app.cursor ≤ length app.input)

-- The key puts no character other than ASCII into the line.
abbrev pub IsPlainKey : KeyCode → Type 0
IsPlainKey (char c) = c < 0x80
IsPlainKey enter = Unit
IsPlainKey backspace = Unit
IsPlainKey delete = Unit
IsPlainKey left = Unit
IsPlainKey right = Unit
IsPlainKey home = Unit
IsPlainKey end = Unit
IsPlainKey up = Unit
IsPlainKey down = Unit
IsPlainKey page_up = Unit
IsPlainKey page_down = Unit
IsPlainKey other_key = Unit

-- The step goes through, to a state with a good line.
abbrev pub Steps : Option App → Type 0
Steps o = (next : App) × (o ≡ some next) × IsLine next

-- What a command does leaves the line alone.
run_command-line :
    (now : ℕ) (cmd : Text) (parts : List Text) (app : App)
    → ((run_command now cmd parts app).input ≡ app.input)
      × ((run_command now cmd parts app).cursor ≡ app.cursor)
unfolding run_command
run_command-line now cmd parts app = (ground arith, ground arith)

send_line-line :
    (now : ℕ) (text : Text) (rest : Option Text) (app : App)
    → ((send_line now text rest app).input ≡ app.input)
      × ((send_line now text rest app).cursor ≡ app.cursor)
unfolding send_line dispatch_command
send_line-line now text none app = (ground arith, ground arith)
send_line-line now text (some cmd) app =
    let ih = run_command-line now cmd (split_whitespace cmd) app in (ground arith, ground arith)

send-IsLine : (now : ℕ) (app : App) → IsLine (send now app)
unfolding send
send-IsLine now app =
    let h =
      send_line-line now app.input (strip_prefix 47 app.input)
        (record app { input = []; cursor = 0; scroll = 0 }) in
    rw (h.0, h.1) (tt, omega arith)

pub IsAscii-insert :
    (i c : ℕ) (s : Text) → IsAscii s → c < 0x80 → IsAscii (take i s ++ c ∷ drop i s)
IsAscii-insert i c s h hc =
    All-append (λ b. b < 0x80) (take i s) (c ∷ drop i s) (All-take (λ b. b < 0x80) i s h)
      (hc, All-drop (λ b. b < 0x80) i s h)

IsAscii-remove : (i : ℕ) (s : Text) → IsAscii s → IsAscii (take i s ++ drop (suc i) s)
IsAscii-remove i s h =
    All-append (λ b. b < 0x80) (take i s) (drop (suc i) s) (All-take (λ b. b < 0x80) i s h)
      (All-drop (λ b. b < 0x80) (suc i) s h)

inserts :
    (app : App) (c : ℕ)
    → IsLine app
    → c < 0x80
    → Steps (with_input (app.cursor + 1) app (insert_char app.cursor c app.input))
inserts app c (h, le) hc = rw (insert_char_ascii app.cursor c app.input h hc le) (
  _,
  refl,
  (
    IsAscii-insert app.cursor c app.input h hc,
    omega (
      arith,
      length-append (take app.cursor app.input) (c ∷ drop app.cursor app.input),
      length-take app.cursor app.input,
      length-drop app.cursor app.input,
    ),
  ),
)

removes :
    (app : App) (i : ℕ)
    → IsLine app
    → i < length app.input
    → i ≤ app.cursor
    → app.cursor ≤ suc i
    → Steps (with_input i app (remove_char i app.input))
removes app i (h, le) lt near nearer = rw (remove_char_ascii i app.input h lt) (
  _,
  refl,
  (
    IsAscii-remove i app.input h,
    omega (
      arith,
      length-append (take i app.input) (drop (suc i) app.input),
      length-take i app.input,
      length-drop (suc i) app.input,
    ),
  ),
)

edit-IsLine :
    (now : ℕ) (key : KeyEvent) (code : KeyCode) (app : App)
    → IsPlainKey code
    → IsLine app
    → Steps (edit now key code app)
unfolding edit
edit-IsLine now key (char c) app hc h = elim (Bool-cases (not key.control && not key.other)) [
  | inl e ↦ rw e (inserts app c h hc)
  | inr ne ↦ rw ne (app, refl, h)
]
edit-IsLine now key enter app hc h = (send now app, refl, send-IsLine now app)
edit-IsLine now key backspace app hc h = elim (Bool-cases (ltb 0 app.cursor)) [
  | inl e ↦ rw e (removes app (app.cursor - 1) h (ground arith) (omega arith) (ground arith))
  | inr ne ↦ rw ne (app, refl, h)
]
edit-IsLine now key delete app hc h = elim (Bool-cases (ltb app.cursor (length app.input))) [
  | inl e ↦ rw e (removes app app.cursor h (ground arith) (omega arith) (omega arith))
  | inr ne ↦ rw ne (app, refl, h)
]
edit-IsLine now key left app hc h = elim (Bool-cases (ltb 0 app.cursor)) [
  | inl e ↦ rw e (_, refl, (h.0, omega (arith, h.1)))
  | inr ne ↦ rw ne (app, refl, h)
]
edit-IsLine now key right app hc h = elim (Bool-cases (ltb app.cursor (length app.input))) [
  | inl e ↦ rw e (_, refl, (h.0, ground arith))
  | inr ne ↦ rw ne (app, refl, h)
]
edit-IsLine now key home app hc h = (_, refl, (h.0, omega arith))
edit-IsLine now key end app hc h = (_, refl, (h.0, omega arith))
edit-IsLine now key up app hc h = (_, refl, h)
edit-IsLine now key down app hc h = (_, refl, h)
edit-IsLine now key page_up app hc h = (_, refl, h)
edit-IsLine now key page_down app hc h = (_, refl, h)
edit-IsLine now key other_key app hc h = (app, refl, h)

unlocked-IsLine :
    (now : ℕ) (key : KeyEvent) (mode : Mode) (app : App)
    → IsPlainKey key.code
    → IsLine app
    → Steps (unlocked now key mode app)
unfolding unlocked
unlocked-IsLine now key (bootstrap progress msg) app hc h = (app, refl, h)
unlocked-IsLine now key (shutting_down since) app hc h = (app, refl, h)
unlocked-IsLine now key running app hc h = edit-IsLine now key key.code app hc h

-- As long as only ASCII is typed, a key never panics, whatever the mode and the modifiers: it leads to a state
-- whose line is ASCII again with the cursor within it.
pub handle_key-IsLine :
    (now : ℕ) (key : KeyEvent) (app : App)
    → IsPlainKey key.code
    → IsLine app
    → (next : App) × (handle_key now key app ≡ some next) × IsLine next
unfolding handle_key
handle_key-IsLine now key app hc h = elim (Bool-cases (is_c key.code && key.control)) [
  | inl e ↦ rw e (_, refl, h)
  | inr ne ↦ rw ne (unlocked-IsLine now key app.mode app hc h)
]

pub handle_key-running :
    (now : ℕ) (key : KeyEvent) (app : App)
    → app.mode ≡ running
    → key.control ≡ false
    → handle_key now key app ≡ edit now key key.code app
unfolding handle_key unlocked
handle_key-running now key app hm hc = elim (Bool-cases (is_c key.code)) [
  | inl e ↦ rw (e, hc, hm) refl
  | inr ne ↦ rw (ne, hm) refl
]

-- Ctrl-C works in every mode; no other key does anything when the room is closed.
pub handle_key-shutting_down :
    (now since : ℕ) (key : KeyEvent) (app : App)
    → app.mode ≡ shutting_down since
    → handle_key now key app
      ≡ some (if is_c key.code && key.control then record app { quit = true } else app)
unfolding handle_key unlocked
handle_key-shutting_down now since key app hm = elim (Bool-cases (is_c key.code && key.control)) [
  | inl e ↦ rw e refl
  | inr ne ↦ rw (ne, hm) refl
]
