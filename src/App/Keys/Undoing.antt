-- ===== src/App/Keys/Undoing.antt =====
-- A backspace behind the key that it undoes.
use nullpipe.Common.{
  ℕ, suc, zero, ◌+◌, ◌-◌, ◌≤◌, ◌<◌, ◌≡◌, refl, ap, ◌∙◌, true, some, [], ◌∷◌, ◌++◌, length, take,
  drop, arith, ltb, length-append, length-take, length-drop,
}
use nullpipe.Std.Text.{Text}
use nullpipe.Std.Edits.{remove_char, insert_char_ascii, remove_char_ascii}
use nullpipe.App.{App, running}
use nullpipe.App.Keys.{plain, char, backspace, handle_key, edit, unlocked}
use nullpipe.App.Keys.Editing.{IsLine, IsAscii-insert, handle_key-running}

splice_undone :
    (i c : ℕ) (s : Text)
    → i ≤ length s
    → take i (take i s ++ c ∷ drop i s) ++ drop (suc i) (take i s ++ c ∷ drop i s) ≡ s
splice_undone zero c s le = refl
splice_undone (suc i) c [] le = ground arith
splice_undone (suc i) c (b ∷ s) le = ap (◌∷◌ b) (splice_undone i c s (omega arith))

-- A character goes in at the cursor, and the backspace behind it takes it out again.
pub backspace-char :
    (now later c : ℕ) (app : App)
    → app.mode ≡ running
    → c < 0x80
    → IsLine app
    → (typed : App) × (handle_key now (plain (char c)) app ≡ some typed)
      × (typed.input ≡ take app.cursor app.input ++ c ∷ drop app.cursor app.input)
      × (handle_key later (plain backspace) typed ≡ some app)
unfolding handle_key unlocked edit
backspace-char now later c app hm hc (h, le) =
    let s = take app.cursor app.input ++ c ∷ drop app.cursor app.input in
    let lt : app.cursor < length s = omega (
      arith,
      length-append (take app.cursor app.input) (c ∷ drop app.cursor app.input),
      length-take app.cursor app.input,
      length-drop app.cursor app.input,
    ) in
    let typed : App = record app { input = s; cursor = app.cursor + 1 } in
    let step : ltb 0 (app.cursor + 1) ≡ true = ground arith in
    let back : (app.cursor + 1) - 1 ≡ app.cursor = omega arith in
    let gone : remove_char app.cursor s ≡ some app.input =
      remove_char_ascii app.cursor s (IsAscii-insert app.cursor c app.input h hc) lt
      ∙ ap some (splice_undone app.cursor c app.input le) in
    (
      typed,
      handle_key-running now (plain (char c)) app hm refl
          ∙ (rw (insert_char_ascii app.cursor c app.input h hc le) refl),
      refl,
      handle_key-running later (plain backspace) typed hm refl ∙ (rw (step, back, gone) refl),
    )
