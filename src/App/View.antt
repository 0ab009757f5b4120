-- ===== src/App/View.antt =====
-- `render_messages` of crates/cli/src/main.rs, as far as it chooses what is shown: the window of messages and the names.
pub mod Window
use nullpipe.Common.{
  ℕ, ◌-◌, Bool, true, false, Option, none, some, List, [], ◌∷◌, ◌++◌, length, take, drop, ltb,
  if◌then◌else◌,
}
use nullpipe.Std.Text.{Text, lit}
use nullpipe.Std.Edits.{is_char_boundary}
use nullpipe.App.{App, DispMsg}

unfoldable pub visible_end : App → ℕ
visible_end app = length app.msgs - app.scroll

unfoldable pub visible_start : ℕ → App → ℕ
unfolding visible_end
visible_start height app = visible_end app - height

unfoldable pub visible : ℕ → App → List DispMsg
unfolding visible_start visible_end
visible height app =
    take (visible_end app - visible_start height app) (drop (visible_start height app) app.msgs)

-- A name of more than 20 bytes is cut at 17; a cut inside a character panics.
unfoldable pub short_name : Text → Option Text
short_name name =
    if ltb 20 (length name)
    then (if is_char_boundary 17 name then some (take 17 name ++ lit "...") else none)
    else some name

abbrev pub bracketed : Option Text → Option Text
bracketed none = none
bracketed (some name) = some (lit "[" ++ name ++ lit "] ")

abbrev pub prefix : DispMsg → Option Text
prefix m = if m.system then some (lit "[system] ") else bracketed (short_name m.name)

abbrev pub with_text :
    Text → Option Text → Option (List (Text × Text)) → Option (List (Text × Text))
with_text text (some p) (some ls) = some ((p, text) ∷ ls)
with_text text none ls = none
with_text text (some p) none = none

-- The prefix and the text of each line, without the time of day.
abbrev pub lines_of : List DispMsg → Option (List (Text × Text))
lines_of [] = some []
lines_of (m ∷ ms) = with_text m.text (prefix m) (lines_of ms)

unfoldable pub render_messages : ℕ → App → Option (List (Text × Text))
unfolding visible
render_messages height app = lines_of (visible height app)
