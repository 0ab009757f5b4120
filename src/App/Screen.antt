-- ===== src/App/Screen.antt =====
-- `render` of crates/cli/src/main.rs: the texts on the screen with their colours. Where ratatui puts them is its own, but for
-- the rows: one each for the title, the status and the input, and the rest for the messages.
pub mod Parts
pub mod Drawing
pub mod Keeping
use nullpipe.Common.{
  ℕ, ◌-◌, ◌/◌, ◌%◌, Bool, true, false, ◌||◌, Option, none, some, List, [], ◌∷◌, ◌++◌, map,
  get_elem?, ltb, ◌==◌, if◌then◌else◌,
}
use nullpipe.Std.Utf8.{encode_utf8}
use nullpipe.Std.Text.{Text, lit, join}
use nullpipe.Std.Decimal.{display}
use nullpipe.Types.{PeerInfo}
use nullpipe.App.{App, Mode, bootstrap, running, shutting_down, truncate_onion, at_bottom}
use nullpipe.App.View.{render_messages}

pub data Color : Type 0 where
  red gray white dark_gray : Color

abbrev pub app_name : Text
app_name = lit "ephemeral-chat"

-- The code points of the ten pictures of the spinner.
abbrev pub spinner : List ℕ
spinner =
    0x280b ∷ 0x2819 ∷ 0x2839 ∷ 0x2838 ∷ 0x283c ∷ 0x2834 ∷ 0x2826 ∷ 0x2827 ∷ 0x2807 ∷ 0x280f ∷ []

abbrev with_onion : Option Text → Option Text
with_onion none = none
with_onion (some short) = some (app_name ++ lit " [" ++ short ++ lit "...]")

-- `none` is a panic: of a cut inside a character, or of an index out of range.
abbrev pub title : Option Text → Option Text
title none = some app_name
title (some addr) = with_onion (truncate_onion addr)

abbrev pub progress_line : ℕ → Text → Option ℕ → Option Text
progress_line progress msg none = none
progress_line progress msg (some c) =
    let picture = encode_utf8 c in
    some (
      if progress == 0
      then lit "  " ++ picture ++ lit "  " ++ msg
      else if ltb progress 100
      then lit "  " ++ picture ++ lit "  " ++ msg ++ lit "  " ++ display progress ++ lit "%"
      else lit "  " ++ picture ++ lit "  connecting...")

-- The clock counts milliseconds, and the spinner turns by one picture in a second.
unfoldable pub render_bootstrap : ℕ → App → ℕ → Text → Option Text
render_bootstrap now app progress msg =
    progress_line progress msg (get_elem? spinner ((now - app.bootstrap_start) / 1000 % 10))

-- What stands between the title and the status: the line of the bootstrap, or the messages and whether the mark
-- for more of them is shown.
pub data Body : Type 0 where
  starting : Text → Body
  chatting : List (Text × Text) → Bool → Body

abbrev pub starting? : Option Text → Option Body
starting? none = none
starting? (some line) = some (starting line)

abbrev pub chatting? : Bool → Option (List (Text × Text)) → Option Body
chatting? bottom none = none
chatting? bottom (some lines) = some (chatting lines (if bottom then false else true))

pub render_body : ℕ → ℕ → Mode → App → Option Body
unfolding render_bootstrap render_messages
render_body now height (bootstrap progress msg) app =
    starting? (render_bootstrap now app progress msg)
render_body now height running app = chatting? (at_bottom app) (render_messages height app)
render_body now height (shutting_down since) app =
    chatting? (at_bottom app) (render_messages height app)

abbrev pub names_of : List PeerInfo → Text
names_of [] = lit "no peers"
names_of (p ∷ ps) = lit "peers: " ++ join (lit ", ") (map (λ q. q.name) (p ∷ ps))

abbrev pub status_color : Mode → Color
status_color (bootstrap progress msg) = gray
status_color running = gray
status_color (shutting_down since) = red

abbrev pub render_status : App → Text × Color
render_status app = (names_of app.peers, status_color app.mode)

abbrev pub input_color : Mode → Bool → Color
input_color running true = white
input_color running false = dark_gray
input_color (bootstrap progress msg) focused = dark_gray
input_color (shutting_down since) focused = dark_gray

abbrev pub render_input : App → Text × Color
render_input app = (lit "> " ++ app.input, input_color app.mode app.input_focused)

pub data Screen : Type 0 where
  too_small : Text → Screen
  full : Text → Body → Text × Color → Text × Color → Screen

abbrev pub assemble : App → Option Text → Option Body → Option Screen
assemble app none body = none
assemble app (some top) none = none
assemble app (some top) (some body) = some (full top body (render_status app) (render_input app))

abbrev pub small_text : ℕ → ℕ → Text
small_text width height =
    lit "Terminal too small: "
    ++ display width
    ++ lit "x"
    ++ display height
    ++ lit " (need at least 10x4)"

pub render : ℕ → ℕ → ℕ → App → Option Screen
unfolding render_body
render now width height app =
    if ltb width 10 || ltb height 4
    then some (too_small (small_text width height))
    else assemble app (title app.onion) (render_body now (height - 3) app.mode app)
