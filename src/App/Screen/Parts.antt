-- ===== src/App/Screen/Parts.antt =====
-- What the bootstrap's line, the status and the input show.
use nullpipe.Common.{
  ◌<◌, ◌++◌, ◌==◌, false, append_assoc, append-nil, ℕ, ◌-◌, ◌/◌, ◌%◌, ◌<◌, ◌≤◌, ◌≡◌, refl, sym, ap,
  ◌∙◌, inl, inr, true, Bool-cases, some, List, [], ◌∷◌, Bool, map, get_elem?-within, ltb, arith,
}
use nullpipe.Std.Utf8.{encode_utf8}
use nullpipe.Std.Decimal.{display}
use nullpipe.Types.{PeerInfo}
use nullpipe.Std.Text.{Text, lit, join}
use nullpipe.App.{App, Mode, bootstrap, running, shutting_down}
use nullpipe.App.Screen.{
  spinner, render_bootstrap, progress_line, render_status, render_input, Color, red, white,
  names_of, status_color, input_color,
}

-- The text stands in the line.
abbrev pub Contains : Text → Text → Type 0
Contains part line = (front : Text) × (back : Text) × (line ≡ front ++ (part ++ back))

-- The line of the bootstrap: its message until all is done, with the percentage once it moves.
abbrev pub ShowsProgress : ℕ → Text → Text → Type 0
ShowsProgress progress msg line =
    (progress < 100 → Contains msg line)
    × (0 < progress → progress < 100 → Contains (display progress ++ lit "%") line)
    × (100 ≤ progress → Contains (lit "connecting...") line)

at_end : (front part : Text) → front ++ part ≡ front ++ (part ++ [])
at_end front part = ap (λ t. front ++ t) (sym (append-nil part))

in_middle :
    (front part a b c : Text) → front ++ part ++ a ++ b ++ c ≡ front ++ (part ++ (a ++ b ++ c))
in_middle front part a b c = simp append_assoc refl

last_two : (front a b : Text) → front ++ a ++ b ≡ front ++ (a ++ b ++ [])
last_two front a b = simp (append_assoc, append-nil) refl

two_parts : lit "  connecting..." ≡ lit "  " ++ lit "connecting..."
unfolding lit
two_parts = refl

last_words :
    (front : Text)
    → front ++ lit "  connecting..." ≡ front ++ lit "  " ++ (lit "connecting..." ++ [])
last_words front =
    ap (λ t. front ++ t) two_parts
    ∙ rw (append-nil (lit "connecting..."))
        (sym (append_assoc front (lit "  ") (lit "connecting...")))

progress_line_shown :
    (progress c : ℕ) (msg : Text)
    → (line : Text) × (progress_line progress msg (some c) ≡ some line)
      × ShowsProgress progress msg line
progress_line_shown progress c msg = elim (Bool-cases (progress == 0)) [
  | inl e ↦ rw e (
    _,
    refl,
    (
      λ lt. (
        lit "  " ++ encode_utf8 c ++ lit "  ",
        [],
        at_end (lit "  " ++ encode_utf8 c ++ lit "  ") msg,
      ),
      λ up lt. absurd (ground arith),
      λ done. absurd (ground arith),
    ),
  )
  | inr ne ↦ elim (Bool-cases (ltb progress 100)) [
    | inl e ↦
        rw (ne, e)
          (
            _,
            refl,
            (
              λ lt. (
                lit "  " ++ encode_utf8 c ++ lit "  ",
                lit "  " ++ display progress ++ lit "%",
                in_middle (lit "  " ++ encode_utf8 c ++ lit "  ") msg (lit "  ") (display progress)
                    (lit "%"),
              ),
              λ up lt. (
                lit "  " ++ encode_utf8 c ++ lit "  " ++ msg ++ lit "  ",
                [],
                last_two (lit "  " ++ encode_utf8 c ++ lit "  " ++ msg ++ lit "  ")
                    (display progress) (lit "%"),
              ),
              λ done. absurd (ground arith),
            ),
          )
    | inr f ↦
        rw (ne, f)
          (
            _,
            refl,
            (
              λ lt. absurd (ground arith),
              λ up lt. absurd (ground arith),
              λ done. (
                lit "  " ++ encode_utf8 c ++ lit "  ",
                [],
                last_words (lit "  " ++ encode_utf8 c),
              ),
            ),
          )
  ]
]

pub render_bootstrap_shown :
    (now progress : ℕ) (msg : Text) (app : App)
    → (line : Text) × (render_bootstrap now app progress msg ≡ some line)
      × ShowsProgress progress msg line
unfolding render_bootstrap
render_bootstrap_shown now progress msg app =
    let turn : ℕ = (now - app.bootstrap_start) / 1000 % 10 in
    let (c, e) = get_elem?-within spinner turn (omega arith) in
    let (line, e', shows) = progress_line_shown progress c msg in
    (line, ap (progress_line progress msg) e ∙ e', shows)

-- The names, with a comma and a space between two of them.
abbrev pub listed : PeerInfo → List PeerInfo → Text
listed p [] = p.name
listed p (q ∷ ps) = p.name ++ (lit ", " ++ listed q ps)

abbrev pub peers_text : List PeerInfo → Text
peers_text [] = lit "no peers"
peers_text (p ∷ ps) = lit "peers: " ++ listed p ps

listed-join :
    (p : PeerInfo) (ps : List PeerInfo) → join (lit ", ") (map (λ q. q.name) (p ∷ ps)) ≡ listed p ps
listed-join p [] = refl
listed-join p (q ∷ ps) = ap (λ t. p.name ++ (lit ", " ++ t)) (listed-join q ps)

-- The names of the peers, in red exactly when the room has closed.
abbrev pub ShowsStatus : App → Text × Color → Type 0
ShowsStatus app status =
    (status.0 ≡ peers_text app.peers)
    × (status.1 ≡ red → (since : ℕ) × (app.mode ≡ shutting_down since))
    × ((since : ℕ) → app.mode ≡ shutting_down since → status.1 ≡ red)

-- The line that is typed, in white exactly when the room runs and the line has the focus.
abbrev pub ShowsInput : App → Text × Color → Type 0
ShowsInput app input =
    (input.0 ≡ lit "> " ++ app.input)
    × (input.1 ≡ white → (app.mode ≡ running) × (app.input_focused ≡ true))
    × (app.mode ≡ running → app.input_focused ≡ true → input.1 ≡ white)

names_shown : (ps : List PeerInfo) → names_of ps ≡ peers_text ps
names_shown [] = refl
names_shown (p ∷ ps) = ap (λ t. lit "peers: " ++ t) (listed-join p ps)

red_lem : (mode : Mode) → status_color mode ≡ red → (since : ℕ) × (mode ≡ shutting_down since)
red_lem (bootstrap progress msg) h = cc
red_lem running h = cc
red_lem (shutting_down since) h = (since, refl)

white_lem :
    (mode : Mode) (focused : Bool)
    → input_color mode focused ≡ white
    → (mode ≡ running) × (focused ≡ true)
white_lem (bootstrap progress msg) focused h = cc
white_lem running true h = (refl, refl)
white_lem running false h = cc
white_lem (shutting_down since) focused h = cc

pub render_status-ShowsStatus : (app : App) → ShowsStatus app (render_status app)
render_status-ShowsStatus app = (names_shown app.peers, red_lem app.mode, λ since h. rw h refl)

pub render_input-ShowsInput : (app : App) → ShowsInput app (render_input app)
render_input-ShowsInput app =
    (refl, white_lem app.mode app.input_focused, λ h focused. rw (h, focused) refl)
