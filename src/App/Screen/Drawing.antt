-- ===== src/App/Screen/Drawing.antt =====
-- Drawing does not panic, and what is drawn.
use nullpipe.Common.{
  ◌<◌, take, false, ℕ, ◌-◌, ◌<◌, ◌≤◌, ◌≡◌, refl, ap, inl, inr, true, ◌||◌, Bool-cases, Option, none,
  some, List, [], ◌∷◌, if◌then◌else◌, All, All-take, All-drop, map, ◌⊎◌, length, if_both, ltb,
  arith,
}
use nullpipe.Std.Text.{Text}
use nullpipe.Std.Edits.{IsAscii, is_char_boundary_ascii}
use nullpipe.App.{truncate_onion, App, DispMsg, Mode, bootstrap, running, shutting_down, at_bottom}
use nullpipe.App.View.{visible, short_name, prefix, with_text, bracketed, lines_of, render_messages}
use nullpipe.App.Screen.{
  title, Body, render_body, Screen, render, assemble, chatting?, starting?, starting, chatting,
  too_small, small_text, full, render_status, render_input,
}
use nullpipe.App.Screen.Parts.{
  ShowsProgress, render_bootstrap_shown, ShowsStatus, ShowsInput, render_status-ShowsStatus,
  render_input-ShowsInput,
}

-- The names that are shown and the onion address are ASCII.
abbrev pub IsPlainName : DispMsg → Type 0
IsPlainName m = IsAscii m.name

abbrev pub IsPlainOnion : Option Text → Type 0
IsPlainOnion none = Unit
IsPlainOnion (some addr) = IsAscii addr

pub truncate_onion_ascii :
    (onion : Text) → IsAscii onion → (short : Text) × (truncate_onion onion ≡ some short)
unfolding truncate_onion
truncate_onion_ascii onion h = elim (Bool-cases (ltb 12 (length onion))) [
  | inl e ↦ rw (e, is_char_boundary_ascii 12 onion h (ground arith)) (take 12 onion, refl)
  | inr ne ↦ rw ne (onion, refl)
]

short_name_ascii : (name : Text) → IsAscii name → (short : Text) × (short_name name ≡ some short)
unfolding short_name
short_name_ascii name h = elim (Bool-cases (ltb 20 (length name))) [
  | inl e ↦ rw (e, is_char_boundary_ascii 17 name h (ground arith)) (_, refl)
  | inr ne ↦ rw ne (name, refl)
]

title_shown : (o : Option Text) → IsPlainOnion o → (t : Text) × (title o ≡ some t)
title_shown none h = (_, refl)
title_shown (some addr) h = let (short, e) = truncate_onion_ascii addr h in rw e (_, refl)

prefix_shown : (m : DispMsg) → IsPlainName m → (p : Text) × (prefix m ≡ some p)
prefix_shown m h =
    let (short, e) = short_name_ascii m.name h in
    if_both (λ o. (p : Text) × (o ≡ some p)) m.system (_, refl) (_, ap bracketed e)

with_text_shown :
    (text p : Text) (ls : List (Text × Text)) (o : Option Text) (rest : Option (List (Text × Text)))
    → o ≡ some p
    → rest ≡ some ls
    → with_text text o rest ≡ some ((p, text) ∷ ls)
with_text_shown text p ls o rest e e' = rw (e, e') refl

-- One line for each message, with its text.
lines_shown :
    (ms : List DispMsg)
    → All IsPlainName ms
    → (ls : List (Text × Text)) × (lines_of ms ≡ some ls)
      × (map (λ l. l.1) ls ≡ map (λ m. m.text) ms)
lines_shown [] h = ([], refl, refl)
lines_shown (m ∷ ms) h =
    let (p, e) = prefix_shown m h.0 in
    let (ls, rest, texts) = lines_shown ms h.1 in
    (
      (p, m.text) ∷ ls,
      with_text_shown m.text p ls (prefix m) (lines_of ms) e rest,
      ap (λ l. m.text ∷ l) texts,
    )

render_messages_shown :
    (height : ℕ) (app : App)
    → All IsPlainName app.msgs
    → (ls : List (Text × Text)) × (render_messages height app ≡ some ls)
      × (map (λ l. l.1) ls ≡ map (λ m. m.text) (visible height app))
unfolding render_messages visible
render_messages_shown height app h =
    lines_shown _ (All-take IsPlainName _ _ (All-drop IsPlainName _ app.msgs h))

-- The texts of the messages in the window of this height, in their order, and the mark for more of them exactly when the
-- window is not at the end.
abbrev pub ShowsChat : ℕ → App → Body → Type 0
ShowsChat height app (starting line) = ⊥
ShowsChat height app (chatting ls more) =
    (map (λ l. l.1) ls ≡ map (λ m. m.text) (visible height app))
    × (more ≡ true → 0 < app.scroll)
    × (0 < app.scroll → more ≡ true)

-- What the body shows in this mode.
abbrev pub ShowsBody : ℕ → Mode → App → Body → Type 0
ShowsBody height (bootstrap progress msg) app (starting line) = ShowsProgress progress msg line
ShowsBody height (bootstrap progress msg) app (chatting ls more) = ⊥
ShowsBody height running app body = ShowsChat height app body
ShowsBody height (shutting_down since) app body = ShowsChat height app body

render_chat_shown :
    (height : ℕ) (app : App)
    → All IsPlainName app.msgs
    → (b : Body) × (chatting? (at_bottom app) (render_messages height app) ≡ some b)
      × ShowsChat height app b
render_chat_shown height app h =
    let (ls, e, texts) = render_messages_shown height app h in
    (
      chatting ls (if at_bottom app then false else true),
      ap (chatting? (at_bottom app)) e,
      (texts, λ more. ground arith, λ up. ground arith),
    )

render_body_shown :
    (now height : ℕ) (mode : Mode) (app : App)
    → All IsPlainName app.msgs
    → (b : Body) × (render_body now height mode app ≡ some b) × ShowsBody height mode app b
unfolding render_body
render_body_shown now height (bootstrap progress msg) app h =
    let (line, e, shows) = render_bootstrap_shown now progress msg app in
    (starting line, ap starting? e, shows)
render_body_shown now height running app h = render_chat_shown height app h
render_body_shown now height (shutting_down since) app h = render_chat_shown height app h

-- A screen too small says so; any other shows the messages of the window, the peers and the line that is typed.
abbrev pub Shows : ℕ → ℕ → App → Screen → Type 0
Shows width height app (too_small t) = (width < 10) ⊎ (height < 4)
Shows width height app (full top body status input) =
    (10 ≤ width)
    × (4 ≤ height)
    × ShowsBody (height - 3) app.mode app body
    × ShowsStatus app status
    × ShowsInput app input

too_small_lem :
    (width height : ℕ) → ltb width 10 || ltb height 4 ≡ true → (width < 10) ⊎ (height < 4)
too_small_lem width height h = elim (Bool-cases (ltb width 10)) [
  | inl narrow ↦ inl (ground arith)
  | inr wide ↦ inr (ground arith)
]

assemble_shown :
    (app : App) (top : Text) (body : Body) (t : Option Text) (b : Option Body)
    → t ≡ some top
    → b ≡ some body
    → assemble app t b ≡ some (full top body (render_status app) (render_input app))
assemble_shown app top body t b e e' = rw (e, e') refl

pub render-Shows :
    (now width height : ℕ) (app : App)
    → All IsPlainName app.msgs
    → IsPlainOnion app.onion
    → (s : Screen) × (render now width height app ≡ some s) × Shows width height app s
unfolding render
render-Shows now width height app names onion =
    let (top, t) = title_shown app.onion onion in
    let (body, b, seen) = render_body_shown now (height - 3) app.mode app names in
    elim (Bool-cases (ltb width 10 || ltb height 4)) [
      | inl small ↦
          (too_small (small_text width height), rw small refl, too_small_lem width height small)
      | inr large ↦ (
        full top body (render_status app) (render_input app),
        rw large (assemble_shown app top body (title app.onion) _ t b),
        (
          ground arith,
          ground arith,
          seen,
          render_status-ShowsStatus app,
          render_input-ShowsInput app,
        ),
      )
    ]
