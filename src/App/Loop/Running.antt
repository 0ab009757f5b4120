-- ===== src/App/Loop/Running.antt =====
-- How the loop of the terminal program goes on and ends.
use nullpipe.Common.{
  ap, ◌⊎◌, ◌++◌, ℕ, ◌+◌, ◌-◌, ◌≤◌, ◌<◌, ◌≡◌, refl, ◌∙◌, inl, inr, Bool, ◌&&◌, true, false,
  Bool-cases, some, List, [], ◌∷◌, arith, ltb, if◌then◌else◌,
}
use nullpipe.App.{App, quit_room, shutting_down}
use nullpipe.App.Keys.{is_c, KeyEvent, char}
use nullpipe.App.Keys.Editing.{IsLine, handle_key-shutting_down}
use nullpipe.App.Screen.Keeping.{IsDrawable}
use nullpipe.App.Screen.Drawing.{render-Shows}
use nullpipe.App.Loop.{
  Turn, key_turn, tick, take_turn, run_tui, Progress, waiting, left, panicked, leave, draw,
  check_deadline, after_turn, overdue, Drawing, not_begun, rendered, drawn, draw_next,
}
use nullpipe.App.Loop.Drawable.{IsTame, take_turn-IsDrawable, check_deadline-IsDrawable}
use nullpipe.App.Loop.Lines.{take_turn-IsLine, check_deadline-IsLine}

-- A state that has a good line and can be drawn.
abbrev pub IsGood : App → Type 0
IsGood app = IsLine app × IsDrawable app

-- What can be drawn is drawn, and either goes on or ends the loop.
draw_lem :
    (drawing : Drawing) (app : App)
    → IsDrawable app
    → (draw drawing app ≡ some app) ⊎ (draw drawing app ≡ some (record app { quit = true }))
unfolding draw
draw_lem not_begun app h = inr refl
draw_lem (rendered now width height taken) app h =
    let (screen, e, shows) = render-Shows now width height app h.0 h.1 in
    let shown : draw (rendered now width height taken) app
        ≡ some (if taken then app else record app { quit = true }) =
      ap (drawn taken app) e in
    elim (Bool-cases taken) [
      | inl t ↦ inl (shown ∙ (rw t refl))
      | inr f ↦ inr (shown ∙ (rw f refl))
    ]

-- The terminal takes what is rendered.
abbrev pub IsTaken : Drawing → Type 0
IsTaken not_begun = ⊥
IsTaken (rendered now width height taken) = taken ≡ true

taken-draw :
    (drawing : Drawing) (app : App) → IsTaken drawing → IsDrawable app → draw drawing app ≡ some app
unfolding draw
taken-draw not_begun app t h = elim t [ ]
taken-draw (rendered now width height taken) app t h =
    let (screen, e, shows) = render-Shows now width height app h.0 h.1 in
    ap (drawn taken app) e ∙ (rw t refl)

drawn-IsGood :
    (drawing : Drawing) (app : App)
    → IsGood app
    → (next : App) × (draw drawing app ≡ some next) × IsGood next
drawn-IsGood drawing app h = elim (draw_lem drawing app h.1) [
  | inl e ↦ (app, e, h)
  | inr e ↦ (record app { quit = true }, e, h)
]

-- One turn of the loop, from what the turn and the drawing lead to.
pub run_tui_step :
    (now : ℕ) (turn : Turn) (drawing : Drawing) (turns : List (ℕ × (Turn × Drawing)))
    (app next shown : App)
    → take_turn now turn app ≡ some next
    → draw drawing (check_deadline now next) ≡ some shown
    → run_tui ((now, (turn, drawing)) ∷ turns) app
      ≡ (if shown.quit then left (leave shown) else run_tui turns shown)
unfolding after_turn run_tui
run_tui_step now turn drawing turns app next shown went seen =
    let both : draw_next now drawing (take_turn now turn app) ≡ some shown =
      ap (draw_next now drawing) went ∙ seen in
    rw (both, run_tui) refl

abbrev pub AllTame : List (ℕ × (Turn × Drawing)) → Type 0
AllTame [] = Unit
AllTame ((now, (turn, drawing)) ∷ turns) = IsTame turn × AllTame turns

-- The loop goes on waiting or has ended with the room left.
abbrev pub HasLeft : Progress → Type 0
HasLeft (waiting app) = Unit
HasLeft (left app) = app.handle ≡ false
HasLeft panicked = ⊥

leave-handle : (app : App) → (leave app).handle ≡ false
leave-handle app = ground arith

chosen :
    (b : Bool) (app : App) (rest : Progress)
    → HasLeft rest
    → HasLeft (if b then left (leave app) else rest)
chosen true app rest h = leave-handle app
chosen false app rest h = h

-- While only ASCII is typed and onion addresses and the names of messages are ASCII, no sequence of keys, events,
-- command results and ticks, with whatever drawing behind each, makes the terminal program panic, in drawing
-- neither, from any state that can be drawn and whose line is ASCII with the cursor in it; and whenever its loop
-- ends it has let the room's handle go.
pub run_tui-HasLeft :
    (turns : List (ℕ × (Turn × Drawing))) (app : App)
    → AllTame turns
    → IsGood app
    → HasLeft (run_tui turns app)
unfolding run_tui
run_tui-HasLeft [] app t h = tt
run_tui-HasLeft ((now, (turn, drawing)) ∷ turns) app t h =
    let (next, went, line) = take_turn-IsLine now turn app t.0 h.0 in
    let seen = take_turn-IsDrawable now turn app next t.0 h.1 went in
    let (shown, e, good) =
      drawn-IsGood drawing (check_deadline now next)
        (check_deadline-IsLine now next line, check_deadline-IsDrawable now next seen) in
    rw (run_tui_step now turn drawing turns app next shown went e)
      (chosen shown.quit shown (run_tui turns shown) (run_tui-HasLeft turns shown t.1 good))

-- The loop has ended, the handle is gone, and the room was asked to quit if there was a handle, and nothing else.
abbrev pub HasAsked : App → Progress → Type 0
HasAsked app (waiting e) = ⊥
HasAsked app (left e) =
    (e.handle ≡ false)
    × (app.handle ≡ true → e.spawned ≡ app.spawned ++ quit_room ∷ [])
    × (app.handle ≡ false → e.spawned ≡ app.spawned)
HasAsked app panicked = ⊥

leave-HasAsked : (app : App) → HasAsked app (left (leave (record app { quit = true })))
leave-HasAsked app = elim (Bool-cases app.handle) [
  | inl e ↦ rw e (refl, λ h. refl, λ h. cc)
  | inr ne ↦ rw ne (refl, λ h. cc, λ h. refl)
]

turn_ends :
    (now : ℕ) (turn : Turn) (drawing : Drawing) (turns : List (ℕ × (Turn × Drawing)))
    (app next : App)
    → IsDrawable app
    → take_turn now turn app ≡ some next
    → check_deadline now next ≡ record app { quit = true }
    → HasAsked app (run_tui ((now, (turn, drawing)) ∷ turns) app)
turn_ends now turn drawing turns app next good went h =
    let quitting : App = record app { quit = true } in
    let seen : draw drawing quitting ≡ some quitting = elim (draw_lem drawing quitting good) [
      | inl e ↦ e
      | inr e ↦ e
    ] in
    rw (run_tui_step now turn drawing turns app next quitting went (ap (draw drawing) h ∙ seen))
      (leave-HasAsked app)

late :
    (now since : ℕ) (app : App)
    → app.mode ≡ shutting_down since
    → since + 5000 < now
    → check_deadline now app ≡ record app { quit = true }
late now since app hm lt =
    let over : ltb 5000 (now - since) ≡ true = ground arith in rw (hm, over) refl

early :
    (now since : ℕ) (app : App)
    → app.mode ≡ shutting_down since
    → now ≤ since + 5000
    → check_deadline now app ≡ app
early now since app hm le =
    let under : ltb 5000 (now - since) ≡ false = ground arith in rw (hm, under) refl

key_late :
    (now since : ℕ) (b : Bool) (app : App)
    → app.mode ≡ shutting_down since
    → since + 5000 < now
    → check_deadline now (if b then record app { quit = true } else app)
      ≡ record app { quit = true }
key_late now since true app hm lt = late now since (record app { quit = true }) hm lt
key_late now since false app hm lt = late now since app hm lt

quits :
    (now : ℕ) (app : App)
    → check_deadline now (record app { quit = true }) ≡ record app { quit = true }
quits now app = elim (Bool-cases (overdue now app.mode)) [ inl e ↦ rw e refl | inr ne ↦ rw ne refl ]

-- When the room has closed and the onion address and the names of messages are ASCII, a key without control
-- changes nothing for five seconds if the terminal takes what is drawn; after these any key or the next tick ends
-- the loop, and Ctrl-C ends it at once, whatever comes of the drawing. Whenever it ends so, the handle is gone,
-- and the room has been asked to quit, and nothing else, if there was a handle.
pub run_tui_closing :
    (now since : ℕ) (key : KeyEvent) (drawing : Drawing) (turns : List (ℕ × (Turn × Drawing)))
    (app : App)
    → app.mode ≡ shutting_down since
    → app.quit ≡ false
    → IsDrawable app
    → (since + 5000 < now → HasAsked app (run_tui ((now, (key_turn key, drawing)) ∷ turns) app))
      × (since + 5000 < now → HasAsked app (run_tui ((now, (tick, drawing)) ∷ turns) app))
      × (now ≤ since + 5000
          → key.control ≡ false
          → IsTaken drawing
          → run_tui ((now, (key_turn key, drawing)) ∷ turns) app ≡ run_tui turns app)
      × (key.code ≡ char 99
          → key.control ≡ true
          → HasAsked app (run_tui ((now, (key_turn key, drawing)) ∷ turns) app))
run_tui_closing now since key drawing turns app hm hq good =
    let b = is_c key.code && key.control in
    (
      λ lt.
          turn_ends now (key_turn key) drawing turns app _ good
            (handle_key-shutting_down now since key app hm) (key_late now since b app hm lt),
      λ lt. turn_ends now tick drawing turns app app good refl (late now since app hm lt),
      λ le hc taken.
          run_tui_step now (key_turn key) drawing turns app app app
            (handle_key-shutting_down now since key app hm
              ∙ (rw hc (unpressed (is_c key.code) app)))
            (ap (draw drawing) (early now since app hm le) ∙ taken-draw drawing app taken good)
          ∙ (rw hq refl),
      λ hk hc.
          turn_ends now (key_turn key) drawing turns app (record app { quit = true }) good
            (handle_key-shutting_down now since key app hm ∙ (rw (hk, hc) refl)) (quits now app),
    )
  where
    unpressed :
        (b : Bool) (app : App)
        → some (if b && false then record app { quit = true } else app) ≡ some app
    unpressed true app = refl
    unpressed false app = refl
