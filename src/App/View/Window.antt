-- ===== src/App/View/Window.antt =====
-- Which messages are in the window.
use Prim.Native.Nat.{min}
use nullpipe.Common.{
  ℕ, ◌-◌, ◌≡◌, sym, ap, ◌∙◌, List, ◌++◌, length, take, drop, length-take, length-drop,
  take-append-drop, arith,
}
use nullpipe.App.{App, DispMsg}
use nullpipe.App.View.{visible_end, visible_start, visible}

-- The window is a part of the messages without a gap: behind it stand the messages that are scrolled away, all of
-- them if the scroll position is beyond the first message, and it holds as many of the others as fit, the last ones.
pub visible-window :
    (height : ℕ) (app : App)
    → let total = length app.msgs in
      (before after : List DispMsg) × (app.msgs ≡ before ++ (visible height app ++ after))
      × (length (visible height app) ≡ min height (total - app.scroll))
      × (length after ≡ min app.scroll total)
unfolding visible visible_start visible_end
visible-window height app =
    let total : ℕ = length app.msgs in
    let end : ℕ = total - app.scroll in
    let start : ℕ = end - height in
    let rest : List DispMsg = drop start app.msgs in
    (
      take start app.msgs,
      drop (end - start) rest,
      sym (take-append-drop start app.msgs)
          ∙ ap (λ l. take start app.msgs ++ l) (sym (take-append-drop (end - start) rest)),
      omega (arith, length-take (end - start) rest, length-drop start app.msgs),
      omega (arith, length-drop (end - start) rest, length-drop start app.msgs),
    )
