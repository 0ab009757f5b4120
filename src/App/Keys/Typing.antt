-- ===== src/App/Keys/Typing.antt =====
-- From keys to a text that is sent.
use nullpipe.Common.{
  ℕ, suc, ◌+◌, ◌<◌, ◌≡◌, ◌≢◌, refl, sym, ap, ◌∙◌, true, Option, none, some, List, [], ◌∷◌, ◌++◌,
  append_assoc, append-nil, All-append, length, take, drop, arith, length-append,
}
use nullpipe.Std.Text.{Text, strip_prefix}
use nullpipe.Std.Edits.{IsAscii, insert_char_ascii}
use nullpipe.App.{App, running, send, send_line, send_text}
use nullpipe.App.Keys.{KeyEvent, char, enter, handle_key, edit, plain}
use nullpipe.App.Keys.Editing.{handle_key-running}

-- Key after key, until one panics.
unfoldable pub press : ℕ → List KeyEvent → App → Option App
press now [] app = some app
press now (key ∷ keys) app = elim (handle_key now key app) [
  | none ↦ none
  | some next ↦ press now keys next
]

pub press_step :
    (now : ℕ) (key : KeyEvent) (keys : List KeyEvent) (app next : App)
    → handle_key now key app ≡ some next
    → press now (key ∷ keys) app ≡ press now keys next
unfolding press
press_step now key keys app next h = rw (h, press) refl

-- The keys of a text, and the enter key.
abbrev pub line_keys : Text → List KeyEvent
line_keys [] = plain enter ∷ []
line_keys (c ∷ text) = plain (char c) ∷ line_keys text

take_all : (s t : Text) → take (length s) s ++ t ≡ s ++ t
take_all [] t = refl
take_all (x ∷ s) t = ap (◌∷◌ x) (take_all s t)

drop_all : (s : Text) → drop (length s) s ≡ []
drop_all [] = refl
drop_all (x ∷ s) = drop_all s

types_char :
    (now c : ℕ) (app : App)
    → app.mode ≡ running
    → IsAscii app.input
    → c < 0x80
    → app.cursor ≡ length app.input
    → handle_key now (plain (char c)) app
      ≡ some (record app { input = app.input ++ c ∷ []; cursor = app.cursor + 1 })
unfolding edit
types_char now c app hm h hc at =
    let whole : take app.cursor app.input ++ c ∷ drop app.cursor app.input ≡ app.input ++ c ∷ [] =
      rw (at, drop_all app.input) (take_all app.input (c ∷ [])) in
    handle_key-running now (plain (char c)) app hm refl
    ∙ (rw (insert_char_ascii app.cursor c app.input h hc (omega arith), whole) refl)

enters :
    (now : ℕ) (app : App)
    → app.mode ≡ running
    → handle_key now (plain enter) app ≡ some (send now app)
unfolding edit
enters now app hm = handle_key-running now (plain enter) app hm refl

press-line_keys :
    (now : ℕ) (text : Text) (app : App)
    → app.mode ≡ running
    → IsAscii app.input
    → IsAscii text
    → app.cursor ≡ length app.input
    → press now (line_keys text) app
      ≡ some
          (send now (record app { input = app.input ++ text; cursor = length (app.input ++ text) }))
unfolding press
press-line_keys now [] app hm h ht at =
    press_step now (plain enter) [] app (send now app) (enters now app hm)
    ∙ (rw (append-nil app.input, sym at) refl)
press-line_keys now (c ∷ text) app hm h ht at =
    let app₁ : App = record app { input = app.input ++ c ∷ []; cursor = app.cursor + 1 } in
    let long : length (app.input ++ c ∷ []) ≡ app.cursor + 1 =
      omega (arith, length-append app.input (c ∷ [])) in
    press_step now (plain (char c)) (line_keys text) app app₁ (types_char now c app hm h ht.0 at)
    ∙ press-line_keys now text app₁ hm (All-append (λ b. b < 0x80) app.input (c ∷ []) h (ht.0, tt))
        ht.1 (sym long)
    ∙ (rw (append_assoc app.input (c ∷ []) text) refl)

sends-text :
    (now c : ℕ) (text : Text) (app : App)
    → app.handle ≡ true
    → strip_prefix 47 (c ∷ text) ≡ none
    → send now (record app { input = c ∷ text }) ≡ record app {
      input = [];
      cursor = 0;
      scroll = 0;
      spawned = app.spawned ++ send_text (c ∷ text) ∷ [];
    }
unfolding send send_line strip_prefix
sends-text now c text app hh plain_text = rw (plain_text, hh) refl

-- Typing a text of ASCII into an empty line and pressing enter asks the room to send exactly that text, once, and
-- leaves an empty line at the bottom of the messages; a text that is empty or that starts with a slash is not sent.
pub press-line_keys_sends :
    (now : ℕ) (text : Text) (app : App)
    → app.mode ≡ running
    → app.handle ≡ true
    → app.input ≡ []
    → app.cursor ≡ 0
    → IsAscii text
    → (text ≢ []
        → strip_prefix 47 text ≡ none
        → press now (line_keys text) app
          ≡ some (record app {
            input = [];
            cursor = 0;
            scroll = 0;
            spawned = app.spawned ++ send_text text ∷ [];
          }))
      × (press now (line_keys []) app ≡ some (record app { input = []; cursor = 0; scroll = 0 }))
unfolding send send_line strip_prefix
press-line_keys_sends now text app hm hh hi hc ht =
    let h : IsAscii app.input = rw hi tt in
    let at : app.cursor ≡ length app.input = rw hi hc in
    let whole : app.input ++ text ≡ text = ap (λ s. s ++ text) hi in
    let none_typed : app.input ++ [] ≡ [] = ap (λ s. s ++ []) hi in
    (
      λ ne plain_text.
          press-line_keys now text app hm h ht at
          ∙ (rw whole (ap some (sends-whole now text app hh ne plain_text))),
      press-line_keys now [] app hm h tt at ∙ (rw none_typed refl),
    )
  where
    sends-whole :
        (now : ℕ) (text : Text) (app : App)
        → app.handle ≡ true
        → text ≢ []
        → strip_prefix 47 text ≡ none
        → send now (record app { input = text; cursor = length text }) ≡ record app {
          input = [];
          cursor = 0;
          scroll = 0;
          spawned = app.spawned ++ send_text text ∷ [];
        }
    sends-whole now [] app hh ne plain_text = ground arith
    sends-whole now (c ∷ text) app hh ne plain_text =
        sends-text now c text (record app { cursor = suc (length text) }) hh plain_text
