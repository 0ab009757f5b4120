-- ===== src/App/Screen/Keeping.antt =====
-- Events and commands of the terminal program keep its state one that can be drawn.
use nullpipe.Common.{
  ℕ, Bool, not, Option, none, some, List, [], true, false, All, All-append, if_both, arith, same,
}
use nullpipe.Std.Text.{Text, lit, is_empty, strip_prefix}
use nullpipe.Std.Whitespace.{split_whitespace}
use nullpipe.Std.Edits.{IsAscii}
use nullpipe.Types.{
  ChatEvent, message, peer_join, peer_leave, bootstrap_progress, room_ready, invite_created,
  room_closed, error,
}
use nullpipe.App.{
  App, running, push, note, handle_event, truncate_onion, ready, first_word, help, run_command,
  dispatch_command, send_line, send,
}
use nullpipe.App.Screen.Drawing.{IsPlainName, IsPlainOnion}

-- The names that are shown and the onion address are ASCII.
abbrev pub IsDrawable : App → Type 0
IsDrawable app = All IsPlainName app.msgs × IsPlainOnion app.onion

-- The names of messages and the onion address are ASCII.
abbrev pub IsTameEvent : ChatEvent → Type 0
IsTameEvent (message from name text) = IsAscii name
IsTameEvent (peer_join info) = Unit
IsTameEvent (peer_leave pid) = Unit
IsTameEvent (bootstrap_progress pct) = Unit
IsTameEvent (room_ready onion port) = IsAscii onion
IsTameEvent (invite_created code) = Unit
IsTameEvent room_closed = Unit
IsTameEvent (error e) = Unit

-- What a step leads to, if it does not panic, can be drawn.
abbrev pub Draws : Option App → Type 0
Draws none = Unit
Draws (some app) = IsDrawable app

system-IsAscii : IsAscii (lit "system")
unfolding lit
system-IsAscii =
    (omega arith, (omega arith, (omega arith, (omega arith, (omega arith, (omega arith, tt))))))

push-IsDrawable :
    (now : ℕ) (name text : Text) (system : Bool) (app : App)
    → IsAscii name
    → IsDrawable app
    → IsDrawable (push now name text system app)
push-IsDrawable now name text system app a h = (All-append IsPlainName app.msgs _ h.0 (a, tt), h.1)

pub note-IsDrawable :
    (now : ℕ) (text : Text) (app : App) → IsDrawable app → IsDrawable (note now text app)
note-IsDrawable now text app h = push-IsDrawable now (lit "system") text true app system-IsAscii h

pub handle_event-Draws :
    (now : ℕ) (ev : ChatEvent) (app : App)
    → IsTameEvent ev
    → IsDrawable app
    → Draws (handle_event now ev app)
unfolding handle_event
handle_event-Draws now (message from name text) app t h =
    push-IsDrawable now name text false app t h
handle_event-Draws now (peer_join info) app t h = note-IsDrawable now _ app h
handle_event-Draws now (peer_leave pid) app t h = note-IsDrawable now _ app h
handle_event-Draws now (bootstrap_progress pct) app t h = h
handle_event-Draws now (room_ready onion port) app t h = by_short (truncate_onion onion)
  where
    by_short : (o : Option Text) → Draws (ready now onion app o)
    by_short none = tt
    by_short (some short) =
        note-IsDrawable now _ (record app { onion = some onion; mode = running }) (h.0, t)
handle_event-Draws now (invite_created code) app t h = note-IsDrawable now _ app h
handle_event-Draws now room_closed app t h = note-IsDrawable now _ app h
handle_event-Draws now (error e) app t h = note-IsDrawable now _ app h

help-IsDrawable : (now : ℕ) (app : App) → IsDrawable app → IsDrawable (help now app)
help-IsDrawable now app h =
    let a₁ = note now (lit "available commands:") app in
    let a₂ = note now (lit "  /invite [name]  — generate an invite code") a₁ in
    let a₃ = note now (lit "  /peers         — list connected peers") a₂ in
    let a₄ = note now (lit "  /help          — show this help") a₃ in
    note-IsDrawable now (lit "  /quit          — leave the room") a₄ (
      note-IsDrawable now _ a₃
        (note-IsDrawable now _ a₂ (note-IsDrawable now _ a₁ (note-IsDrawable now _ app h))))

run_command-IsDrawable :
    (now : ℕ) (cmd : Text) (parts : List Text) (app : App)
    → IsDrawable app
    → IsDrawable (run_command now cmd parts app)
unfolding run_command
run_command-IsDrawable now cmd parts app h =
    if_both IsDrawable (same (first_word parts) (lit "invite")) h (
      if_both IsDrawable (same (first_word parts) (lit "peers")) h (
        if_both IsDrawable (same (first_word parts) (lit "quit")) h (
          if_both IsDrawable (same (first_word parts) (lit "help")) (help-IsDrawable now app h)
            (note-IsDrawable now _ app h))))

send_line-IsDrawable :
    (now : ℕ) (text : Text) (rest : Option Text) (app : App)
    → IsDrawable app
    → IsDrawable (send_line now text rest app)
unfolding send_line dispatch_command
send_line-IsDrawable now text none app h =
    if_both IsDrawable (is_empty text) h (if_both IsDrawable app.handle h h)
send_line-IsDrawable now text (some cmd) app h =
    if_both IsDrawable (not app.handle) (note-IsDrawable now _ app h) (
      if_both IsDrawable (not app.cmd_tx) (note-IsDrawable now _ app h)
        (run_command-IsDrawable now cmd (split_whitespace cmd) app h))

pub send-IsDrawable : (now : ℕ) (app : App) → IsDrawable app → IsDrawable (send now app)
unfolding send
send-IsDrawable now app h =
    send_line-IsDrawable now app.input (strip_prefix 47 app.input)
      (record app { input = []; cursor = 0; scroll = 0 }) h
