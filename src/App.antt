-- ===== src/App.antt =====
-- crates/cli/src/main.rs: the state of the terminal program and what changes it. `now` is the reading of the
-- clock. A result of `none` is a panic of a string operation.
pub mod Transcript
pub mod Keys
pub mod Loop
pub mod Headless
pub mod View
pub mod Names
pub mod Main
pub mod Screen
use nullpipe.Common.{
  ℕ, suc, ◌+◌, ◌-◌, ◌%◌, ◌^◌, Bool, true, false, not, ◌&&◌, ◌||◌, Option, none, some, List, [], ◌∷◌,
  ◌++◌, length, take, ltb, ◌==◌, same, if◌then◌else◌,
}
use nullpipe.Std.Text.{Text, lit, is_empty, strip_prefix}
use nullpipe.Std.Whitespace.{split_whitespace}
use nullpipe.Std.Edits.{is_char_boundary, insert_char, remove_char}
use nullpipe.Types.{
  PeerId, PeerInfo, ChatEvent, message, peer_join, peer_leave, bootstrap_progress, room_ready,
  invite_created, room_closed, error, to_string,
}
use nullpipe.PeerMap.{same_id}

pub record DispMsg : Type 0 where
  pub ts : Option ℕ
  pub name : Text
  pub text : Text
  pub system : Bool

pub data Mode : Type 0 where
  bootstrap : ℕ → Text → Mode
  running : Mode
  shutting_down : ℕ → Mode

-- A call of the room's handle, in a task of its own.
pub data Task : Type 0 where
  send_text : Text → Task
  make_invite : Option Text → Task
  list_peers quit_room : Task

-- `handle` and `cmd_tx` say whether they are set; `spawned` are the tasks, oldest first.
pub record App : Type 0 where
  pub mode : Mode
  pub handle : Bool
  pub msgs : List DispMsg
  pub input : Text
  pub cursor : ℕ
  pub scroll : ℕ
  pub onion : Option Text
  pub peers : List PeerInfo
  pub timestamps : Bool
  pub quit : Bool
  pub bootstrap_start : ℕ
  pub input_focused : Bool
  pub cmd_tx : Bool
  pub spawned : List Task

abbrev pub new : Bool → ℕ → App
new timestamps now = record {
  mode = bootstrap 0 (lit "starting tor...");
  handle = false;
  msgs = [];
  input = [];
  cursor = 0;
  scroll = 0;
  onion = none;
  peers = [];
  timestamps = timestamps;
  quit = false;
  bootstrap_start = now;
  input_focused = true;
  cmd_tx = false;
  spawned = [];
}

abbrev pub set_cmd_tx : App → App
set_cmd_tx app = record app { cmd_tx = true }

abbrev pub push : ℕ → Text → Text → Bool → App → App
push now name text system app = record app {
  msgs =
      app.msgs
      ++ record {
        ts = if app.timestamps then some now else none;
        name = name;
        text = text;
        system = system;
      }
        ∷ [];
}

abbrev pub note : ℕ → Text → App → App
note now text app = push now (lit "system") text true app

abbrev pub at_bottom : App → Bool
at_bottom app = app.scroll == 0

-- A cut inside a character panics.
unfoldable pub truncate_onion : Text → Option Text
truncate_onion addr =
    if ltb 12 (length addr)
    then (if is_char_boundary 12 addr then some (take 12 addr) else none)
    else some addr

abbrev pub has_peer : PeerId → List PeerInfo → Bool
has_peer id [] = false
has_peer id (p ∷ ps) = same_id p.id id || has_peer id ps

abbrev pub retain_not : PeerId → List PeerInfo → List PeerInfo
retain_not id [] = []
retain_not id (p ∷ ps) = let rest = retain_not id ps in if same_id p.id id then rest else p ∷ rest

abbrev progressed : ℕ → Mode → Mode
progressed pct (bootstrap progress msg) =
    bootstrap pct (if ltb pct 100 then lit "bootstrapping tor..." else msg)
progressed pct running = running
progressed pct (shutting_down since) = shutting_down since

abbrev started : Mode → Mode
started (bootstrap progress msg) = running
started running = running
started (shutting_down since) = shutting_down since

abbrev ready : ℕ → Text → App → Option Text → Option App
ready now onion_address app none = none
ready now onion_address app (some short) = some (
    note now (lit "room ready: " ++ short ++ lit "...")
      (record app { onion = some onion_address; mode = running }))

abbrev add_peer : PeerInfo → List PeerInfo → List PeerInfo
add_peer info ps = if has_peer info.id ps then ps else ps ++ info ∷ []

unfoldable pub handle_event : ℕ → ChatEvent → App → Option App
unfolding truncate_onion
handle_event now (bootstrap_progress pct) app = some (record app { mode = progressed pct app.mode })
handle_event now (room_ready onion_address port) app =
    ready now onion_address app (truncate_onion onion_address)
handle_event now (peer_join info) app = some (
    note now (info.name ++ lit " joined")
      (record app { peers = add_peer info app.peers; mode = started app.mode }))
handle_event now (peer_leave pid) app =
    some (note now (pid.text ++ lit " left") (record app { peers = retain_not pid app.peers }))
handle_event now (message from name text) app = some (push now name text false app)
handle_event now (invite_created code) app = some (note now (lit "new invite code: " ++ code) app)
handle_event now room_closed app =
    some (record (note now (lit "room closed") app) { mode = shutting_down now })
handle_event now (error e) app = some (note now (lit "error: " ++ to_string e) app)

abbrev pub spawn : Task → App → App
spawn task app = record app { spawned = app.spawned ++ task ∷ [] }

abbrev first_word : List Text → Text
first_word [] = []
first_word (w ∷ ws) = w

abbrev second_word : List Text → Option Text
second_word [] = none
second_word (v ∷ []) = none
second_word (v ∷ w ∷ ws) = some w

abbrev help : ℕ → App → App
help now app = note now (lit "  /quit          — leave the room") (
    note now (lit "  /help          — show this help") (
      note now (lit "  /peers         — list connected peers") (
        note now (lit "  /invite [name]  — generate an invite code")
          (note now (lit "available commands:") app))))

run_command : ℕ → Text → List Text → App → App
run_command now cmd parts app =
    if same (first_word parts) (lit "invite")
    then spawn (make_invite (second_word parts)) app
    else if same (first_word parts) (lit "peers")
    then spawn list_peers app
    else if same (first_word parts) (lit "quit")
    then spawn quit_room app
    else if same (first_word parts) (lit "help")
    then help now app
    else note now (lit "unknown command: /" ++ cmd) app

unfoldable pub dispatch_command : ℕ → Text → App → App
unfolding run_command
dispatch_command now cmd app =
    if not app.handle
    then note now (lit "room not ready") app
    else if not app.cmd_tx
    then note now (lit "command channel not ready") app
    else run_command now cmd (split_whitespace cmd) app

-- The text of `send`, and its rest if it starts with a slash.
send_line : ℕ → Text → Option Text → App → App
unfolding dispatch_command
send_line now text (some cmd) app = dispatch_command now cmd app
send_line now text none app =
    if is_empty text then app else if app.handle then spawn (send_text text) app else app

unfoldable pub send : ℕ → App → App
unfolding send_line
send now app =
    send_line now app.input (strip_prefix 47 app.input)
      (record app { input = []; cursor = 0; scroll = 0 })
