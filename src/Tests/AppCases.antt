-- ===== src/Tests/AppCases.antt =====
-- The theorems on the terminal program at concrete keys, events and lines.
use Prim.Native.Nat.{min, ◌-◌}
use nullpipe.App.View.{visible}
use nullpipe.App.View.Window.{visible-window}
use nullpipe.App.{DispMsg}
use nullpipe.Common.{length, inl}
use nullpipe.Common.{
  ℕ, ◌+◌, ◌≤◌, ◌<◌, ◌≡◌, ◌≢◌, refl, [], ◌∷◌, ◌++◌, List, none, some, false, true, Bool, same, arith,
}
use nullpipe.Std.Text.{Text, lit, strip_prefix}
use nullpipe.Std.Edits.{IsAscii}
use nullpipe.Types.{ChatEvent, message, room_ready, peer_join, peer_leave, PeerId, PeerInfo}
use nullpipe.App.{App, running, shutting_down, handle_event, send_text, list_peers, quit_room, Task}
use nullpipe.App
use nullpipe.App.Keys.{char, enter, plain}
use nullpipe.App.Keys.Editing.{IsLine}
use nullpipe.App.Keys.Typing.{press, line_keys, press-line_keys_sends}
use nullpipe.App.Transcript.{receive, chats, chat_events, present, receive-chats}
use nullpipe.App.Loop.{key_turn, event_turn, tick, run_tui, Turn, Drawing, rendered, not_begun}
use nullpipe.App.Loop.Running.{HasAsked, HasLeft, run_tui-HasLeft, run_tui_closing}
use mathlib.Core.List.{Perm, perm_middle}
use mathlib.Core.List.Perm
use nullpipe.Room.Handle.{RoomInner}
use nullpipe.Std.Whitespace.{trim, white_len, split_whitespace}
use nullpipe.App.Headless.Racing.{run_tasks, AllTaken, run_headless_takes}
use nullpipe.App.Headless.{take_turn, handle_line, slash_or_text, command, run_headless, line_turn}
use nullpipe.App.Headless
use nullpipe.App.Headless.Sending.{wanted, texts}

abbrev word : Text
word = b'h' ∷ b'o' ∷ []

-- A program that shows a running room, with this line.
abbrev app_with : Text → ℕ → App
app_with input cursor = record {
  mode = running;
  handle = true;
  msgs = [];
  input = input;
  cursor = cursor;
  scroll = 3;
  onion = none;
  peers = [];
  timestamps = false;
  quit = false;
  bootstrap_start = 0;
  input_focused = true;
  cmd_tx = true;
  spawned = [];
}

word-IsAscii : IsAscii word
word-IsAscii = (omega arith, (omega arith, tt))

word-IsLine : IsLine (app_with word 1)
word-IsLine = (word-IsAscii, omega arith)

press-line_keys_sends_example :
    (word ≢ []
      → strip_prefix 47 word ≡ none
      → press 0 (line_keys word) (app_with [] 0)
        ≡ some (record (app_with [] 0) {
          input = [];
          cursor = 0;
          scroll = 0;
          spawned = send_text word ∷ [];
        }))
    × (press 0 (line_keys []) (app_with [] 0)
        ≡ some (record (app_with [] 0) { input = []; cursor = 0; scroll = 0 }))
press-line_keys_sends_example =
    press-line_keys_sends 0 word (app_with [] 0) refl refl refl refl word-IsAscii

abbrev bob : PeerInfo
bob = record { id = record { text = b'b' ∷ [] }; name = word; joined_at = 0 }

abbrev events : List ChatEvent
events = peer_join bob ∷ message bob.id word word ∷ peer_leave bob.id ∷ []

abbrev after_events : App
after_events = record (app_with [] 0) {
  msgs =
      record { ts = none; name = lit "system"; text = word ++ lit " joined"; system = true }
      ∷ record { ts = none; name = word; text = word; system = false }
      ∷ record { ts = none; name = lit "system"; text = b'b' ∷ lit " left"; system = true }
      ∷ [];
}

events_received : receive 0 events (app_with [] 0) ≡ some after_events
unfolding receive handle_event same
events_received = refl

receive-chats_example :
    (chats after_events.msgs ≡ chats [] ++ chat_events events)
    × ((id : PeerId) → App.has_peer id [] ≡ present id (App.has_peer id []) events)
receive-chats_example = receive-chats 0 events (app_with [] 0) after_events events_received

abbrev wide : Drawing
wide = rendered 0 80 24 true

abbrev tui_turns : List (ℕ × (Turn × Drawing))
tui_turns =
    (0, (key_turn (plain (char 33)), wide))
    ∷ (1, (event_turn (room_ready word 80), rendered 1 9 3 true))
    ∷ (2, (event_turn (message bob.id word (0xc3 ∷ 0xa9 ∷ [])), wide))
    ∷ (3, (tick, not_begun))
    ∷ []

run_tui-HasLeft_example : HasLeft (run_tui tui_turns (app_with word 1))
run_tui-HasLeft_example =
    run_tui-HasLeft tui_turns (app_with word 1)
      (omega arith, (word-IsAscii, (word-IsAscii, (tt, tt)))) (word-IsLine, (tt, tt))

abbrev closing : App
closing = record (app_with word 1) { mode = shutting_down 100 }

run_tui_closing_example :
    let key = plain enter in
    (100 + 5000 < 5200 → HasAsked closing (run_tui ((5200, (key_turn key, wide)) ∷ []) closing))
    × (100 + 5000 < 5200 → HasAsked closing (run_tui ((5200, (tick, wide)) ∷ []) closing))
    × (5200 ≤ 100 + 5000
        → false ≡ false
        → ◌≡◌ {A = Bool} true true
        → run_tui ((5200, (key_turn key, wide)) ∷ []) closing ≡ run_tui [] closing)
    × (enter ≡ char 99
        → false ≡ true
        → HasAsked closing (run_tui ((5200, (key_turn key, wide)) ∷ []) closing))
run_tui_closing_example = run_tui_closing 5200 100 (plain enter) wide [] closing refl refl (tt, tt)

abbrev headless_turns : List Headless.Turn
headless_turns =
    line_turn (lit "early")
    ∷ Headless.event_turn (room_ready word 80)
    ∷ line_turn (lit " hello ")
    ∷ line_turn (lit "you")
    ∷ line_turn (lit "/peers")
    ∷ line_turn (lit "/quit")
    ∷ line_turn (lit "late")
    ∷ []

abbrev headless_console : Headless.Console
headless_console = record {
  ready = true;
  out = (lit "\n[system] room ready: " ++ word ++ lit "...") ∷ [];
  err = [];
  spawned = send_text (lit "hello") ∷ send_text (lit "you") ∷ list_peers ∷ quit_room ∷ [];
}

headless_ends : run_headless headless_turns Headless.start ≡ Headless.left headless_console
unfolding run_headless take_turn handle_line handle_event slash_or_text command lit trim same
    strip_prefix white_len split_whitespace
headless_ends = refl

-- The second text overtakes the first one and the room is quit between them.
abbrev headless_order : List (Task × Bool)
headless_order =
    (send_text (lit "you"), true) ∷ (quit_room, true) ∷ (send_text (lit "hello"), true) ∷ []

headless_order-Perm :
    Perm
      (send_text (lit "you") ∷ quit_room ∷ send_text (lit "hello") ∷ list_peers ∷ [])
      headless_console.spawned
headless_order-Perm =
    Perm.trans (perm_middle (send_text (lit "you") ∷ quit_room ∷ []) (list_peers ∷ []))
      (Perm.cons (send_text (lit "hello")) (Perm.cons (send_text (lit "you")) (Perm.swap _ _ _)))

abbrev room : RoomInner
room = record {
  sent = [];
  shutdown = false;
  invite_info = none;
  peer_map = [];
  quit_flag = false;
  tor = true;
  name = word;
}

run_headless_takes_example :
    (got : List Text) × (missed : List Text) × ((run_tasks headless_order room).sent ≡ [] ++ got)
    × Perm (got ++ missed) (wanted false headless_turns)
    × (AllTaken headless_order → false ≡ false → missed ≡ texts (list_peers ∷ []))
run_headless_takes_example =
    run_headless_takes headless_turns headless_console headless_order (list_peers ∷ []) room
      (inl headless_ends) headless_order-Perm

visible-window_example :
    let total = length after_events.msgs in
    (before after : List DispMsg) × (after_events.msgs
      ≡ before ++ (visible 2 after_events ++ after))
    × (length (visible 2 after_events) ≡ min 2 (total - after_events.scroll))
    × (length after ≡ min after_events.scroll total)
visible-window_example = visible-window 2 after_events
