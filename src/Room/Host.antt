-- ===== src/Room/Host.antt =====
-- `run_host_loop` and `host_task` of crates/core/src/room.rs, with their mock variants. What the `select!` of the
-- main loop picks is a turn; a loop with no turn left is waiting. `broadcasts` is what was put on the broadcast channel.
pub mod Mock
pub mod Serving
pub mod Ending
use nullpipe.Common.{
  ℕ, Bool, true, false, Option, none, some, List, [], ◌∷◌, ◌++◌, Result, ok, err, if◌then◌else◌,
}
use nullpipe.Std.Text.{Text, lit}
use nullpipe.Types.{
  ChatError, connection, ChatEvent, message, room_ready, room_closed, error, PeerId, HostConfig,
}
use nullpipe.Room.Tasks.{stored, client_of}
use nullpipe.External.Channels.{Sender}
use nullpipe.Wire.{WireMessage, MessageType, chat, system, ping, pong, chat_message}
use nullpipe.Bootstrap.{TorBootstrap}
use nullpipe.Room.Handle.{InviteInfo}

-- `none` is the end of the channel.
pub data Turn : Type 0 where
  shutdown : Turn
  outgoing : Option Text → Turn
  incoming : Option (PeerId × WireMessage) → Turn

abbrev pub hub_id : PeerId
hub_id = record { text = lit "[hub]" }

abbrev pub is_chat : MessageType → Bool
is_chat chat = true
is_chat system = false
is_chat ping = false
is_chat pong = false

module _ (sender : Sender) (config : HostConfig) where
  open sender use {Channel, try_send, send}

  pub record Hosting : Type 0 where
    pub channel : Channel
    pub broadcasts : List WireMessage
    pub invite_info : Option InviteInfo

  pub data Progress : Type 0 where
    waiting finished : Hosting → Progress

  abbrev try_emit : ChatEvent → Hosting → Hosting
  try_emit e h = record h { channel = (try_send e h.channel).1 }

  abbrev emit : ChatEvent → Hosting → Hosting
  emit e h = record h { channel = (send e h.channel).1 }

  abbrev pub speak : Text → Hosting → Hosting
  speak text h = record (try_emit (message hub_id config.name text) h) {
    broadcasts = h.broadcasts ++ chat_message config.name text ∷ [];
  }

  abbrev pub hear : PeerId → WireMessage → Hosting → Hosting
  hear peer_id m h = if is_chat m.kind then try_emit (message peer_id m.name m.text) h else h

  unfoldable pub serve : List Turn → Hosting → Progress
  serve [] h = waiting h
  serve (shutdown ∷ turns) h = finished (try_emit room_closed h)
  serve (outgoing none ∷ turns) h = finished h
  serve (outgoing (some text) ∷ turns) h = serve turns (speak text h)
  serve (incoming none ∷ turns) h = finished h
  serve (incoming (some (peer_id, m)) ∷ turns) h = serve turns (hear peer_id m h)

  -- Without a room: texts are thrown away until the end. Nothing comes in.
  unfoldable pub wait_out : List Turn → Hosting → Progress
  wait_out [] h = waiting h
  wait_out (shutdown ∷ turns) h = finished (try_emit room_closed h)
  wait_out (outgoing none ∷ turns) h = finished h
  wait_out (outgoing (some text) ∷ turns) h = wait_out turns h
  wait_out (incoming m ∷ turns) h = wait_out turns h

  abbrev opened : Text → Hosting → Hosting
  opened onion_address h = record (emit (room_ready onion_address 80) h) {
    invite_info =
        some
          (record { onion_address = onion_address; port = 80; ttl_secs = config.invite_ttl_secs });
  }

  -- The address of the onion service, or the error of its creation.
  pub run_host_loop : Result Text ChatError → List Turn → Hosting → Progress
  unfolding serve wait_out
  run_host_loop (err e) turns h = wait_out turns (emit (error e) h)
  run_host_loop (ok onion_address) turns h = serve turns (opened onion_address h)

  abbrev pub mock_address : Text
  mock_address = lit "mock://test-room"

  pub run_host_loop_mock : List Turn → Hosting → Progress
  run_host_loop_mock [] h = waiting h
  run_host_loop_mock (shutdown ∷ turns) h = finished (try_emit room_closed h)
  run_host_loop_mock (outgoing none ∷ turns) h = finished h
  run_host_loop_mock (outgoing (some text) ∷ turns) h =
      run_host_loop_mock turns (record (try_emit (message hub_id config.name text) h) {
        broadcasts = h.broadcasts ++ chat_message config.name text ∷ [];
      })
  run_host_loop_mock (incoming none ∷ turns) h = finished h
  run_host_loop_mock (incoming (some (peer_id, m)) ∷ turns) h =
      run_host_loop_mock turns
        (if is_chat m.kind then try_emit (message peer_id m.name m.text) h else h)

  pub host_task_mock : List Turn → Hosting → Progress
  unfolding run_host_loop_mock
  host_task_mock turns h = run_host_loop_mock turns (record (emit (room_ready mock_address 80) h) {
    invite_info =
        some
          (record { onion_address = mock_address; port = 80; ttl_secs = config.invite_ttl_secs });
  })

  module _ (C : Type 0) where
    -- The host's task: the room, and the Tor client that the handle shares.
    pub record HostTask : Type 0 where
      pub progress : Progress
      pub tor : Option (TorBootstrap C)

    -- When the loop has ended, the client is let go.
    abbrev clean_up : Option (TorBootstrap C) → Progress → HostTask
    clean_up tor (waiting h) = record { progress = waiting h; tor = tor }
    clean_up tor (finished h) = record { progress = finished h; tor = none }

    abbrev with_client :
        (C → Result Text ChatError)
        → List Turn
        → Option (TorBootstrap C)
        → Option C
        → Hosting
        → HostTask
    with_client room turns tor none h = record {
      progress = finished (emit (error (connection (lit "Tor client not available"))) h);
      tor = tor;
    }
    with_client room turns tor (some c) h = clean_up tor (run_host_loop (room c) turns h)

    -- On what `bootstrap_with_shutdown` returned, with whether the handle quits after the bootstrap is stored and before
    -- the client is looked up, and the onion service that a client gives.
    pub host_task :
        (C → Result Text ChatError)
        → Option (TorBootstrap C)
        → Bool
        → List Turn
        → Hosting
        → HostTask
    unfolding run_host_loop
    host_task room none quit_between turns h = record { progress = finished h; tor = none }
    host_task room (some b) quit_between turns h =
        with_client room turns (stored C quit_between b) (client_of C (stored C quit_between b)) h
