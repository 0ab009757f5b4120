-- ===== src/Room/Tasks.antt =====
-- What starts a room in crates/core/src/room.rs and crates/core/src/factory.rs, and the joiner's task with its mock variant.
pub mod Joining
use nullpipe.Common.{
  ℕ, Bool, true, false, Option, none, some, List, [], ◌∷◌, ◌++◌, Result, ok, err, if◌then◌else◌,
}
use nullpipe.Std.Utf8.{Bytes}
use nullpipe.Std.Text.{Text, lit}
use nullpipe.Types.{
  ChatError, connection, ChatEvent, peer_join, room_closed, error, PeerId, PeerInfo, HostConfig,
  JoinConfig,
}
use nullpipe.External.Streams.{Stream, Timed}
use nullpipe.External.Channels.{Sender}
use nullpipe.PeerMap.{Map, insert, remove}
use nullpipe.Wire.{Json, chat_message, encode_message}
use nullpipe.Bootstrap.{TorBootstrap}
use nullpipe.Room.Handle.{RoomInner, new_inner}

-- Which task a new room runs, beside the handle's state.
pub data RoomConfig : Type 0 where
  host_room : Text → ℕ → RoomConfig
  join_room : Text → Text → RoomConfig

pub data RoomTask : Type 0 where
  host_task : HostConfig → RoomTask
  joiner_task : JoinConfig → RoomTask

pub host : HostConfig → RoomInner × RoomTask
host config = (new_inner config.name, host_task config)

pub join : JoinConfig → RoomInner × RoomTask
join config = (new_inner config.name, joiner_task config)

-- The task of a room on streams of memory instead of Tor's.
pub data MockTask : Type 0 where
  mock_host : HostConfig → MockTask
  mock_joiner : JoinConfig → MockTask

pub host_with_mock : HostConfig → RoomInner × MockTask
host_with_mock config = (new_inner config.name, mock_host config)

pub join_with_mock : JoinConfig → RoomInner × MockTask
join_with_mock config = (new_inner config.name, mock_joiner config)

-- `RoomFactory::create`.
pub create : RoomConfig → RoomInner × RoomTask
unfolding host join
create (host_room name ttl) = host (record { name = name; invite_ttl_secs = ttl })
create (join_room name code) = join (record { name = name; invite_code = code })

-- What the task finds of its bootstrap in the shared mutex when it looks its client up: nothing, if the handle quits after it
-- was stored and takes it.
module _ (C : Type 0) where
  abbrev pub stored : Bool → TorBootstrap C → Option (TorBootstrap C)
  stored quit_between b = if quit_between then none else some b

  abbrev pub client_of : Option (TorBootstrap C) → Option C
  client_of none = none
  client_of (some b) = b.client

module _ (sender : Sender) where
  open sender use {Channel, try_send, send}

  -- A joiner that has been connected, as far as its task looks at it.
  pub record Connected : Type 0 where
    pub peer_id : PeerId
    pub name : Text

  -- The event channel, and the Tor client that the handle shares.
  pub record JoinerTask (C : Type 0) : Type 0 where
    pub channel : Channel
    pub tor : Option (TorBootstrap C)

  abbrev pub try_all : List ChatEvent → Channel → Channel
  try_all [] c = c
  try_all (e ∷ es) c = try_all es (try_send e c).1

  abbrev pub self_info : Connected → ℕ → PeerInfo
  self_info j now = record { id = j.peer_id; name = j.name; joined_at = now }

  abbrev pub last_events : Result (Unit {0}) ChatError → List ChatEvent
  last_events (ok _) = room_closed ∷ []
  last_events (err e) = error e ∷ room_closed ∷ []

  module _ (C : Type 0) where
    -- `run` is the joiner's main loop on the event channel, until it has ended.
    abbrev after_connect :
        (Channel → Result (Unit {0}) ChatError × Channel)
        → ℕ
        → Option (TorBootstrap C)
        → Result Connected ChatError
        → Channel
        → JoinerTask C
    after_connect run now tor (err e) c = record { channel = (send (error e) c).1; tor = tor }
    after_connect run now tor (ok j) c =
        let (result, c₁) = run (try_send (peer_join (self_info j now)) c).1 in
        record { channel = try_all (last_events result) c₁; tor = none }

    abbrev with_client :
        (C → Result Connected ChatError)
        → (Channel → Result (Unit {0}) ChatError × Channel)
        → ℕ
        → Option (TorBootstrap C)
        → Option C
        → Channel
        → JoinerTask C
    with_client connect run now tor none c = record {
      channel = (send (error (connection (lit "Tor client not available"))) c).1;
      tor = tor;
    }
    with_client connect run now tor (some client) c = after_connect run now tor (connect client) c

    -- On what `bootstrap_with_shutdown` returned, with whether the handle quits after the bootstrap is stored and before the
    -- client is looked up.
    pub run_joiner_task :
        (C → Result Connected ChatError)
        → (Channel → Result (Unit {0}) ChatError × Channel)
        → ℕ
        → Option (TorBootstrap C)
        → Bool
        → Channel
        → JoinerTask C
    run_joiner_task connect run now none quit_between c = record { channel = c; tor = none }
    run_joiner_task connect run now (some b) quit_between c =
        with_client connect run now (stored C quit_between b)
          (client_of C (stored C quit_between b)) c

  -- The mock joiner's peers and events. `reading` is its reader, run until it ends or is stopped.
  pub record MockJoining : Type 0 where
    pub channel : Channel
    pub peer_map : Map PeerInfo

  abbrev mock_served : (Channel → Channel) → Connected → ℕ → MockJoining → MockJoining
  mock_served reading j now m = record {
    channel =
        (try_send room_closed (reading (try_send (peer_join (self_info j now)) m.channel).1)).1;
    peer_map = remove j.peer_id (insert j.peer_id (self_info j now) m.peer_map);
  }

  pub joiner_task_mock :
      Result Connected ChatError → (Channel → Channel) → ℕ → MockJoining → MockJoining
  joiner_task_mock (err e) reading now m = record m { channel = (send (error e) m.channel).1 }
  joiner_task_mock (ok j) reading now m = mock_served reading j now m

module _ (json : Json) (st : Stream) (name : Text) where
  pub data Turn : Type 0 where
    shutdown closed : Turn
    outgoing : Text → Turn

  -- The mock joiner's writer waits without a limit; an error of the stream ends it.
  abbrev written : Timed (Unit {0}) → Bool
  written (ok (ok _)) = true
  written (ok (err e)) = false
  written (err late) = false

  abbrev then_go : Bool → st.State → (st.State → st.State) → st.State
  then_go true s next = next s
  then_go false s next = s

  abbrev put_frame : Result Bytes ChatError → st.State → (st.State → st.State) → st.State
  put_frame (err e) s next = next s
  put_frame (ok frame) s next =
      then_go (written (st.write_all frame s).0) (st.write_all frame s).1
        λ t. then_go (written (st.flush t).0) (st.flush t).1 next

  pub mock_writer : List Turn → st.State → st.State
  mock_writer [] s = s
  mock_writer (shutdown ∷ turns) s = s
  mock_writer (closed ∷ turns) s = s
  mock_writer (outgoing text ∷ turns) s =
      put_frame (encode_message json (chat_message name text)) s (mock_writer turns)
