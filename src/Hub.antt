-- ===== src/Hub.antt =====
-- crates/core/src/hub.rs: the hub as a library of its own. The onion service is arti's: what it answers is an argument.
pub mod Room
pub mod Registry
pub mod Handshake
pub mod Tasks
pub mod Calls
pub mod Connections
pub mod Joined
use nullpipe.Common.{
  ℕ, suc, ◌+◌, Bool, true, false, Option, none, some, List, [], ◌∷◌, ◌++◌, Result, ok, err,
  if◌then◌else◌,
}
use nullpipe.Std.Utf8.{Bytes}
use nullpipe.Std.Text.{Text, lit}
use nullpipe.Types.{ChatError, ChatEvent, message, peer_join, peer_leave, PeerId, PeerInfo}
use nullpipe.Nonces.{Nonces}
use nullpipe.Wire.{Json, WireMessage, encode_message, system_message, ping_message}
use nullpipe.Hub.Room.{
  HostedRoom, shutdown as shutdown_room, address as room_address, port as room_port,
}
use nullpipe.Hub.Registry.{PeerRegistry, register, deregister, snapshot, len, broadcast_to_all}

-- `events` is what was put on the broadcast channel, `queue` what waits in the message channel, and `sends` the frames
-- that were put on the peers' channels, each with the channel's number.
pub record Hub : Type 0 where
  pub room : HostedRoom
  pub peer_registry : PeerRegistry
  pub used_nonces : Nonces
  pub events : List ChatEvent
  pub queue : List (PeerId × WireMessage)
  pub sends : List (ℕ × Bytes)
  pub running : Bool

pub new : HostedRoom → Hub
new room = record {
  room = room;
  peer_registry = [];
  used_nonces = [];
  events = [];
  queue = [];
  sends = [];
  running = false;
}

pub address : Hub → Text
address hub = room_address hub.room

pub port : Hub → ℕ
port hub = room_port hub.room

pub peers : Hub → List PeerInfo
peers hub = snapshot hub.peer_registry

pub peer_count : Hub → ℕ
peer_count hub = len hub.peer_registry

-- A frame that cannot be encoded is not sent.
abbrev pub send_all : Result Bytes ChatError → Hub → Hub
send_all (err e) hub = hub
send_all (ok frame) hub = record hub {
  sends = hub.sends ++ broadcast_to_all frame hub.peer_registry;
}

abbrev pub publish : ChatEvent → Hub → Hub
publish e hub = record hub { events = hub.events ++ e ∷ [] }

pub broadcast_hub : Json → Text → Hub → Hub
broadcast_hub json text hub =
    send_all (encode_message json (system_message text))
      (publish (message (record { text = lit "[hub]" }) (lit "[system]") text) hub)

pub broadcast_ping : Json → Hub → Hub
broadcast_ping json hub = send_all (encode_message json ping_message) hub

-- What `next_event` returns, or that it waits.
pub data Next : Type 0 where
  returns : Option ChatEvent → Next
  waits : Next

abbrev pub first_event : List (PeerId × WireMessage) → Hub → Next × Hub
first_event [] hub = (waits, hub)
first_event ((peer_id, m) ∷ rest) hub =
    (returns (some (message peer_id m.name m.text)), record hub { queue = rest })

-- The hub holds a sender of its own, so that the channel never closes.
pub next_event : Hub → Next × Hub
next_event hub = if hub.running then first_event hub.queue hub else (returns none, hub)

pub shutdown : Hub → Hub
shutdown hub = record hub { room = shutdown_room hub.room; running = false }

abbrev pub enter : PeerId → Text → ℕ → ℕ → Hub → Hub
enter peer_id name tx now hub = record hub {
  peer_registry = register peer_id name now tx hub.peer_registry;
}

abbrev pub announce : PeerId → Text → ℕ → Hub → Hub
announce peer_id name later hub =
    publish (peer_join (record { id = peer_id; name = name; joined_at = later })) hub

-- Phase 2 of a connection, with a channel's number and the clock's readings for the entry and the event.
pub register_peer : PeerId → Text → ℕ → ℕ → ℕ → Hub → Hub
register_peer peer_id name tx now later hub =
    announce peer_id name later (enter peer_id name tx now hub)

abbrev pub system_id : PeerId
system_id = record { text = lit "[system]" }

abbrev pub leave : PeerId → Hub → Hub
leave peer_id hub = record hub { peer_registry = deregister peer_id hub.peer_registry }

abbrev pub notify : Text → Hub → Hub
notify name hub = record hub {
  queue = hub.queue ++ (system_id, system_message (name ++ lit " left")) ∷ [];
}

-- Phase 4.
pub deregister_peer : PeerId → Text → Hub → Hub
deregister_peer peer_id name hub = publish (peer_leave peer_id) (notify name (leave peer_id hub))
