-- ===== src/Hub/Connections.antt =====
-- `Hub::handle_connection` and `run_peer_io` of crates/core/src/hub.rs: a connection's accesses to what the hub shares, and the
-- rounds of its reader and its writer.
pub mod Moves
pub mod Keeping
pub mod Changes
pub mod Rounds
pub mod Sound
pub mod Staying
pub mod Lasting
pub mod Writing
pub mod Delivering
pub mod CatchingUp
pub mod Relaying
use nullpipe.Common.{
  ℕ, suc, ◌+◌, ◌-◌, Bool, true, false, Option, none, some, List, [], ◌∷◌, ◌++◌, map, Result, ok,
  err, length, get_elem?, set_elem, ltb, ◌==◌, if◌then◌else◌,
}
use nullpipe.Std.Utf8.{Bytes}
use nullpipe.Std.Text.{Text}
use nullpipe.Types.{ChatError, ChatEvent, peer_leave, PeerId}
use nullpipe.External.Codecs.{Base58, Hex}
use nullpipe.External.Streams.{Stream}
use nullpipe.Nonces.{Nonces}
use nullpipe.Wire.{Json, WireMessage, read_frame}
use nullpipe.Hub.{
  Hub, new, publish, enter, announce, leave, notify, broadcast_hub, broadcast_ping, next_event,
  shutdown,
}
use nullpipe.Hub.Room.{HostedRoom}
use nullpipe.Hub.Handshake.{handshake}
use nullpipe.Hub.Tasks.{Passed, pass, received, Turn, own_frame, broadcasted, lagged, writer_round}

-- The capacities of the broadcast channel and of the message channel.
abbrev pub broadcast_capacity : ℕ
broadcast_capacity = 256

abbrev pub queue_capacity : ℕ
queue_capacity = 128

-- How far a connection is: before the handshake or refused by it, admitted, in the registry, announced, with its reader
-- and writer at work, with its writer ended, out of the registry, with the notice given, and gone.
pub data Phase : Type 0 where
  handshaking : Phase
  refused : ChatError → Phase
  admitted registered announced serving written_out removed notified gone : PeerId → Text → Phase

-- The number of a channel's frames.
abbrev pub frames_of : ℕ → List (ℕ × Bytes) → List Bytes
frames_of i [] = []
frames_of i ((j, frame) ∷ sends) =
    let rest = frames_of i sends in if i == j then frame ∷ rest else rest

module _ (json : Json) (base58 : Base58) (hex : Hex) (st : Stream) where
  -- `reading` says that the reader is at work. The cursors say how many frames of its own channel and how many events
  -- the writer has taken. The number of a connection is that of its channel.
  pub record Connection : Type 0 where
    pub stream : st.State
    pub phase : Phase
    pub reading : Bool
    pub own_taken : ℕ
    pub events_taken : ℕ

  pub record Serving : Type 0 where
    pub hub : Hub
    pub connections : List Connection

  -- `none` is fuel that ran out, which does not happen.
  abbrev pub after_handshake :
      Connection
      → Hub
      → Option (Result (PeerId × Text) ChatError × (st.State × Nonces))
      → Connection × Hub
  after_handshake c hub none = (c, hub)
  after_handshake c hub (some (err e, (s, ns))) =
      (record c { stream = s; phase = refused e }, record hub { used_nonces = ns })
  after_handshake c hub (some (ok (id, name), (s, ns))) =
      (record c { stream = s; phase = admitted id name }, record hub { used_nonces = ns })

  -- The reader begins, and the writer takes the events from now on.
  abbrev begin_io : PeerId → Text → Connection → Hub → Connection
  begin_io id name c hub = record c {
    phase = serving id name;
    reading = true;
    events_taken = length hub.events;
  }

  -- The next access of a connection to what the hub shares, with the number of its channel and the clock. A notice waits
  -- for room in the message channel.
  unfoldable pub step : ℕ → ℕ → Phase → Connection → Hub → Connection × Hub
  step i now handshaking c hub =
      after_handshake c hub (handshake base58 hex st (c.stream, hub.used_nonces))
  step i now (refused e) c hub = (c, hub)
  step i now (admitted id name) c hub =
      (record c { phase = registered id name }, enter id name i now hub)
  step i now (registered id name) c hub =
      (record c { phase = announced id name }, announce id name now hub)
  step i now (announced id name) c hub = (begin_io id name c hub, hub)
  step i now (serving id name) c hub = (c, hub)
  step i now (written_out id name) c hub = (record c { phase = removed id name }, leave id hub)
  step i now (removed id name) c hub =
      if ltb (length hub.queue) queue_capacity
      then (record c { phase = notified id name }, notify name hub)
      else (c, hub)
  step i now (notified id name) c hub =
      (record c { phase = gone id name }, publish (peer_leave id) hub)
  step i now (gone id name) c hub = (c, hub)

  -- Who a connection was admitted as.
  abbrev pub identity : Phase → Option (PeerId × Text)
  identity handshaking = none
  identity (refused e) = none
  identity (admitted id name) = some (id, name)
  identity (registered id name) = some (id, name)
  identity (announced id name) = some (id, name)
  identity (serving id name) = some (id, name)
  identity (written_out id name) = some (id, name)
  identity (removed id name) = some (id, name)
  identity (notified id name) = some (id, name)
  identity (gone id name) = some (id, name)

  abbrev pub nothing : Passed
  nothing = record { messages = []; events = []; replies = [] }

  abbrev pub pass_on : ℕ → Passed → Hub → Hub
  pass_on i p hub = record hub {
    queue = hub.queue ++ p.messages;
    events = hub.events ++ p.events;
    sends = hub.sends ++ map (λ frame. (i, frame)) p.replies;
  }

  abbrev pub after_read :
      ℕ → PeerId × Text → Connection → Hub → st.State → Option WireMessage → Connection × Hub
  after_read i (id, name) c hub s none = (record c { stream = s; reading = false }, hub)
  after_read i (id, name) c hub s (some m) =
      (record c { stream = s }, pass_on i (pass json st id name m.kind m nothing) hub)

  -- One round of the reader, which goes on when its writer has ended. It begins with room in the message channel.
  unfoldable pub read_round : ℕ → Option (PeerId × Text) → Connection → Hub → Connection × Hub
  read_round i none c hub = (c, hub)
  read_round i (some who) c hub =
      if c.reading
      then if ltb (length hub.queue) queue_capacity
        then after_read i who c hub (read_frame st c.stream).1
            (received json st (read_frame st c.stream).0)
        else (c, hub)
      else (c, hub)

  -- What the writer takes next: a frame of its own channel first, then an event, of which only the last 256 are kept.
  abbrev pub event_turn : Option ChatEvent → Option (Turn json st)
  event_turn none = none
  event_turn (some e) = some (broadcasted e)

  abbrev pub own_turn : Option Bytes → Connection → Hub → Option (Turn json st)
  own_turn (some frame) c hub = some (own_frame frame)
  own_turn none c hub =
      if ltb (c.events_taken + broadcast_capacity) (length hub.events)
      then some (lagged (length hub.events - broadcast_capacity - c.events_taken))
      else event_turn (get_elem? hub.events c.events_taken)

  unfoldable pub next_turn : ℕ → Connection → Hub → Option (Turn json st)
  next_turn i c hub = own_turn (get_elem? (frames_of i hub.sends) c.own_taken) c hub

  abbrev pub advance_cursor : Turn json st → Connection → Connection
  advance_cursor (own_frame frame) c = record c { own_taken = suc c.own_taken }
  advance_cursor (lagged n) c = record c { events_taken = c.events_taken + n }
  advance_cursor (broadcasted e) c = record c { events_taken = suc c.events_taken }
  advance_cursor t c = c

  abbrev pub after_round : PeerId × Text → Bool × st.State → Connection → Connection
  after_round who (true, s) c = record c { stream = s }
  after_round (id, name) (false, s) c = record c { stream = s; phase = written_out id name }

  abbrev pub write_turn : PeerId × Text → Option (Turn json st) → Connection → Connection
  write_turn who none c = c
  write_turn who (some t) c = after_round who (writer_round json st t c.stream) (advance_cursor t c)

  -- One round of the writer.
  unfoldable pub write_round : ℕ → Phase → Connection → Hub → Connection
  write_round i (serving id name) c hub = write_turn (id, name) (next_turn i c hub) c
  write_round i p c hub = c
