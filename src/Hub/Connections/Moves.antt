-- ===== src/Hub/Connections/Moves.antt =====
-- The moves of the hub with its connections: `Hub::run` and `accept_next` of crates/core/src/hub.rs, the rounds of a connection,
-- and the calls of the hub's user.
use nullpipe.Common.{
  ℕ, Bool, true, false, Option, none, some, List, [], ◌∷◌, ◌++◌, get_elem?, set_elem, if◌then◌else◌,
}
use nullpipe.Std.Text.{Text}
use nullpipe.External.Codecs.{Base58, Hex}
use nullpipe.External.Streams.{Stream}
use nullpipe.Wire.{Json}
use nullpipe.Hub.{Hub, new, broadcast_hub, broadcast_ping, next_event, shutdown}
use nullpipe.Hub.Room.{HostedRoom}
use nullpipe.Hub.Connections.{
  Connection, Serving, handshaking, identity, step, read_round, write_round,
}

module _ (json : Json) (base58 : Base58) (hex : Hex) (st : Stream) where
  abbrev Conn : Type 0
  Conn = Connection json base58 hex st

  abbrev Hubs : Type 0
  Hubs = Serving json base58 hex st

  -- `begin_run` and `accept` are the parts of `run`; an `accept` of none says that the room gives no streams any more.
  pub data Move : Type 0 where
    begin_run : Move
    accept : Option st.State → Move
    go : ℕ → ℕ → Move
    read : ℕ → Move
    write : ℕ → Move
    say : Text → Move
    send_ping : Move
    take_event : Move
    shut_down : Move

  abbrev pub fresh : st.State → Conn
  fresh s = record {
    stream = s;
    phase = handshaking;
    reading = false;
    own_taken = 0;
    events_taken = 0;
  }

  abbrev spawn : st.State → Hubs → Hubs
  spawn s sv = record sv { connections = sv.connections ++ fresh s ∷ [] }

  -- `accept_peer` gives nothing when the room holds no channel of streams.
  abbrev pub accept_next : Option st.State → Hubs → Bool × Hubs
  accept_next none sv = (false, sv)
  accept_next (some s) sv = if sv.hub.room.stream_rx then (true, spawn s sv) else (false, sv)

  abbrev pub set_running : Bool → Hubs → Hubs
  set_running b sv = record sv { hub = record sv.hub { running = b } }

  abbrev pub after_accept : Bool × Hubs → Hubs
  after_accept (true, sv) = sv
  after_accept (false, sv) = set_running false sv

  abbrev pub moved : ℕ → Conn × Hub → Hubs → Hubs
  moved i (c, hub) sv = record { hub = hub; connections = set_elem sv.connections i c }

  abbrev pub at_connection : ℕ → Option Conn → (Conn → Hub → Conn × Hub) → Hubs → Hubs
  at_connection i none f sv = sv
  at_connection i (some c) f sv = moved i (f c sv.hub) sv

  abbrev pub with_hub : Hub → Hubs → Hubs
  with_hub hub sv = record sv { hub = hub }

  unfoldable pub move : Move → Hubs → Hubs
  unfolding step read_round write_round
  move begin_run sv = set_running true sv
  move (accept o) sv = if sv.hub.running then after_accept (accept_next o sv) else sv
  move (go i now) sv =
      at_connection i (get_elem? sv.connections i)
        (λ c hub. step json base58 hex st i now c.phase c hub) sv
  move (read i) sv =
      at_connection i (get_elem? sv.connections i)
        (λ c hub. read_round json base58 hex st i (identity json base58 hex st c.phase) c hub) sv
  move (write i) sv =
      at_connection i (get_elem? sv.connections i)
        (λ c hub. (write_round json base58 hex st i c.phase c hub, hub)) sv
  move (say text) sv = with_hub (broadcast_hub json text sv.hub) sv
  move send_ping sv = with_hub (broadcast_ping json sv.hub) sv
  move take_event sv = with_hub (next_event sv.hub).1 sv
  move shut_down sv = with_hub (shutdown sv.hub) sv

  unfoldable pub moves : List Move → Hubs → Hubs
  moves [] sv = sv
  moves (m ∷ ms) sv = moves ms (move m sv)

  -- `run` with nothing between its accepts; what `accept_peer` gives is the argument.
  accept_all : List (Option st.State) → Hubs → Hubs
  accept_all [] sv = sv
  accept_all (o ∷ os) sv =
      let rest = accept_all os (accept_next o sv).1 in
      if (accept_next o sv).0 then rest else set_running false (accept_next o sv).1

  pub run : List (Option st.State) → Hubs → Hubs
  unfolding accept_all
  run os sv = accept_all os (set_running true sv)

  unfoldable pub start : HostedRoom → Hubs
  unfolding new
  start room = record { hub = new room; connections = [] }
