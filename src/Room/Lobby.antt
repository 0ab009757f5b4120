-- ===== src/Room/Lobby.antt =====
-- `accept_loop` and `handle_hub_connection` of crates/core/src/room.rs: all connections of a host, interleaved. A move
-- takes one connection through one access to what the connections share: the used nonces (which a handshake
-- touches once, under the lock), the map of peers (under its lock) or the event channel.
pub mod Apart
pub mod Kept
pub mod Listing
pub mod Peers
use nullpipe.Common.{
  ℕ, zero, suc, Bool, true, false, Option, none, some, List, [], ◌∷◌, ◌++◌, Result, ok, err, length,
  get_elem?, set_elem, if◌then◌else◌,
}
use nullpipe.Std.Text.{Text, lit}
use nullpipe.Types.{ChatError, ChatEvent, peer_join, peer_leave, PeerId, PeerInfo}
use nullpipe.External.Codecs.{Base58}
use nullpipe.External.Streams.{Stream}
use nullpipe.External.Channels.{Sender}
use nullpipe.Nonces.{Nonces}
use nullpipe.PeerMap.{Map, insert, remove}
use nullpipe.Wire.{Json, encode_message, system_message}
use nullpipe.Room.Handshake.{hub_handshake}

module _ (json : Json) (base58 : Base58) (st : Stream) (sender : Sender) where
  open st use {State, write_all}
  open sender use {Channel, try_send}

  -- How far a connection is: before the handshake, admitted by it, in the map, announced, told of its
  -- own joining and served, taken from the map, and ended.
  pub data Phase : Type 0 where
    handshaking : State → Phase
    admitted registered announced served : State → PeerInfo → Phase
    removed : PeerInfo → Phase
    closed : Phase

  pub record Host : Type 0 where
    pub nonces : Nonces
    pub peer_map : Map PeerInfo
    pub channel : Channel
    pub connections : List Phase

  -- What the connections share.
  pub record Lobby : Type 0 where
    pub nonces : Nonces
    pub peer_map : Map PeerInfo
    pub channel : Channel

  abbrev after_handshake :
      ℕ → Result (PeerId × Text) ChatError × (State × Nonces) → Lobby → Phase × Lobby
  after_handshake now (err e, (s, ns)) l = (closed, record l { nonces = ns })
  after_handshake now (ok (peer_id, name), (s, ns)) l =
      (admitted s (record { id = peer_id; name = name; joined_at = now }), record l { nonces = ns })

  -- The peer is told; what comes of it does not matter.
  abbrev tell_joined : Text → State → State
  tell_joined name s = elim (encode_message json (system_message (name ++ lit " joined"))) [
    | ok frame ↦ (write_all frame s).1
    | err e ↦ s
  ]

  pub advance : ℕ → Phase → Lobby → Phase × Lobby
  advance now (handshaking s) l = after_handshake now (hub_handshake json base58 st (s, l.nonces)) l
  advance now (admitted s info) l =
      (registered s info, record l { peer_map = insert info.id info l.peer_map })
  advance now (registered s info) l =
      (announced s info, record l { channel = (try_send (peer_join info) l.channel).1 })
  advance now (announced s info) l = (served (tell_joined info.name s) info, l)
  advance now (served s info) l = (removed info, record l { peer_map = remove info.id l.peer_map })
  advance now (removed info) l =
      (closed, record l { channel = (try_send (peer_leave info.id) l.channel).1 })
  advance now closed l = (closed, l)

  -- A stream is accepted, or the connection with this number goes on.
  pub data Move : Type 0 where
    accept : State → Move
    go : ℕ → ℕ → Move

  abbrev lobby : Host → Lobby
  lobby h = record { nonces = h.nonces; peer_map = h.peer_map; channel = h.channel }

  abbrev moved : ℕ → Phase × Lobby → Host → Host
  moved i (p, l) h = record {
    nonces = l.nonces;
    peer_map = l.peer_map;
    channel = l.channel;
    connections = set_elem h.connections i p;
  }

  abbrev go_at : ℕ → ℕ → Option Phase → Host → Host
  go_at i now none h = h
  go_at i now (some p) h = moved i (advance now p (lobby h)) h

  pub move : Move → Host → Host
  unfolding advance
  move (accept s) h = record h { connections = h.connections ++ handshaking s ∷ [] }
  move (go i now) h = go_at i now (get_elem? h.connections i) h

  unfoldable pub run : List Move → Host → Host
  unfolding move
  run [] h = h
  run (m ∷ ms) h = run ms (move m h)

  pub start : Channel → Host
  start c = record { nonces = []; peer_map = []; channel = c; connections = [] }
