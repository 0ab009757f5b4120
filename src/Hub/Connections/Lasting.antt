-- ===== src/Hub/Connections/Lasting.antt =====
-- A peer of the hub stays registered over all interleavings while no write takes too long.
use nullpipe.Common.{
  ℕ, ◌≡◌, refl, sym, subst, true, false, Option, none, some, List, [], ◌∷◌, Result, ok, get_elem?,
  if_both,
}
use nullpipe.Std.Utf8.{Bytes}
use nullpipe.Types.{PeerId, IoError}
use nullpipe.External.Codecs.{Base58, Hex}
use nullpipe.External.Streams.{Stream}
use nullpipe.Wire.{Json}
use nullpipe.Hub.{Hub}
use nullpipe.Hub.Calls.{
  broadcast_hub-Alike, broadcast_ping-Alike, next_event-Drained, shutdown-Alike,
}
use nullpipe.Hub.Room.{HostedRoom}
use nullpipe.Hub.Connections.{Serving, identity}
use nullpipe.Hub.Connections.Moves.{
  moved, Move, begin_run, accept, go, read, write, say, send_ping, take_event, shut_down, move,
  moves, start, with_hub, accept_next, after_accept, at_connection,
}
use nullpipe.Hub.Connections.Keeping.{Conn}
use nullpipe.Hub.Connections.Staying.{
  IsRegistered, AllAlive, AllAlive-append, Stays, step-Stays, read_round-Stays, write_round-Stays,
}

module _ (json : Json) (base58 : Base58) (hex : Hex) (st : Stream)
    (never_late : (bs : Bytes) (s : st.State)
      → (r : Result (Unit {0}) IoError) × ((st.write_all bs s).0 ≡ ok r)) where
  at_connection-Stays :
      (i : ℕ) (o : Option (Conn json base58 hex st))
      (f : Conn json base58 hex st → Hub → Conn json base58 hex st × Hub)
      (sv : Serving json base58 hex st)
      → get_elem? sv.connections i ≡ o
      → ((c : Conn json base58 hex st)
          → get_elem? sv.connections i ≡ some c
          → Stays json base58 hex st never_late sv (moved json base58 hex st i (f c sv.hub) sv))
      → AllAlive json base58 hex st never_late sv.connections
      → Stays json base58 hex st never_late sv (at_connection json base58 hex st i o f sv)
  at_connection-Stays i none f sv e each h = record { alive = h; registered_lem = λ id r. r }
  at_connection-Stays i (some c) f sv e each h = each c e

  with_hub-Stays :
      (sv : Serving json base58 hex st) (hub : Hub)
      → hub.peer_registry ≡ sv.hub.peer_registry
      → AllAlive json base58 hex st never_late sv.connections
      → Stays json base58 hex st never_late sv (with_hub json base58 hex st hub sv)
  with_hub-Stays sv hub reg h = record {
    alive = h;
    registered_lem = λ id r. subst (IsRegistered id) (sym reg) r;
  }

  accepted-Stays :
      (o : Option st.State) (sv : Serving json base58 hex st)
      → AllAlive json base58 hex st never_late sv.connections
      → Stays json base58 hex st never_late sv
          (after_accept json base58 hex st (accept_next json base58 hex st o sv))
  accepted-Stays none sv h = with_hub-Stays sv (record sv.hub { running = false }) refl h
  accepted-Stays (some s) sv h =
      if_both (λ r. Stays json base58 hex st never_late sv (after_accept json base58 hex st r))
        sv.hub.room.stream_rx
        (record {
          alive = AllAlive-append json base58 hex st never_late sv.connections s h;
          registered_lem = λ id r. r;
        })
        (with_hub-Stays sv (record sv.hub { running = false }) refl h)

  move-Stays :
      (m : Move json base58 hex st) (sv : Serving json base58 hex st)
      → AllAlive json base58 hex st never_late sv.connections
      → Stays json base58 hex st never_late sv (move json base58 hex st m sv)
  unfolding move
  move-Stays begin_run sv h = with_hub-Stays sv (record sv.hub { running = true }) refl h
  move-Stays (accept o) sv h =
      if_both (Stays json base58 hex st never_late sv) sv.hub.running (accepted-Stays o sv h)
        (record { alive = h; registered_lem = λ id r. r })
  move-Stays (go i now) sv h =
      at_connection-Stays i _ _ sv refl
        (λ c here. step-Stays json base58 hex st never_late sv i c here h now c.phase refl) h
  move-Stays (read i) sv h =
      at_connection-Stays i _ _ sv refl
        (λ c here.
          read_round-Stays json base58 hex st never_late sv i c here h
            (identity json base58 hex st c.phase))
        h
  move-Stays (write i) sv h =
      at_connection-Stays i _ _ sv refl
        (λ c here. write_round-Stays json base58 hex st never_late sv i c here h c.phase) h
  move-Stays (say text) sv h = with_hub-Stays sv _ (broadcast_hub-Alike json text sv.hub).0 h
  move-Stays send_ping sv h = with_hub-Stays sv _ (broadcast_ping-Alike json sv.hub).0 h
  move-Stays take_event sv h = with_hub-Stays sv _ (next_event-Drained (λ q. Unit {0}) sv.hub).0 h
  move-Stays shut_down sv h = with_hub-Stays sv _ (shutdown-Alike sv.hub).0 h

  moves-Stays :
      (ms : List (Move json base58 hex st)) (sv : Serving json base58 hex st)
      → AllAlive json base58 hex st never_late sv.connections
      → Stays json base58 hex st never_late sv (moves json base58 hex st ms sv)
  unfolding moves
  moves-Stays [] sv h = record { alive = h; registered_lem = λ id r. r }
  moves-Stays (m ∷ ms) sv h =
      let one = move-Stays m sv h in
      let rest = moves-Stays ms (move json base58 hex st m sv) one.alive in
      record {
        alive = rest.alive;
        registered_lem = λ id r. rest.registered_lem id (one.registered_lem id r);
      }

  -- While no write takes too long, even if it fails, a peer that the hub has once registered stays registered, whatever
  -- comes: also when its stream has ended and its reader with it.
  pub peers_stay :
      (ms more : List (Move json base58 hex st)) (room : HostedRoom) (id : PeerId)
      → IsRegistered id
          (moves json base58 hex st ms (start json base58 hex st room)).hub.peer_registry
      → IsRegistered id
          (moves json base58 hex st more
            (moves json base58 hex st ms (start json base58 hex st room))).hub.peer_registry
  unfolding start
  peers_stay ms more room id r =
      let before = moves-Stays ms (start json base58 hex st room) (λ i c e. cc) in
      (moves-Stays more (moves json base58 hex st ms (start json base58 hex st room))
          before.alive).registered_lem
        id r
