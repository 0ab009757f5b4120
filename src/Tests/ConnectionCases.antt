-- ===== src/Tests/ConnectionCases.antt =====
-- The theorems on the hub and its connections at concrete moves.
use nullpipe.Common.{
  arith, ℕ, ◌+◌, length, get_elem?, ◌≤◌, none, refl, List, [], ◌∷◌, ◌++◌, some, true, ok, same,
  Result, ◌≡◌,
}
use nullpipe.Std.Utf8.{Bytes}
use nullpipe.Std.Text.{Text}
use nullpipe.Types.{PeerId, ChatError, message}
use nullpipe.External.Actions.{timed, ◌>>=◌}
use nullpipe.Nonces.{Nonces, contains, insert as insert_nonce}
use nullpipe.PeerMap.{lookup, insert}
use nullpipe.Hub.Room.{HostedRoom}
use nullpipe.Hub.Registry.{register}
use nullpipe.Hub.Handshake.{handshake}
use nullpipe.Room.Handshake.Claims.{Claims}
use nullpipe.Hub.Handshake.Ending.{handshake_ends}
use nullpipe.Hub.Connections.{frames_of, Connection, Serving, serving, next_turn}
use nullpipe.Hub.Connections.Moves.{
  moved, Move, begin_run, accept, go, read, write, moves, move, start,
}
use nullpipe.Hub.Connections.Writing.{Writing, event_bytes}
use nullpipe.Hub.Connections.CatchingUp.{writes, writer_catches_up}
use nullpipe.Hub.Connections.Relaying.{chat_is_relayed}
use nullpipe.Hub.Connections.Staying.{IsRegistered}
use nullpipe.Hub.Connections.Lasting.{peers_stay}
use nullpipe.Tests.Instances.{pipes, plain58, letters, toy_json, toy_json_laws, pipe_laws}
use nullpipe.Tests.WireCases.{hi, hi-IsText, hi_encoded, hi_frame, arriving, At-arriving}
use nullpipe.Tests.InviteCases.{nonce_16}
use nullpipe.Tests.JoinerCases.{disc_16, hi_chat}

abbrev room : HostedRoom
room = record { service = true; onion = some []; port_number = 80; stream_rx = true }

abbrev peer : PeerId
peer = record { text = disc_16 }

-- A peer comes, is admitted and registered.
abbrev coming : List (Move toy_json plain58 letters pipes)
coming =
    begin_run ∷ accept (some (arriving (nonce_16 ++ disc_16 ++ hi_frame))) ∷ go 0 7 ∷ go 0 7 ∷ []

-- Its message is read, and then the end of its stream; the writer has its turns.
abbrev closing : List (Move toy_json plain58 letters pipes)
closing = go 0 7 ∷ go 0 7 ∷ read 0 ∷ write 0 ∷ read 0 ∷ write 0 ∷ go 0 8 ∷ []

peer_lem :
    IsRegistered peer
      (moves toy_json plain58 letters pipes coming
        (start toy_json plain58 letters pipes room)).hub.peer_registry
unfolding moves move start handshake timed ◌>>=◌ contains insert_nonce insert lookup same register
peer_lem = (_, refl)

peers_stay_example :
    IsRegistered peer
      (moves toy_json plain58 letters pipes closing (
        moves toy_json plain58 letters pipes coming
          (start toy_json plain58 letters pipes room))).hub.peer_registry
peers_stay_example =
    peers_stay toy_json plain58 letters pipes (λ bs s. (ok tt, refl)) coming closing room peer
      peer_lem

handshake_ends_example :
    (r : Result (PeerId × Text) ChatError × (pipes.State × Nonces)) × (handshake plain58 letters
        pipes
        (arriving (nonce_16 ++ disc_16), [])
      ≡ some r)
    × Claims [] r.1.1
handshake_ends_example = handshake_ends plain58 letters pipes (arriving (nonce_16 ++ disc_16)) []

-- A peer that is served, with a frame and an event for it.
abbrev conn : Connection toy_json plain58 letters pipes
conn = record {
  stream = arriving [];
  phase = serving peer (b'p' ∷ []);
  reading = true;
  own_taken = 0;
  events_taken = 0;
}

abbrev serving_one : Serving toy_json plain58 letters pipes
serving_one = record {
  hub = record {
    room = room;
    peer_registry = [];
    used_nonces = [];
    events = message peer (b'p' ∷ []) (b'y' ∷ []) ∷ [];
    queue = [];
    sends = (0, hi_frame) ∷ [];
    running = true;
  };
  connections = conn ∷ [];
}

writer_catches_up_example :
    (n : ℕ) × (c' : Connection toy_json plain58 letters pipes) × (n ≤ 3)
    × (moves toy_json plain58 letters pipes (writes 0 n) serving_one
        ≡ moved toy_json plain58 letters pipes 0 (c', serving_one.hub) serving_one)
    × (next_turn toy_json plain58 letters pipes 0 c' serving_one.hub ≡ none)
    × Writing toy_json plain58 letters pipes pipe_laws peer (b'p' ∷ []) c' [] (
        (hi_frame ++ [])
        ++ event_bytes toy_json plain58 letters pipes pipe_laws
            (message peer (b'p' ∷ []) (b'y' ∷ []) ∷ []))
writer_catches_up_example =
    writer_catches_up toy_json plain58 letters pipes pipe_laws 0 peer (b'p' ∷ []) serving_one conn
      [] [] refl (record { phase_lem = refl; at = At-arriving [] })

-- One peer says something to another.
abbrev speaker : Connection toy_json plain58 letters pipes
speaker = record conn { stream = arriving (hi_frame ++ []); phase = serving peer (b'a' ∷ []) }

abbrev other : PeerId
other = record { text = b'o' ∷ [] }

abbrev listener : Connection toy_json plain58 letters pipes
listener = record conn { phase = serving other (b'o' ∷ []) }

abbrev serving_two : Serving toy_json plain58 letters pipes
serving_two = record serving_one { connections = speaker ∷ listener ∷ [] }

chat_is_relayed_example :
    (n : ℕ) × (d' : Connection toy_json plain58 letters pipes) × (between : Bytes) × (n
      ≤ 2 + length (frames_of 1 serving_two.hub.sends) + length serving_two.hub.events)
    × ((moves toy_json plain58 letters pipes (read 0 ∷ writes 1 n) serving_two).hub.queue
        ≡ (peer, hi) ∷ [])
    × (get_elem?
          (moves toy_json plain58 letters pipes (read 0 ∷ writes 1 n) serving_two).connections
          1
        ≡ some d')
    × Writing toy_json plain58 letters pipes pipe_laws other
        (b'o' ∷ [])
        d'
        []
        (([] ++ between) ++ hi_frame)
chat_is_relayed_example =
    chat_is_relayed toy_json toy_json_laws plain58 letters pipes pipe_laws 0 1 peer other
      (b'a' ∷ []) (b'o' ∷ []) hi hi_frame [] [] hi_frame [] [] serving_two speaker listener
      (λ e. cc) refl refl refl refl (omega arith) refl hi-IsText hi_encoded
      (At-arriving (hi_frame ++ [])) (record { phase_lem = refl; at = At-arriving [] })
      (omega arith) hi_chat
