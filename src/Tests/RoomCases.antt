-- ===== src/Tests/RoomCases.antt =====
-- The theorems on the host, its connections and the bootstrap at concrete runs.
use nullpipe.Common.{
  ℕ, ◌≡◌, refl, [], ◌∷◌, ◌++◌, map, List, Result, ok, err, is_ok, ◌||◌, if◌then◌else◌, none, some,
  true, false,
}
use nullpipe.Std.Text.{Text, lit}
use nullpipe.Types.{ChatError, room_ready, error, connection, channel_closed, PeerId, HostConfig}
use nullpipe.Wire.{ping, chat_message}
use nullpipe.Wire.Reading.{At}
use nullpipe.Bootstrap.{
  TorBootstrap, System, new, bootstrap, Watch, returned, at_percent, done, forward,
  bootstrap_with_shutdown,
}
use nullpipe.Bootstrap
use nullpipe.Bootstrap.Readiness.{stream_turns, reaches_100, sent_all, bootstrap_with_shutdown_ends}
use nullpipe.Room.Host.{
  finished, Turn, shutdown, outgoing, incoming, Hosting, run_host_loop, host_task,
}
use nullpipe.Room.Host.Serving.{
  shown, shown_without_room, own_texts, state, run_host_loop_serves, run_host_loop_without_room,
}
use nullpipe.Room.Host.Ending.{HasEnded, host_task_after_bootstrap}
use nullpipe.Room.Lobby.{Move, accept, go, run, start}
use nullpipe.Room.Lobby.Peers.{IsSound, run-IsSound}
use nullpipe.Room.Lobby.Apart.{first_served}
use nullpipe.Room.Lobby.Listing.{AllListed, run-AllListed}
use nullpipe.Room.PeerIo.{hub_writer_task, broadcasted, lagged, closed}
use nullpipe.Room.PeerIo.Writing.{frames, hub_writer_task-frames}
use nullpipe.Tests.Instances.{pipes, pipe_laws, unbounded, unbounded_laws, plain58, toy_json}
use nullpipe.Tests.WireCases.{hi, arriving, At-arriving}
use nullpipe.Tests.InviteCases.{nonce_16}
use nullpipe.Tests.JoinerCases.{disc_16, ann_frame, hi_text}

abbrev config : HostConfig
config = record { name = b'H' ∷ []; invite_ttl_secs = 60 }

abbrev peer : PeerId
peer = record { text = disc_16 }

-- The host says "hi", hears the peer, is pinged, and shuts down.
abbrev turns : List Turn
turns =
    outgoing (some hi_text)
    ∷ incoming (some (peer, hi))
    ∷ incoming (some (peer, record { kind = ping; name = []; text = [] }))
    ∷ shutdown
    ∷ []

abbrev hosting : Hosting unbounded config
hosting = record { channel = []; broadcasts = []; invite_info = none }

abbrev address : Text
address = b'o' ∷ []

run_host_loop_serves_example :
    let after =
      state unbounded unbounded_laws config
        (run_host_loop unbounded config (ok address) turns hosting) in
    (after.channel ≡ [] ++ room_ready address 80 ∷ shown config.name turns)
    × (after.broadcasts ≡ [] ++ map (chat_message config.name) (own_texts turns))
    × (after.invite_info ≡ some (record { onion_address = address; port = 80; ttl_secs = 60 }))
run_host_loop_serves_example =
    run_host_loop_serves unbounded unbounded_laws config address turns hosting (λ e c. refl) tt

run_host_loop_without_room_example :
    let after =
      state unbounded unbounded_laws config
        (run_host_loop unbounded config (err channel_closed) turns hosting) in
    (after.channel ≡ [] ++ error channel_closed ∷ shown_without_room turns)
    × (after.broadcasts ≡ [])
    × (after.invite_info ≡ none)
run_host_loop_without_room_example =
    run_host_loop_without_room unbounded unbounded_laws config channel_closed turns hosting
      (λ e c. refl) tt

-- A system whose client is a number.
abbrev pub computer : System ℕ
computer = record {
  state_dir = none;
  temp = ok (b't' ∷ []);
  build_config = λ dir. ok tt;
  create = ok 5;
}

abbrev pub booted : TorBootstrap ℕ
booted = record { client = some 5; bootstrapped = true; temp_dir = some (b't' ∷ []) }

begun : bootstrap ℕ computer (new ℕ) ≡ (ok tt, booted)
unfolding bootstrap
begun = refl

abbrev pub statuses : List Bootstrap.Status
statuses = map at_percent (40 ∷ []) ++ done (ok tt) ∷ []

bootstrap_with_shutdown_ends_example :
    bootstrap_with_shutdown ℕ unbounded computer (stream_turns (forward statuses)) []
    ≡ returned
        (if reaches_100 (40 ∷ []) || is_ok {A = Unit {0}} {E = Text} (ok tt)
          then some booted
          else none)
        (sent_all ℕ unbounded (forward statuses) [])
bootstrap_with_shutdown_ends_example =
    bootstrap_with_shutdown_ends ℕ unbounded computer booted (40 ∷ []) (ok tt) [] (λ e c. refl)
      begun

pub has_booted :
    bootstrap_with_shutdown ℕ unbounded computer (stream_turns (forward statuses)) []
    ≡ returned (some booted) (sent_all ℕ unbounded (forward statuses) [])
has_booted =
    bootstrap_with_shutdown_ends ℕ unbounded computer booted (40 ∷ []) (ok tt) [] (λ e c. refl)
      begun

abbrev room_of : ℕ → Result Text ChatError
room_of client = ok address

host_task_after_bootstrap_example :
    (client : ℕ) × (booted.client ≡ some client)
    × ((host_task unbounded config ℕ room_of (some booted) false turns hosting).progress
        ≡ run_host_loop unbounded config (room_of client) turns hosting)
    × (HasEnded unbounded config ℕ room_of
          (run_host_loop unbounded config (room_of client) turns hosting)
        → (host_task unbounded config ℕ room_of (some booted) false turns hosting).tor ≡ none)
    × ((host_task unbounded config ℕ room_of (some booted) true turns hosting).progress
        ≡ finished (record hosting {
          channel =
              (unbounded.send
                (error (connection (lit "Tor client not available")))
                hosting.channel).1;
        }))
    × ((host_task unbounded config ℕ room_of (some booted) true turns hosting).tor ≡ none)
host_task_after_bootstrap_example =
    host_task_after_bootstrap unbounded config ℕ room_of computer (stream_turns (forward statuses))
      [] (sent_all ℕ unbounded (forward statuses) []) booted turns hosting has_booted

-- A peer is admitted, a second one comes with the same nonce, and the first one leaves.
abbrev moves : List (Move toy_json plain58 pipes unbounded)
moves =
    accept (arriving (nonce_16 ++ disc_16 ++ ann_frame))
    ∷ accept (arriving (nonce_16 ++ disc_16 ++ ann_frame))
    ∷ go 0 7
    ∷ go 0 7
    ∷ go 1 8
    ∷ go 0 8
    ∷ []

run-IsSound_example :
    IsSound toy_json plain58 pipes unbounded
      (run toy_json plain58 pipes unbounded moves (start toy_json plain58 pipes unbounded []))
run-IsSound_example = run-IsSound toy_json plain58 pipes unbounded moves []

-- Two peers come, and the first one is admitted and listed.
abbrev first_listed : List (Move toy_json plain58 pipes unbounded)
first_listed =
    accept (arriving (nonce_16 ++ disc_16 ++ ann_frame))
    ∷ accept (arriving (nonce_16 ++ disc_16 ++ ann_frame))
    ∷ map (go 0) (7 ∷ 7 ∷ 8 ∷ [])

run-AllListed_example :
    AllListed toy_json plain58 pipes unbounded
      (run toy_json plain58 pipes unbounded first_listed
        (start toy_json plain58 pipes unbounded [])).peer_map
      (run toy_json plain58 pipes unbounded first_listed
        (start toy_json plain58 pipes unbounded [])).connections
run-AllListed_example = run-AllListed toy_json plain58 pipes unbounded first_listed [] (
    first_served toy_json plain58 pipes unbounded (arriving (nonce_16 ++ disc_16 ++ ann_frame))
      (arriving (nonce_16 ++ disc_16 ++ ann_frame)) (7 ∷ 7 ∷ 8 ∷ []) [])

hub_writer_task-frames_example :
    At pipes pipe_laws
      (hub_writer_task toy_json pipes
        (broadcasted hi ∷ lagged 3 ∷ broadcasted hi ∷ closed ∷ [])
        (arriving []))
      []
      ([]
        ++ frames toy_json pipes pipe_laws
            (broadcasted hi ∷ lagged 3 ∷ broadcasted hi ∷ closed ∷ []))
hub_writer_task-frames_example =
    hub_writer_task-frames toy_json pipes pipe_laws
      (broadcasted hi ∷ lagged 3 ∷ broadcasted hi ∷ closed ∷ []) (arriving []) [] []
      (At-arriving [])
