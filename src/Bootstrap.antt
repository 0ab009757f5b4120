-- ===== src/Bootstrap.antt =====
-- crates/core/src/bootstrap.rs: the Tor client's life and its progress events. The client, the directories and the
-- configuration are arti's and the system's: what they answer are arguments.
pub mod Readiness
pub mod Config
use nullpipe.Common.{
  ℕ, Bool, true, false, ◌||◌, Option, none, some, List, [], ◌∷◌, ◌++◌, Result, ok, err, leb, ◌==◌,
  if◌then◌else◌,
}
use nullpipe.Common.{◌>>=◌ as bind}
use nullpipe.Std.Text.{Text, lit}
use nullpipe.Types.{
  ChatError, connection, ChatEvent, message, peer_join, peer_leave, bootstrap_progress, room_ready,
  invite_created, room_closed, error,
}
use nullpipe.External.Channels.{Sender}

-- What the system answers: the state directory of the environment, a fresh temporary directory, the
-- configuration for a directory, and a new client.
pub record System (C : Type 0) : Type 0 where
  pub state_dir : Option Text
  pub temp : Result Text Text
  pub build_config : Text → Result (Unit {0}) ChatError
  pub create : Result C Text

module _ (C : Type 0) where
  pub record TorBootstrap : Type 0 where
    pub client : Option C
    pub bootstrapped : Bool
    pub temp_dir : Option Text

  abbrev pub new : TorBootstrap
  new = record { client = none; bootstrapped = false; temp_dir = none }

  abbrev make_temp : Result Text Text → Result Text ChatError
  make_temp (ok dir) = ok dir
  make_temp (err e) = err (connection (lit "create temp dir: " ++ e))

  -- The temporary directory that has to live as long as the client.
  abbrev prepare : Option Text → System C → Result (Option Text) ChatError
  prepare (some dir) sys = bind (sys.build_config dir) λ _. ok none
  prepare none sys = bind (make_temp sys.temp) λ dir. bind (sys.build_config dir) λ _. ok (some dir)

  abbrev make_client : Result C Text → TorBootstrap → Result (Unit {0}) ChatError × TorBootstrap
  make_client (err e) b = (err (connection (lit "create client failed: " ++ e)), b)
  make_client (ok c) b = (ok tt, record b { client = some c; bootstrapped = true })

  abbrev with_dir :
      System C
      → TorBootstrap
      → Result (Option Text) ChatError
      → Result (Unit {0}) ChatError × TorBootstrap
  with_dir sys b (err e) = (err e, b)
  with_dir sys b (ok temp_dir) = make_client sys.create (record b { temp_dir = temp_dir })

  unfoldable pub bootstrap : System C → TorBootstrap → Result (Unit {0}) ChatError × TorBootstrap
  bootstrap sys b =
      if b.bootstrapped
      then (err (connection (lit "already bootstrapped")), b)
      else with_dir sys b (prepare sys.state_dir sys)

  abbrev pub client : TorBootstrap → Result C ChatError
  client b = elim b.client [
    | some c ↦ ok c
    | none ↦ err (connection (lit "client not bootstrapped"))
  ]

  -- A shared pointer to the client.
  pub client_arc : TorBootstrap → Result C ChatError
  client_arc b = bind (client b) λ c. ok c

  abbrev pub is_bootstrapped : TorBootstrap → Bool
  is_bootstrapped b = b.bootstrapped

  abbrev pub shutdown : TorBootstrap → TorBootstrap
  shutdown b = record { client = none; bootstrapped = false; temp_dir = none }

-- What the background task sees: a status in percent, already rounded down, or the end of the bootstrap.
pub data Status : Type 0 where
  at_percent : ℕ → Status
  no_more_status : Status
  done : Result (Unit {0}) Text → Status

abbrev outcome : Result (Unit {0}) Text → ChatEvent
outcome (ok _) = bootstrap_progress 100
outcome (err e) = error (connection (lit "bootstrap failed: " ++ e))

forward_live : List Status → List ChatEvent
forward_live [] = []
forward_live (at_percent pct ∷ rest) =
    bootstrap_progress (if leb pct 100 then pct else 100) ∷ forward_live rest
forward_live (no_more_status ∷ rest) = forward_live rest
forward_live (done r ∷ rest) = outcome r ∷ []

-- The events of the returned stream.
unfoldable pub forward : List Status → List ChatEvent
unfolding forward_live
forward statuses = bootstrap_progress 0 ∷ forward_live statuses

abbrev pub is_complete : ChatEvent → Bool
is_complete (bootstrap_progress pct) = pct == 100
is_complete (message from name text) = false
is_complete (peer_join info) = false
is_complete (peer_leave pid) = false
is_complete (room_ready a p) = false
is_complete (invite_created c) = false
is_complete room_closed = false
is_complete (error e) = false

pub data Turn : Type 0 where
  shutdown_signal : Turn
  next_event : ChatEvent → Turn
  stream_end : Turn

module _ (C : Type 0) (sender : Sender) where
  open sender use {Channel, send}

  -- The result, or none yet.
  pub data Watch : Type 0 where
    waiting : Bool → Channel → Watch
    returned : Option (TorBootstrap C) → Channel → Watch

  abbrev conclude : Bool → TorBootstrap C → Option (TorBootstrap C)
  conclude bootstrap_ok b = if bootstrap_ok then some b else none

  abbrev after_send : Bool → Channel → Watch → Watch
  after_send sent c rest = if sent then rest else returned none c

  unfoldable pub watch : List Turn → Bool → TorBootstrap C → Channel → Watch
  watch [] bootstrap_ok b c = waiting bootstrap_ok c
  watch (shutdown_signal ∷ turns) bootstrap_ok b c = returned none c
  watch (stream_end ∷ turns) bootstrap_ok b c = returned (conclude bootstrap_ok b) c
  watch (next_event e ∷ turns) bootstrap_ok b c =
      let rest = watch turns (bootstrap_ok || is_complete e) b (send e c).1 in
      after_send (send e c).0 (send e c).1 rest

  abbrev watch_started : List Turn → Result (Unit {0}) ChatError × TorBootstrap C → Channel → Watch
  watch_started turns (err e, b) c = returned none (send (error e) c).1
  watch_started turns (ok _, b) c = watch turns false b c

  unfoldable pub bootstrap_with_shutdown : System C → List Turn → Channel → Watch
  unfolding bootstrap
  bootstrap_with_shutdown sys turns c = watch_started turns (bootstrap C sys (new C)) c
