-- ===== src/Hub/Room.antt =====
-- `HostedRoom` of crates/core/src/hub.rs: the life of the onion service.
use nullpipe.Common.{ℕ, Bool, true, false, Option, none, some, List, [], ◌∷◌, ◌++◌, Result, ok, err}
use nullpipe.Common.{◌>>=◌ as bind}
use nullpipe.Std.Text.{Text, lit}
use nullpipe.Types.{ChatError, onion_service, ChatEvent, room_ready}

-- What arti answers: the nickname, the configuration, whether a service was launched, and its address.
pub record Launch : Type 0 where
  pub nickname : Result (Unit {0}) Text
  pub config : Result (Unit {0}) Text
  pub launched : Result Bool Text
  pub onion_address : Option Text

-- `service` and `stream_rx` say whether they are held.
pub record HostedRoom : Type 0 where
  pub service : Bool
  pub onion : Option Text
  pub port_number : ℕ
  pub stream_rx : Bool

abbrev problem : Text → Result (Unit {0}) Text → Result (Unit {0}) ChatError
problem s (ok _) = ok tt
problem s (err e) = err (onion_service (s ++ e))

abbrev check_launched : Result Bool Text → Result (Unit {0}) ChatError
check_launched (err e) = err (onion_service (lit "launch failed: " ++ e))
check_launched (ok false) = err (onion_service (lit "onion service disabled in config"))
check_launched (ok true) = ok tt

abbrev with_address : ℕ → Option Text → Result HostedRoom ChatError
with_address port none = err (onion_service (lit "could not get onion address"))
with_address port (some a) =
    ok (record { service = true; onion = some a; port_number = port; stream_rx = true })

pub new : Launch → ℕ → Result HostedRoom ChatError
new l port = bind (problem (lit "invalid nickname: ") l.nickname) λ _.
    bind (problem (lit "config build failed: ") l.config)
      λ _. bind (check_launched l.launched) λ _. with_address port l.onion_address

-- `accept_loop`: the accepted streams that reach the channel, on what each request gives and whether the channel's
-- receiver still lives. A request that fails is skipped, and a closed channel ends the loop.
pub accept_loop : {S : Type 0} → List (Result S Text × Bool) → List S
accept_loop [] = []
accept_loop ((err e, open_) ∷ requests) = accept_loop requests
accept_loop ((ok s, true) ∷ requests) = s ∷ accept_loop requests
accept_loop ((ok s, false) ∷ requests) = []

abbrev or_empty : Option Text → Text
or_empty none = []
or_empty (some a) = a

pub address : HostedRoom → Text
address room = or_empty room.onion

pub port : HostedRoom → ℕ
port room = room.port_number

pub ready_event : HostedRoom → ChatEvent
unfolding address
ready_event room = room_ready (address room) room.port_number

-- `shutdown`, which `Drop` calls too.
pub shutdown : HostedRoom → HostedRoom
shutdown room = record room { service = false; onion = none; stream_rx = false }

pub is_running : HostedRoom → Bool
is_running room = room.service
