-- ===== src/Hub/Calls.antt =====
-- What the calls of the hub's user leave alone.
use nullpipe.Common.{◌≡◌, refl, sym, subst, List, [], ◌∷◌, All, Result, ok, err, if_both}
use nullpipe.Std.Utf8.{Bytes}
use nullpipe.Std.Text.{Text, lit}
use nullpipe.Types.{ChatError, message, PeerId}
use nullpipe.Wire.{Json, WireMessage, encode_message, system_message, ping_message}
use nullpipe.Hub.{
  Hub, Next, send_all, publish, broadcast_hub, broadcast_ping, first_event, next_event, shutdown,
}

-- The registry, the nonces and the queue are the same.
abbrev pub Alike : Hub → Hub → Type 0
Alike a b =
    (a.peer_registry ≡ b.peer_registry) × (a.used_nonces ≡ b.used_nonces) × (a.queue ≡ b.queue)

send_all-Alike : (r : Result Bytes ChatError) (hub : Hub) → Alike (send_all r hub) hub
send_all-Alike (ok frame) hub = (refl, refl, refl)
send_all-Alike (err e) hub = (refl, refl, refl)

pub broadcast_hub-Alike :
    (json : Json) (text : Text) (hub : Hub) → Alike (broadcast_hub json text hub) hub
unfolding broadcast_hub
broadcast_hub-Alike json text hub =
    send_all-Alike (encode_message json (system_message text))
      (publish (message (record { text = lit "[hub]" }) (lit "[system]") text) hub)

pub broadcast_ping-Alike : (json : Json) (hub : Hub) → Alike (broadcast_ping json hub) hub
unfolding broadcast_ping
broadcast_ping-Alike json hub = send_all-Alike (encode_message json ping_message) hub

pub shutdown-Alike : (hub : Hub) → Alike (shutdown hub) hub
unfolding shutdown
shutdown-Alike hub = (refl, refl, refl)

-- The queue at most loses its front.
abbrev pub Drained : (PeerId × WireMessage → Type 0) → Hub → Next × Hub → Type 0
Drained P hub r =
    (r.1.peer_registry ≡ hub.peer_registry)
    × (r.1.used_nonces ≡ hub.used_nonces)
    × (All P hub.queue → All P r.1.queue)

first_event-Drained :
    (P : PeerId × WireMessage → Type 0) (queue : List (PeerId × WireMessage)) (hub : Hub)
    → queue ≡ hub.queue
    → Drained P hub (first_event queue hub)
first_event-Drained P [] hub e = (refl, refl, λ h. h)
first_event-Drained P ((id, m) ∷ rest) hub e = (refl, refl, λ h. (subst (All P) (sym e) h).1)

pub next_event-Drained :
    (P : PeerId × WireMessage → Type 0) (hub : Hub) → Drained P hub (next_event hub)
unfolding next_event
next_event-Drained P hub =
    if_both (Drained P hub) hub.running (first_event-Drained P hub.queue hub refl)
      (refl, refl, λ h. h)
