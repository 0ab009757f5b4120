-- ===== src/Joiner/Outbox.antt =====
-- The joiner's local events: `make_event`, `try_emit`, `flush_pending`, `drain_and_flush`. `pending` is the
-- `Vec` of events that the channel had no room for.
pub mod Delivery
use mathlib.Core.List.{reverse}
use nullpipe.Common.{List, [], ◌∷◌, ◌++◌, Bool, true, false, if◌then◌else◌}
use nullpipe.Std.Text.{Text}
use nullpipe.Types.{ChatEvent, message, PeerId}
use nullpipe.External.Channels.{Sender}

unfoldable pub make_event : PeerId → Text → Text → ChatEvent
make_event peer_id name text = message peer_id name text

module _ (sender : Sender) where
  open sender use {Channel, try_send}

  pub record Outbox : Type 0 where
    pub channel : Channel
    pub pending : List ChatEvent

  pub try_emit : ChatEvent → Outbox → Outbox
  try_emit event o = elim (try_send event o.channel).0 [
    | true ↦ record o { channel = (try_send event o.channel).1 }
    | false ↦ record { channel = (try_send event o.channel).1; pending = o.pending ++ event ∷ [] }
  ]

  -- `pop` takes the last event first; at the first refusal the rest is thrown away.
  flush : List ChatEvent → Channel → Channel
  flush [] c = c
  flush (event ∷ rest) c =
      let more = flush rest (try_send event c).1 in
      elim (try_send event c).0 [ true ↦ more | false ↦ (try_send event c).1 ]

  pub flush_pending : Outbox → Outbox
  unfolding flush
  flush_pending o = record { channel = flush (reverse o.pending) o.channel; pending = [] }

  unfoldable pub emit_all : PeerId → Text → List Text → Outbox → Outbox
  emit_all peer_id name [] o = o
  emit_all peer_id name (text ∷ texts) o =
      emit_all peer_id name texts (try_emit (make_event peer_id name text) o)

  -- `texts` are the messages that `try_recv` still finds.
  pub drain_and_flush : PeerId → Text → List Text → Outbox → Outbox
  unfolding emit_all flush_pending
  drain_and_flush peer_id name texts o = flush_pending (emit_all peer_id name texts o)
