-- ===== src/Joiner/Reader.antt =====
-- `reader_loop` and `handle_incoming_frame`: frames from the hub become chat events.
pub mod Delivery
use nullpipe.Common.{ℕ, zero, suc, Option, none, some, Result, ok, err}
use nullpipe.Std.Utf8.{Bytes}
use nullpipe.Types.{ChatError, ChatEvent, message, PeerId}
use nullpipe.External.Streams.{Stream, Elapsed}
use nullpipe.External.Channels.{Sender}
use nullpipe.Wire.{Json, WireMessage, decode_message, read_frame, TimedFrame}

-- The event of an incoming message of any kind.
unfoldable pub incoming_event : WireMessage → ChatEvent
incoming_event m = message (record { text = m.name }) m.name m.text

module _ (json : Json) (st : Stream) (sender : Sender) where
  open sender use {Channel, send}

  -- A malformed frame is logged and skipped.
  abbrev deliver : Result WireMessage ChatError → Channel → Channel
  deliver (ok m) c = (send (incoming_event m) c).1
  deliver (err e) c = c

  pub handle_incoming_frame : Bytes → Channel → Channel
  handle_incoming_frame frame c = deliver (decode_message json frame) c

  -- One round on what `read_frame` gave: `none` ends the loop, and so does a timeout.
  abbrev pub after_frame : Result (Result Bytes ChatError) Elapsed → Option Bytes
  after_frame (ok (ok frame)) = some frame
  after_frame (ok (err e)) = none
  after_frame (err late) = none

  -- `none` says that the fuel ran out before the loop ended.
  pub reader_loop : ℕ → st.State → Channel → Option (st.State × Channel)
  reader_loop zero s c = none
  reader_loop (suc fuel) s c = elim (after_frame (read_frame st s).0) [
    | none ↦ some ((read_frame st s).1, c)
    | some frame ↦ reader_loop fuel (read_frame st s).1 (handle_incoming_frame frame c)
  ]
