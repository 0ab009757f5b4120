-- ===== src/Room/PeerIo.antt =====
-- The tasks on a connection's two halves in crates/core/src/room.rs: `hub_reader_task`, the hub's writer in
-- `handle_hub_connection`, and the mock joiner's `joiner_reader_loop` and writer.
pub mod Reading
pub mod Writing
use nullpipe.Common.{
  ℕ, zero, suc, Bool, true, false, Option, none, some, List, [], ◌∷◌, ◌++◌, Result, ok, err,
  if◌then◌else◌,
}
use nullpipe.Std.Utf8.{Bytes}
use nullpipe.Std.Text.{Text, lit}
use nullpipe.Types.{ChatError, ChatEvent, message, PeerId}
use nullpipe.External.Streams.{Stream, Timed, Elapsed}
use nullpipe.External.Channels.{Sender}
use nullpipe.Wire.{
  Json, WireMessage, MessageType, chat, system, ping, pong, chat_message, encode_message,
  decode_message, read_frame, TimedFrame,
}

module _ (json : Json) (st : Stream) where
  open st use {State, write_all, flush}

  abbrev pub checked : Result WireMessage ChatError → Result WireMessage (Unit {0})
  checked (ok m) = ok m
  checked (err e) = err tt

  -- What a round of reading gave: the message, or the end of the loop at an error, a timeout or a
  -- malformed frame.
  abbrev pub incoming_message :
      Result (Result Bytes ChatError) Elapsed → Result WireMessage (Unit {0})
  incoming_message (err late) = err tt
  incoming_message (ok (err e)) = err tt
  incoming_message (ok (ok frame)) = checked (decode_message json frame)

  abbrev pub is_ping : MessageType → Bool
  is_ping chat = false
  is_ping system = false
  is_ping ping = true
  is_ping pong = false

  abbrev pub forward :
      PeerId → WireMessage → List (PeerId × WireMessage) → List (PeerId × WireMessage)
  forward peer_id m sent = if is_ping m.kind then sent else sent ++ (peer_id, m) ∷ []

  -- `sent` is what was put on the message channel; `none` says that the fuel ran out.
  pub hub_reader_task :
      PeerId → ℕ → State → List (PeerId × WireMessage) → Option (List (PeerId × WireMessage))
  hub_reader_task peer_id zero s sent = none
  hub_reader_task peer_id (suc fuel) s sent = elim (incoming_message (read_frame st s).0) [
    | err over ↦ some sent
    | ok m ↦ hub_reader_task peer_id fuel (read_frame st s).1 (forward peer_id m sent)
  ]

  -- What the broadcast channel gives.
  pub data Turn : Type 0 where
    broadcasted : WireMessage → Turn
    lagged : ℕ → Turn
    closed : Turn

  -- Only a timeout ends the loop: an error that the stream reports in time is not looked at.
  abbrev in_time : Timed (Unit {0}) → Bool
  in_time (ok r) = true
  in_time (err late) = false

  abbrev write_then : Bool → State → (State → State) → State
  write_then true s k = k s
  write_then false s k = s

  abbrev pub send_frame : Result Bytes ChatError → State → (State → State) → State
  send_frame (err e) s next = next s
  send_frame (ok frame) s next =
      write_then (in_time (write_all frame s).0) (write_all frame s).1
        λ t. write_then (in_time (flush t).0) (flush t).1 next

  -- The state of the stream when the writer stops or waits.
  pub hub_writer_task : List Turn → State → State
  hub_writer_task [] s = s
  hub_writer_task (closed ∷ turns) s = s
  hub_writer_task (lagged n ∷ turns) s = hub_writer_task turns s
  hub_writer_task (broadcasted m ∷ turns) s =
      send_frame (encode_message json m) s (hub_writer_task turns)

  module _ (sender : Sender) where
    open sender use {Channel, send}

    abbrev pub peer_event : WireMessage → ChatEvent
    peer_event m = message (record { text = lit "[peer]" }) m.name m.text

    -- Whether the loop goes on.
    abbrev pub show : MessageType → WireMessage → Channel → Bool × Channel
    show chat m c = send (peer_event m) c
    show ping m c = (true, c)
    show pong m c = (true, c)
    show system m c = (true, c)

    -- The mock joiner's reader. It waits without a limit, so that no timeout comes.
    pub joiner_reader_loop : ℕ → State → Channel → Option Channel
    joiner_reader_loop zero s c = none
    joiner_reader_loop (suc fuel) s c = elim (incoming_message (read_frame st s).0) [
      | err over ↦ some c
      | ok m ↦
          let shown = show m.kind m c in
          let rest = joiner_reader_loop fuel (read_frame st s).1 shown.1 in
          if shown.0 then rest else some shown.1
    ]
