-- ===== src/Joiner/Writer.antt =====
-- `write_frame`, `process_outgoing_message`, `write_loop`, `run_disconnected` and `run`. What a `select!` picks, in its order of
-- priority, is a turn; the turns are the loop's argument, and a loop with no turn left is still waiting.
pub mod Sending
use nullpipe.Common.{List, [], ◌∷◌, Option, none, some, Result, ok, err}
use nullpipe.Std.Text.{Text, lit}
use nullpipe.Std.Utf8.{Bytes}
use nullpipe.Types.{ChatError, connection, PeerId}
use nullpipe.External.Streams.{Stream}
use nullpipe.External.Actions.{Action, timed, ◌>>◌}
use nullpipe.External.Channels.{Sender}
use nullpipe.Wire.{Json, chat_message, encode_message}
use nullpipe.Joiner.Outbox.{Outbox, make_event, try_emit, drain_and_flush}

-- `shutdown` and `reader_done` come with the messages that are still queued. `closed` is the end of the
-- message channel, which is then empty.
pub data Turn : Type 0 where
  shutdown : List Text → Turn
  reader_done : List Text → Turn
  outgoing : Text → Turn
  closed : Turn
  receiver_dropped : Turn

abbrev pub dropped : ChatError
dropped = connection (lit "event receiver dropped")

-- A loop that has ended, with its result, or that waits for its next turn.
pub data Progress (S : Type 0) : Type 0 where
  finished : Result (Unit {0}) ChatError → S → Progress S
  waiting : S → Progress S

module _ (json : Json) (st : Stream) (sender : Sender) (name : Text) (peer_id : PeerId) where
  abbrev pub Both : Type 0
  Both = st.State × Outbox sender

  pub write_frame : Bytes → Action st.State (Unit {0})
  write_frame frame = do
    timed (lit "write timed out") (lit "write failed: ") (st.write_all frame)
    timed (lit "flush timed out") (lit "flush failed: ") st.flush

  after_write :
      Text
      → Outbox sender
      → Result (Unit {0}) ChatError × st.State
      → Result (Unit {0}) ChatError × Both
  after_write text o (err e, s) = (err e, (s, o))
  after_write text o (ok _, s) = (ok tt, (s, try_emit sender (make_event peer_id name text) o))

  pub process_outgoing_message : Text → Both → Result (Unit {0}) ChatError × Both
  unfolding after_write write_frame
  process_outgoing_message text (s, o) = elim (encode_message json (chat_message name text)) [
    | err e ↦ (err e, (s, o))
    | ok frame ↦ after_write text o (write_frame frame s)
  ]

  drain : List Text → Both → Both
  drain texts (s, o) = (s, drain_and_flush sender peer_id name texts o)

  pub write_loop : List Turn → Both → Progress Both
  unfolding drain
  write_loop [] b = waiting b
  write_loop (shutdown texts ∷ turns) b = finished (ok tt) (drain texts b)
  write_loop (reader_done texts ∷ turns) b = finished (ok tt) (drain texts b)
  write_loop (closed ∷ turns) b = finished (ok tt) (drain [] b)
  write_loop (receiver_dropped ∷ turns) b = finished (err dropped) b
  write_loop (outgoing text ∷ turns) b = elim (process_outgoing_message text b).0 [
    | err e ↦ finished (err e) (process_outgoing_message text b).1
    | ok _ ↦ write_loop turns (process_outgoing_message text b).1
  ]

  -- With no stream, messages only become local events. There is no reader to end.
  pub run_disconnected : List Turn → Outbox sender → Progress (Outbox sender)
  run_disconnected [] o = waiting o
  run_disconnected (shutdown texts ∷ turns) o =
      finished (ok tt) (drain_and_flush sender peer_id name texts o)
  run_disconnected (closed ∷ turns) o = finished (ok tt) (drain_and_flush sender peer_id name [] o)
  run_disconnected (receiver_dropped ∷ turns) o = finished (err dropped) o
  run_disconnected (reader_done texts ∷ turns) o = run_disconnected turns o
  run_disconnected (outgoing text ∷ turns) o =
      run_disconnected turns (try_emit sender (make_event peer_id name text) o)
