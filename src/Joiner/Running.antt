-- ===== src/Joiner/Running.antt =====
-- `Joiner::run`, `run_connected`, `spawn_reader` and `stop_reader` of crates/core/src/joiner.rs: the reader and the writer on
-- the two halves of one stream. A move is one round of the reader or one turn of the writer, in any order.
pub mod Steps
pub mod Merging
use nullpipe.Common.{
  Bool, true, false, Option, none, some, List, [], ◌∷◌, Result, ok, err, if◌then◌else◌,
}
use nullpipe.Std.Utf8.{Bytes}
use nullpipe.Std.Text.{Text}
use nullpipe.Types.{ChatError, PeerId}
use nullpipe.External.Codecs.{Base58, Hex}
use nullpipe.External.Streams.{Stream}
use nullpipe.External.Channels.{Sender}
use nullpipe.Wire.{Json, read_frame}
use nullpipe.Joiner.Connect.{Joiner}
use nullpipe.Joiner.Outbox.{Outbox}
use nullpipe.Joiner.Reader.{after_frame, handle_incoming_frame}
use nullpipe.Joiner.Writer.{
  Turn, shutdown, reader_done, outgoing, closed, receiver_dropped, Progress, finished, waiting,
  write_loop, run_disconnected,
}

pub data Move : Type 0 where
  read : Move
  turn : Turn → Move

module _ (json : Json) (st : Stream) (sender : Sender) where
  -- `reading` says that the reader has not ended.
  pub record Running : Type 0 where
    pub stream : st.State
    pub outbox : Outbox sender
    pub reading : Bool

  abbrev pub after_round : Option Bytes → st.State → Running → Running
  after_round none s r = record r { stream = s; reading = false }
  after_round (some frame) s r = record r {
    stream = s;
    outbox = record r.outbox {
      channel = handle_incoming_frame json st sender frame r.outbox.channel;
    };
  }

  -- One round of the reader, if it has not ended.
  pub reader_round : Running → Running
  reader_round r =
      if r.reading
      then after_round (after_frame json st sender (read_frame st r.stream).0)
          (read_frame st r.stream).1 r
      else r

  module _ (name : Text) (peer_id : PeerId) where
    -- The end of the reader is seen only when it has ended.
    abbrev pub is_ready : Turn → Running → Bool
    is_ready (shutdown texts) r = true
    is_ready (reader_done texts) r = if r.reading then false else true
    is_ready (outgoing text) r = true
    is_ready closed r = true
    is_ready receiver_dropped r = true

    abbrev pub with_both : st.State × Outbox sender → Running → Running
    with_both (s, o) r = record r { stream = s; outbox = o }

    -- The end of the writer stops the reader.
    abbrev pub after_turn :
        Progress (st.State × Outbox sender)
        → Running
        → (Running → Progress Running)
        → Progress Running
    after_turn (finished result b) r go_on =
        finished result (record (with_both b r) { reading = false })
    after_turn (waiting b) r go_on = go_on (with_both b r)

    unfoldable pub run_connected : List Move → Running → Progress Running
    run_connected [] r = waiting r
    run_connected (read ∷ moves) r = run_connected moves (reader_round r)
    run_connected (turn t ∷ moves) r =
        let rest = run_connected moves r in
        if is_ready t r
        then after_turn (write_loop json st sender name peer_id (t ∷ []) (r.stream, r.outbox)) r
            (run_connected moves)
        else rest

  abbrev turns_of : List Move → List Turn
  turns_of [] = []
  turns_of (read ∷ moves) = turns_of moves
  turns_of (turn t ∷ moves) = t ∷ turns_of moves

  abbrev pub outbox_of : Progress Running → Progress (Outbox sender)
  outbox_of (finished result r) = finished result r.outbox
  outbox_of (waiting r) = waiting r.outbox

  module _ (base58 : Base58) (hex : Hex) where
    abbrev start : st.State → Outbox sender → Running
    start s o = record { stream = s; outbox = o; reading = true }

    -- The stream is taken from the joiner, so that a second run is one without a stream.
    unfoldable pub run :
        Joiner json base58 hex st
        → List Move
        → Outbox sender
        → Progress (Outbox sender) × Joiner json base58 hex st
    run j moves o = elim j.stream [
      | some s ↦
          (outbox_of (run_connected j.name j.peer_id moves (start s o)), record j { stream = none })
      | none ↦ (run_disconnected json st sender j.name j.peer_id (turns_of moves) o, j)
    ]
