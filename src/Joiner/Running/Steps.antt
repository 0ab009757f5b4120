-- ===== src/Joiner/Running/Steps.antt =====
-- One round of a connected joiner's reader, one text of its writer, and the end of both.
use nullpipe.Common.{
  ◌≡◌, refl, sym, ap, ◌∙◌, true, false, List, [], ◌∷◌, ◌++◌, subst, map, ok, if◌then◌else◌,
}
use nullpipe.Std.Utf8.{Bytes}
use nullpipe.Std.Text.{Text}
use nullpipe.Types.{ChatEvent, PeerId}
use nullpipe.External.Streams.{Stream, StreamLaws}
use nullpipe.External.Channels.{Sender, SenderLaws}
use nullpipe.Wire.{
  Json, JsonLaws, WireMessage, read_frame, decode_message, encode_message, chat_message,
}
use nullpipe.Wire.Reading.{At, At-coming, read_frame_end, read_frame-encode_message}
use nullpipe.Joiner.Outbox.{Outbox, make_event, try_emit, drain_and_flush}
use nullpipe.Joiner.Outbox.Delivery.{HasRoomFor, try_emit_taken, drain_and_flush_taken}
use nullpipe.Joiner.Reader.{incoming_event, after_frame}
use nullpipe.Joiner.Reader.Delivery.{Frames, one_more, handle_incoming_frame_sends}
use nullpipe.Joiner.Writer.{outgoing, reader_done, Progress, finished, waiting, write_loop}
use nullpipe.Joiner.Writer.Sending.{
  process_sends, write_loop_step, write_loop-nil, write_loop-reader_done,
}
use nullpipe.Joiner.Running.{
  Move, read, turn, Running, after_round, after_turn, reader_round, run_connected,
}

-- A joiner's surroundings: the codec, the stream and the channel with their laws, its name and identifier, and
-- room in the channel.
pub record Setting : Type 1 where
  pub json : Json
  pub json_laws : JsonLaws json
  pub st : Stream
  pub laws : StreamLaws st
  pub sender : Sender
  pub sender_laws : SenderLaws sender
  pub name : Text
  pub peer_id : PeerId
  pub room : HasRoomFor sender sender_laws

module _ (w : Setting) where
  open w use {json, json_laws, st, laws, sender, sender_laws, name, peer_id, room}
  open sender_laws use {taken, Open, try_taken, send_taken}

  -- A joiner whose channel has taken these events, whose stream stands here and to which nothing was refused.
  pub record Stands (r : Running json st sender) (events : List ChatEvent) (coming done : Bytes)
      : Type 0 where
    pub at : At st laws r.stream coming done
    pub reads : r.reading ≡ true
    pub open_lem : Open r.outbox.channel
    pub pending_lem : r.outbox.pending ≡ []
    pub taken_lem : taken r.outbox.channel ≡ events

  pub Stands-eq :
      (r : Running json st sender) {events events' : List ChatEvent} {coming done done' : Bytes}
      → Stands r events coming done
      → events ≡ events'
      → done ≡ done'
      → Stands r events' coming done'
  Stands-eq r h e d = record {
    at = record { up = h.at.up; coming_lem = h.at.coming_lem; written_lem = h.at.written_lem ∙ d };
    reads = h.reads;
    open_lem = h.open_lem;
    pending_lem = h.pending_lem;
    taken_lem = h.taken_lem ∙ e;
  }

  reader_round_step :
      (m : WireMessage) (bytes : Bytes) (r : Running json st sender)
      → r.reading ≡ true
      → (read_frame st r.stream).0 ≡ ok (ok bytes)
      → decode_message json bytes ≡ ok m
      → reader_round json st sender r ≡ record r {
        stream = (read_frame st r.stream).1;
        outbox = record r.outbox { channel = (sender.send (incoming_event m) r.outbox.channel).1 };
      }
  unfolding reader_round
  reader_round_step m bytes r alive got decoded =
      let sent =
        handle_incoming_frame_sends json json_laws st laws sender sender_laws m bytes
          r.outbox.channel decoded in
      ap
        (λ b.
          if b
          then after_round json st sender (after_frame json st sender (read_frame st r.stream).0)
              (read_frame st r.stream).1 r
          else r)
        alive
      ∙ ap
          (λ g.
            after_round json st sender (after_frame json st sender g) (read_frame st r.stream).1 r)
          got
      ∙ ap
          (λ c. record r {
            stream = (read_frame st r.stream).1;
            outbox = record r.outbox { channel = c };
          })
          sent

  pub reader_round-Stands :
      (m : WireMessage) (ms : List WireMessage) (r : Running json st sender)
      (events : List ChatEvent) {all : Bytes} (done : Bytes)
      → Frames json (m ∷ ms) all
      → Stands r events all done
      → (rest : Bytes) × Frames json ms rest
        × Stands (reader_round json st sender r) (events ++ incoming_event m ∷ []) rest done
  reader_round-Stands m ms r events done (one_more {bytes = bytes} {rest = rest} text e more split)
        h =
      let (got, decoded, h₁) =
        read_frame-encode_message st laws json json_laws m bytes rest done r.stream text e
          (At-coming st laws r.stream h.at split) in
      let (took, still) = send_taken (incoming_event m) r.outbox.channel h.open_lem in
      (
        rest,
        more,
        subst (λ r'. Stands r' (events ++ incoming_event m ∷ []) rest done)
            (sym (reader_round_step m bytes r h.reads got decoded))
            (record {
              at = h₁;
              reads = h.reads;
              open_lem = still;
              pending_lem = h.pending_lem;
              taken_lem = took ∙ ap (λ l. l ++ incoming_event m ∷ []) h.taken_lem;
            }),
      )

  abbrev pub go : List Move → Running json st sender → Progress (Running json st sender)
  go = run_connected json st sender name peer_id

  pub send-Stands :
      (text : Text) (frame : Bytes) (moves : List Move) (r : Running json st sender)
      (events : List ChatEvent) {coming done : Bytes}
      → encode_message json (chat_message name text) ≡ ok frame
      → Stands r events coming done
      → (r' : Running json st sender) × (go (turn (outgoing text) ∷ moves) r ≡ go moves r')
        × Stands r' (events ++ make_event peer_id name text ∷ []) coming (done ++ frame)
  unfolding run_connected
  send-Stands text frame moves r events {coming} {done} e h =
      let event = make_event peer_id name text in
      let (t, sends, h₁) =
        process_sends json st laws sender name peer_id text frame r.stream r.outbox e h.at in
      let (takes, still) = room event r.outbox.channel h.open_lem in
      let c = (sender.try_send event r.outbox.channel).1 in
      let emitted : try_emit sender event r.outbox ≡ record r.outbox { channel = c } =
        try_emit_taken sender sender_laws event r.outbox takes in
      let wrote : write_loop json st sender name peer_id (outgoing text ∷ []) (r.stream, r.outbox)
          ≡ waiting (t, record r.outbox { channel = c }) =
        write_loop_step json st laws sender name peer_id text [] (r.stream, r.outbox)
          (t, record r.outbox { channel = c }) (sends ∙ ap (λ o. (ok tt, (t, o))) emitted)
        ∙ write_loop-nil json st laws sender name peer_id (t, record r.outbox { channel = c }) in
      (
        record r { stream = t; outbox = record r.outbox { channel = c } },
        ap (λ p. after_turn json st sender name peer_id p r (go moves)) wrote,
        record {
          at = h₁;
          reads = h.reads;
          open_lem = still;
          pending_lem = h.pending_lem;
          taken_lem =
              try_taken event r.outbox.channel takes ∙ ap (λ l. l ++ event ∷ []) h.taken_lem;
        },
      )

  pub read_moves :
      (moves : List Move) (r : Running json st sender)
      → go (read ∷ moves) r ≡ go moves (reader_round json st sender r)
  unfolding run_connected
  read_moves moves r = refl

  pub reader_round_end :
      (r : Running json st sender) {events : List ChatEvent} {done : Bytes}
      → Stands r events [] done
      → reader_round json st sender r
        ≡ record r { stream = (read_frame st r.stream).1; reading = false }
  unfolding reader_round
  reader_round_end r h =
      let (e, failed) = read_frame_end st laws r.stream h.at in
      ap
        (λ b.
          if b
          then after_round json st sender (after_frame json st sender (read_frame st r.stream).0)
              (read_frame st r.stream).1 r
          else r)
        h.reads
      ∙ ap
          (λ g.
            after_round json st sender (after_frame json st sender g) (read_frame st r.stream).1 r)
          failed

  pub reader_done_ends :
      (waiting_texts : List Text) (moves : List Move) (r : Running json st sender)
      → r.reading ≡ false
      → r.outbox.pending ≡ []
      → Open r.outbox.channel
      → (r' : Running json st sender) × (go (turn (reader_done waiting_texts) ∷ moves) r
          ≡ finished (ok tt) r')
        × (taken r'.outbox.channel
            ≡ taken r.outbox.channel ++ map (make_event peer_id name) waiting_texts)
        × (r'.outbox.pending ≡ [])
  unfolding run_connected
  reader_done_ends waiting_texts moves r over empty open_ =
      let (c, drains, took) =
        drain_and_flush_taken sender sender_laws room peer_id name waiting_texts r.outbox.channel
          open_ in
      let o : Outbox sender = record { channel = c; pending = [] } in
      let drained : drain_and_flush sender peer_id name waiting_texts r.outbox ≡ o =
        ap
          (λ p. drain_and_flush sender peer_id name waiting_texts (record r.outbox { pending = p }))
          empty
        ∙ drains in
      let ends : write_loop json st sender name peer_id (reader_done waiting_texts ∷ [])
            (r.stream, r.outbox)
          ≡ finished (ok tt) (r.stream, o) =
        write_loop-reader_done json st laws sender name peer_id waiting_texts r.stream r.outbox
        ∙ ap (λ o'. finished (ok tt) (r.stream, o')) drained in
      (
        record r { outbox = o; reading = false },
        ap
              (λ b.
                if if b then false else true
                then after_turn json st sender name peer_id
                    (write_loop json st sender name peer_id (reader_done waiting_texts ∷ [])
                      (r.stream, r.outbox))
                    r (go moves)
                else go moves r)
              over
            ∙ ap (λ p. after_turn json st sender name peer_id p r (go moves)) ends,
        took,
        refl,
      )
