-- ===== src/Hub/Tasks/Serving.antt =====
-- What the hub's reader passes on.
use nullpipe.Common.{
  append_assoc, append-nil, ℕ, zero, suc, ◌<◌, ◌≡◌, refl, ap, ◌∙◌, List, [], ◌∷◌, ◌++◌, length,
  some, ok, err, arith,
}
use nullpipe.Std.Utf8.{Bytes}
use nullpipe.Std.Text.{Text}
use nullpipe.Types.{ChatError, ChatEvent, message, PeerId}
use nullpipe.External.Streams.{Stream, StreamLaws}
use nullpipe.Wire.{
  Json, JsonLaws, WireMessage, MessageType, chat, system, ping, pong, encode_message, pong_message,
  read_frame,
}
use nullpipe.Wire.Reading.{At, At-coming, read_frame_end, read_frame-encode_message}
use nullpipe.Joiner.Reader.Delivery.{Frames, end, one_more}
use nullpipe.Hub.Tasks.{Passed, pass, well_formed, received, reader_task}

module _ (json : Json) (json_laws : JsonLaws json) (st : Stream) (laws : StreamLaws st)
    (peer_id : PeerId) (name : Text) where
  -- Message after message, with no stream.
  abbrev pub pass_all : List WireMessage → Passed → Passed
  pass_all [] p = p
  pass_all (m ∷ ms) p = pass_all ms (pass json st peer_id name m.kind m p)

  reader_task_stop :
      (fuel : ℕ) (s : st.State) (p : Passed) (e : ChatError)
      → (read_frame st s).0 ≡ ok (err e)
      → reader_task json st peer_id name (suc fuel) s p ≡ some p
  unfolding reader_task
  reader_task_stop fuel s p e h = rw (h, reader_task) refl

  reader_task_step :
      (fuel : ℕ) (s : st.State) (p : Passed) (m : WireMessage)
      → received json st (read_frame st s).0 ≡ some m
      → reader_task json st peer_id name (suc fuel) s p
        ≡ reader_task json st peer_id name fuel
            (read_frame st s).1
            (pass json st peer_id name m.kind m p)
  unfolding reader_task
  reader_task_step fuel s p m h = rw (h, reader_task) refl

  -- The reader goes through the messages that come, one by one, until they end.
  pub reader_task-pass_all :
      (fuel : ℕ) (ms : List WireMessage) (bytes done : Bytes) (s : st.State) (p : Passed)
      → length ms < fuel
      → Frames json ms bytes
      → At st laws s bytes done
      → reader_task json st peer_id name fuel s p ≡ some (pass_all ms p)
  reader_task-pass_all zero ms bytes done s p enough frames h = absurd (omega arith)
  reader_task-pass_all (suc fuel) [] bytes done s p enough end h =
      let (e, failed) = read_frame_end st laws s h in reader_task_stop fuel s p e failed
  reader_task-pass_all (suc fuel) (m ∷ ms) all done s p enough
        (one_more {bytes = bytes} {rest = rest} text e more split) h =
      let (got, decoded, h₁) =
        read_frame-encode_message st laws json json_laws m bytes rest done s text e
          (At-coming st laws s h split) in
      let read : received json st (read_frame st s).0 ≡ some m =
        ap (received json st) got ∙ ap (well_formed json st) decoded in
      reader_task_step fuel s p m read
      ∙ reader_task-pass_all fuel ms rest done (read_frame st s).1
          (pass json st peer_id name m.kind m p) (omega arith) more h₁

  -- What is passed on to the hub: every message but the pings, under the identifier of the peer.
  abbrev pub heard : List WireMessage → List (PeerId × WireMessage)
  heard [] = []
  heard (m ∷ ms) = elim m.kind [
    | chat ↦ (peer_id, m) ∷ heard ms
    | system ↦ (peer_id, m) ∷ heard ms
    | ping ↦ heard ms
    | pong ↦ (peer_id, m) ∷ heard ms
  ]

  -- The chat messages, under the name that the hub gave to the peer.
  abbrev pub told : List WireMessage → List ChatEvent
  told [] = []
  told (m ∷ ms) = elim m.kind [
    | chat ↦ message peer_id name m.text ∷ told ms
    | system ↦ told ms
    | ping ↦ told ms
    | pong ↦ told ms
  ]

  -- One answer for each ping.
  abbrev pub answers : Bytes → List WireMessage → List Bytes
  answers frame [] = []
  answers frame (m ∷ ms) = elim m.kind [
    | chat ↦ answers frame ms
    | system ↦ answers frame ms
    | ping ↦ frame ∷ answers frame ms
    | pong ↦ answers frame ms
  ]

  abbrev after : Bytes → List WireMessage → Passed → Passed
  after frame ms p = record {
    messages = p.messages ++ heard ms;
    events = p.events ++ told ms;
    replies = p.replies ++ answers frame ms;
  }

  pass-after :
      (frame : Bytes) (m : WireMessage) (ms : List WireMessage) (p : Passed) (k : MessageType)
      → encode_message json pong_message ≡ ok frame
      → after frame ms (pass json st peer_id name k m p) ≡ record {
        messages = p.messages ++ elim k [
          | chat ↦ (peer_id, m) ∷ heard ms
          | system ↦ (peer_id, m) ∷ heard ms
          | ping ↦ heard ms
          | pong ↦ (peer_id, m) ∷ heard ms
        ];
        events = p.events ++ elim k [
          | chat ↦ message peer_id name m.text ∷ told ms
          | system ↦ told ms
          | ping ↦ told ms
          | pong ↦ told ms
        ];
        replies = p.replies ++ elim k [
          | chat ↦ answers frame ms
          | system ↦ answers frame ms
          | ping ↦ frame ∷ answers frame ms
          | pong ↦ answers frame ms
        ];
      }
  pass-after frame m ms p chat e =
      rw
        (
          append_assoc p.messages ((peer_id, m) ∷ []) (heard ms),
          append_assoc p.events (message peer_id name m.text ∷ []) (told ms),
        )
        refl
  pass-after frame m ms p system e =
      rw (append_assoc p.messages ((peer_id, m) ∷ []) (heard ms)) refl
  pass-after frame m ms p ping e =
      rw (e, append_assoc p.replies (frame ∷ []) (answers frame ms)) refl
  pass-after frame m ms p pong e = rw (append_assoc p.messages ((peer_id, m) ∷ []) (heard ms)) refl

  pass_all_lem :
      (frame : Bytes) (ms : List WireMessage) (p : Passed)
      → encode_message json pong_message ≡ ok frame
      → pass_all ms p ≡ after frame ms p
  pass_all_lem frame [] p e =
      rw (append-nil p.messages, append-nil p.events, append-nil p.replies) refl
  pass_all_lem frame (m ∷ ms) p e =
      pass_all_lem frame ms (pass json st peer_id name m.kind m p) e
      ∙ pass-after frame m ms p m.kind e

  -- When a peer sends some messages of UTF-8 text whose frames can be encoded on a stream that works, and closes,
  -- and a pong can be encoded, the hub's reader ends within one round more than there are messages. It has then sent
  -- on every message but the pings under the peer's identifier, has made an event of every chat message under the
  -- peer's name, and has queued one pong for every ping, each in the order of the messages and behind what was
  -- there.
  pub reader_task_passes :
      (fuel : ℕ) (ms : List WireMessage) (bytes done frame : Bytes) (s : st.State) (p : Passed)
      → length ms < fuel
      → Frames json ms bytes
      → At st laws s bytes done
      → encode_message json pong_message ≡ ok frame
      → reader_task json st peer_id name fuel s p
        ≡ some (record {
          messages = p.messages ++ heard ms;
          events = p.events ++ told ms;
          replies = p.replies ++ answers frame ms;
        })
  reader_task_passes fuel ms bytes done frame s p enough frames h e =
      reader_task-pass_all fuel ms bytes done s p enough frames h
      ∙ ap some (pass_all_lem frame ms p e)
