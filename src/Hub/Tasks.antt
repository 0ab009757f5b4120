-- ===== src/Hub/Tasks.antt =====
-- `Hub::reader_task` and `Hub::writer_task` of crates/core/src/hub.rs.
pub mod Serving
use nullpipe.Common.{
  ℕ, zero, suc, Bool, true, false, Option, none, some, List, [], ◌∷◌, ◌++◌, Result, ok, err,
  if◌then◌else◌,
}
use nullpipe.Std.Utf8.{Bytes}
use nullpipe.Std.Text.{Text, lit}
use nullpipe.Types.{
  ChatError, ChatEvent, message, peer_join, peer_leave, bootstrap_progress, room_ready,
  invite_created, room_closed, error, PeerId,
}
use nullpipe.External.Streams.{Stream, Timed, Elapsed}
use nullpipe.Wire.{
  Json, WireMessage, MessageType, chat, system, ping, pong, chat_message, system_message,
  pong_message, encode_message, decode_message, read_frame,
}

-- What a peer's reader has passed on: messages, events, and frames for its own writer.
pub record Passed : Type 0 where
  pub messages : List (PeerId × WireMessage)
  pub events : List ChatEvent
  pub replies : List Bytes

module _ (json : Json) (st : Stream) where
  abbrev pub reply : Result Bytes ChatError → Passed → Passed
  reply (ok frame) p = record p { replies = p.replies ++ frame ∷ [] }
  reply (err e) p = p

  abbrev queue_message : PeerId → WireMessage → Passed → Passed
  queue_message peer_id m p = record p { messages = p.messages ++ (peer_id, m) ∷ [] }

  -- A ping is answered; any other message is passed on, and a chat message becomes an event too, under the name that
  -- the hub gave to the peer.
  abbrev pub pass : PeerId → Text → MessageType → WireMessage → Passed → Passed
  pass peer_id name ping m p = reply (encode_message json pong_message) p
  pass peer_id name chat m p = record (queue_message peer_id m p) {
    events = p.events ++ message peer_id name m.text ∷ [];
  }
  pass peer_id name system m p = queue_message peer_id m p
  pass peer_id name pong m p = queue_message peer_id m p

  abbrev pub well_formed : Result WireMessage ChatError → Option WireMessage
  well_formed (ok m) = some m
  well_formed (err e) = none

  abbrev pub received : Result (Result Bytes ChatError) Elapsed → Option WireMessage
  received (err late) = none
  received (ok (err e)) = none
  received (ok (ok frame)) = well_formed (decode_message json frame)

  -- `none` says that the fuel ran out.
  pub reader_task : PeerId → Text → ℕ → st.State → Passed → Option Passed
  reader_task peer_id name zero s p = none
  reader_task peer_id name (suc fuel) s p = elim (received (read_frame st s).0) [
    | none ↦ some p
    | some m ↦ reader_task peer_id name fuel (read_frame st s).1 (pass peer_id name m.kind m p)
  ]

  -- A frame of the peer's own channel, or its end, or what the broadcast channel gives.
  pub data Turn : Type 0 where
    own_frame : Bytes → Turn
    own_end : Turn
    broadcasted : ChatEvent → Turn
    lagged : ℕ → Turn
    closed : Turn

  -- The message that an event becomes; other events are skipped.
  abbrev pub event_message : ChatEvent → Option WireMessage
  event_message (message from name text) = some (chat_message name text)
  event_message (peer_join info) = some (system_message (info.name ++ lit " joined"))
  event_message (peer_leave pid) = some (system_message (pid.text ++ lit " left"))
  event_message (bootstrap_progress pct) = none
  event_message (room_ready a p) = none
  event_message (invite_created c) = none
  event_message room_closed = none
  event_message (error e) = none

  -- Only a write that takes too long ends the loop; an error of the stream does not.
  abbrev pub in_time : Timed (Unit {0}) → Bool
  in_time (ok r) = true
  in_time (err late) = false

  abbrev pub encoded : Option WireMessage → Option Bytes
  encoded none = none
  encoded (some m) = elim (encode_message json m) [ ok frame ↦ some frame | err e ↦ none ]

  abbrev pub put : Option Bytes → st.State → Bool × st.State
  put none s = (true, s)
  put (some frame) s = (in_time (st.write_all frame s).0, (st.write_all frame s).1)

  -- One turn, and whether the loop goes on. Nothing is flushed, so that a frame which the stream has taken may stay in
  -- its buffer.
  unfoldable pub writer_round : Turn → st.State → Bool × st.State
  writer_round (own_frame frame) s = put (some frame) s
  writer_round own_end s = (false, s)
  writer_round (broadcasted e) s = put (encoded (event_message e)) s
  writer_round (lagged n) s = (true, s)
  writer_round closed s = (false, s)

  pub writer_task : List Turn → st.State → st.State
  unfolding writer_round
  writer_task [] s = s
  writer_task (t ∷ turns) s =
      let rest = writer_task turns (writer_round t s).1 in
      if (writer_round t s).0 then rest else (writer_round t s).1
