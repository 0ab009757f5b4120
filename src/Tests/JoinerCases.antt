-- ===== src/Tests/JoinerCases.antt =====
-- The theorems on the joiner and on the handshakes at concrete streams and channels.
use mathlib.Core.List.{reverse}
use nullpipe.Common.{◌≡◌, refl, [], ◌∷◌, ◌++◌, List, ok, false, true, same_refl, arith}
use nullpipe.Std.Utf8.{Bytes, IsUtf8, is_utf8}
use nullpipe.Std.Text.{Text, lit}
use nullpipe.Std.Endian.{to_be_bytes}
use nullpipe.Types.{ChatEvent, message, connection, nonce_reused, PeerId}
use nullpipe.External.Actions.{Returns, Raises}
use nullpipe.Nonces.{contains, insert}
use nullpipe.Wire.{chat_message, system_message, encode_message}
use nullpipe.Wire.Reading.{At}
use nullpipe.Joiner.Handshake.{handshake}
use nullpipe.Joiner.Handshake.Agreement.{handshake_rejected}
use nullpipe.Joiner.Outbox.{Outbox, flush_pending}
use nullpipe.Joiner.Outbox.Delivery.{flush_pending_reverses}
use nullpipe.Joiner.Reader.Delivery.{Frames, end, one_more}
use nullpipe.Joiner.Writer.Sending.{ChatFrames, write_loop_sends}
use nullpipe.Joiner.Writer.Sending
use nullpipe.Room.Handshake.{hub_handshake}
use nullpipe.Room.Handshake.Admission.{hub_handshake_reused}
use nullpipe.Room.Handshake.Agreement.{handshake_agreement}
use nullpipe.Tests.Instances.{
  Pipe, pipes, pipe_laws, unbounded, unbounded_laws, plain58, toy_json, toy_json_laws, body,
}
use nullpipe.Tests.WireCases.{hi, hi_frame, hi_encoded, hi-IsText, arriving, At-arriving}
use nullpipe.Tests.InviteCases.{nonce_16}

abbrev pub disc_16 : Bytes
disc_16 = 65 ∷ 65 ∷ 65 ∷ 65 ∷ 65 ∷ 65 ∷ 65 ∷ 65 ∷ 65 ∷ 65 ∷ 65 ∷ 65 ∷ 65 ∷ 65 ∷ 65 ∷ 66 ∷ []

abbrev pub ann : Text
ann = b'A' ∷ b'n' ∷ []

abbrev pub ann_frame : Bytes
ann_frame = 0 ∷ 0 ∷ 0 ∷ 4 ∷ b's' ∷ b'.' ∷ b'A' ∷ b'n' ∷ []

abbrev ann_id : PeerId
ann_id = record { text = disc_16 }

pub ann_encoded : encode_message toy_json (system_message ann) ≡ ok ann_frame
unfolding encode_message body to_be_bytes system_message
ann_encoded = refl

pub ann-IsUtf8 : IsUtf8 ann
unfolding is_utf8
ann-IsUtf8 = refl

handshake_rejected_example :
    (t : Pipe) × Raises
      (handshake toy_json plain58 pipes disc_16 ann nonce_16)
      (arriving (1 ∷ []))
      (connection (lit "handshake rejected by hub"))
      t
    × At pipes pipe_laws t [] ([] ++ (nonce_16 ++ disc_16))
handshake_rejected_example =
    handshake_rejected toy_json plain58 pipes pipe_laws disc_16 nonce_16 ann 1 (arriving (1 ∷ []))
      (omega arith) (At-arriving (1 ∷ []))

nonce_used : contains (nonce_16 ∷ []) nonce_16 ≡ true
unfolding contains
nonce_used = ground (arith, same_refl nonce_16)

pub nonce_fresh : contains [] nonce_16 ≡ false
unfolding contains
nonce_fresh = refl

hub_handshake_reused_example :
    (t : Pipe) × Raises
      (hub_handshake toy_json plain58 pipes)
      (arriving (nonce_16 ++ disc_16 ++ []), nonce_16 ∷ [])
      nonce_reused
      (t, nonce_16 ∷ [])
    × At pipes pipe_laws t [] ([] ++ (1 ∷ []))
hub_handshake_reused_example =
    hub_handshake_reused toy_json plain58 pipes pipe_laws nonce_16 disc_16 (nonce_16 ∷ [])
      (arriving (nonce_16 ++ disc_16 ++ [])) refl refl nonce_used
      (At-arriving (nonce_16 ++ disc_16 ++ []))

handshake_agreement_example :
    (joiner' hub' : Pipe) × Returns
      (handshake toy_json plain58 pipes disc_16 ann nonce_16)
      (arriving (0 ∷ []))
      ann_id
      joiner'
    × Returns
        (hub_handshake toy_json plain58 pipes)
        (arriving (nonce_16 ++ disc_16 ++ ann_frame), [])
        (ann_id, ann)
        (hub', insert [] nonce_16)
    × (joiner'.sent ≡ nonce_16 ++ disc_16 ++ ann_frame)
    × (hub'.sent ≡ 0 ∷ [])
    × (joiner'.unread ≡ [])
    × (hub'.unread ≡ [])
handshake_agreement_example =
    handshake_agreement toy_json plain58 pipes pipe_laws toy_json_laws nonce_16 disc_16 ann
      ann_frame [] (arriving (0 ∷ [])) (arriving (nonce_16 ++ disc_16 ++ ann_frame)) refl refl
      ann-IsUtf8 ann_encoded nonce_fresh (At-arriving (0 ∷ []))
      (At-arriving (nonce_16 ++ disc_16 ++ ann_frame))

abbrev outbox : List ChatEvent → List ChatEvent → Outbox unbounded
outbox taken waiting = record { channel = taken; pending = waiting }

abbrev said : Text → ChatEvent
said text = message ann_id ann text

flush_pending_reverses_example :
    ((flush_pending unbounded (outbox [] (said [] ∷ said ann ∷ []))).channel
      ≡ [] ++ reverse (said [] ∷ said ann ∷ []))
    × ((flush_pending unbounded (outbox [] (said [] ∷ said ann ∷ []))).pending ≡ [])
flush_pending_reverses_example =
    flush_pending_reverses unbounded unbounded_laws (outbox [] (said [] ∷ said ann ∷ []))
      (refl, (refl, tt))

pub hi-Frames : Frames toy_json (hi ∷ []) hi_frame
hi-Frames = one_more hi-IsText hi_encoded end refl

abbrev pub hi_text : Text
hi_text = b'h' ∷ b'i' ∷ []

pub hi_chat : encode_message toy_json (chat_message (b'a' ∷ []) hi_text) ≡ ok hi_frame
unfolding chat_message
hi_chat = hi_encoded

abbrev pub a_frame : Bytes
a_frame = 0 ∷ 0 ∷ 0 ∷ 3 ∷ b's' ∷ b'.' ∷ b'a' ∷ []

pub a_encoded : encode_message toy_json (system_message (b'a' ∷ [])) ≡ ok a_frame
unfolding encode_message body to_be_bytes system_message
a_encoded = refl

pub a-IsUtf8 : IsUtf8 (b'a' ∷ [])
unfolding is_utf8
a-IsUtf8 = refl

pub hi-IsUtf8 : IsUtf8 hi_text
unfolding is_utf8
hi-IsUtf8 = refl

pub hi_ChatFrames : ChatFrames toy_json (b'a' ∷ []) (hi_text ∷ []) hi_frame
hi_ChatFrames = Sending.one_more hi_chat Sending.end refl
