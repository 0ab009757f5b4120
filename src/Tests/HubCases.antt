-- ===== src/Tests/HubCases.antt =====
-- The theorems on the hub at concrete streams.
use nullpipe.Common.{ℕ, List, none, length, ◌↔◌, ◌≡◌, refl, [], ◌∷◌, ◌++◌, take, some, ok, arith}
use nullpipe.Std.Text.{lit}
use nullpipe.Std.Endian.{to_be_bytes}
use nullpipe.Types.{PeerId, message}
use nullpipe.External.Actions.{Returns}
use nullpipe.Std.Utf8.{Bytes, is_utf8}
use nullpipe.Joiner.Reader.Delivery.{end, one_more}
use nullpipe.Wire.{WireMessage, ping, pong_message, encode_message, system_message, chat_message}
use nullpipe.Joiner.Handshake.{handshake as joiner_handshake}
use nullpipe.Hub.Joined.{joiner_at_hub}
use nullpipe.Nonces.{insert}
use nullpipe.Wire.Reading.{At}
use nullpipe.Hub.Handshake.{handshake}
use nullpipe.Hub.Handshake.Pieces.{handshake_whole}
use nullpipe.Hub.Tasks.{Passed, reader_task}
use nullpipe.Hub.Tasks.Serving.{reader_task_passes}
use nullpipe.PeerMap.{lookup, IsUnique}
use nullpipe.Hub.Registry.{len, broadcast_to_all}
use nullpipe.Hub.Registry.Following.{
  Step, coming, leaving, perform, left_of, IsIn, IsOf, registry_follows,
}
use nullpipe.Tests.Instances.{
  Pipe, pipes, pipe_laws, plain58, letters, toy_json, toy_json_laws, body,
}
use nullpipe.Tests.WireCases.{hi_encoded, hi-IsText, hi, hi_frame, arriving, At-arriving}
use nullpipe.Tests.InviteCases.{nonce_16}
use nullpipe.Tests.JoinerCases.{
  disc_16, nonce_fresh, hi_text, hi_ChatFrames, a_frame, a_encoded, a-IsUtf8, hi-IsUtf8,
}

handshake_whole_example :
    (t : Pipe) × (handshake plain58 letters pipes (arriving ((nonce_16 ++ disc_16) ++ []), [])
      ≡ some (
        ok (record { text = disc_16 }, lit "peer-" ++ letters.encode (take 4 disc_16)),
        (t, insert [] nonce_16),
      ))
    × At pipes pipe_laws t [] ([] ++ (0 ∷ []))
handshake_whole_example =
    handshake_whole plain58 letters pipes pipe_laws nonce_16 disc_16 []
      (arriving ((nonce_16 ++ disc_16) ++ [])) refl refl nonce_fresh
      (At-arriving ((nonce_16 ++ disc_16) ++ []))

abbrev id : PeerId
id = record { text = disc_16 }

abbrev nothing : Passed
nothing = record { messages = []; events = []; replies = [] }

abbrev asked : WireMessage
asked = record { kind = ping; name = []; text = [] }

abbrev asked_frame : Bytes
asked_frame = 0 ∷ 0 ∷ 0 ∷ 2 ∷ b'i' ∷ b'.' ∷ []

asked_encoded : encode_message toy_json asked ≡ ok asked_frame
unfolding encode_message body to_be_bytes
asked_encoded = refl

abbrev pong_frame : Bytes
pong_frame = 0 ∷ 0 ∷ 0 ∷ 2 ∷ b'o' ∷ b'.' ∷ []

pong_encoded : encode_message toy_json pong_message ≡ ok pong_frame
unfolding encode_message body to_be_bytes pong_message
pong_encoded = refl

-- A chat message and a ping.
reader_task_passes_example :
    reader_task toy_json pipes id (lit "peer-1") 3 (arriving (hi_frame ++ asked_frame)) nothing
    ≡ some (record {
      messages = (id, hi) ∷ [];
      events = message id (lit "peer-1") hi_text ∷ [];
      replies = pong_frame ∷ [];
    })
unfolding is_utf8
reader_task_passes_example =
    reader_task_passes toy_json toy_json_laws pipes pipe_laws id (lit "peer-1") 3 (hi ∷ asked ∷ [])
      (hi_frame ++ asked_frame) [] pong_frame (arriving (hi_frame ++ asked_frame)) nothing
      (omega arith)
      (one_more hi-IsText hi_encoded (one_more {m = asked} (refl, refl) asked_encoded end refl)
        refl)
      (At-arriving (hi_frame ++ asked_frame)) pong_encoded

-- A peer comes twice, another one comes and goes.
abbrev steps : List Step
steps =
    coming id (lit "ann") 1 10
    ∷ coming (record { text = lit "bob" }) (lit "bob") 2 11
    ∷ coming id (lit "anna") 3 12
    ∷ leaving (record { text = lit "bob" })
    ∷ []

registry_follows_example :
    ((k : PeerId) → lookup k (perform steps []) ≡ left_of k steps none)
    × IsUnique (perform steps [])
    × (length (broadcast_to_all hi_frame (perform steps [])) ≡ len (perform steps []))
    × ((tx : ℕ)
        → IsIn (tx, hi_frame) (broadcast_to_all hi_frame (perform steps []))
          ↔ ((k : PeerId) × IsOf tx (left_of k steps none)))
registry_follows_example = registry_follows steps hi_frame

joiner_at_hub_example :
    (joiner' hub' : Pipe) × Returns
      (joiner_handshake toy_json plain58 pipes disc_16 (b'a' ∷ []) nonce_16)
      (arriving (0 ∷ []))
      id
      joiner'
    × (handshake plain58 letters pipes
          (arriving ((nonce_16 ++ disc_16) ++ (a_frame ++ hi_frame)), [])
        ≡ some
            (ok (id, lit "peer-" ++ letters.encode (take 4 disc_16)), (hub', insert [] nonce_16)))
    × (pipe_laws.written hub' ≡ 0 ∷ [])
    × ((nonce_16 ++ disc_16) ++ (a_frame ++ hi_frame) ≡ pipe_laws.written joiner' ++ hi_frame)
    × (reader_task toy_json pipes id (lit "peer-" ++ letters.encode (take 4 disc_16)) 3 hub' nothing
        ≡ some (record {
          messages = (id, system_message (b'a' ∷ [])) ∷ (id, chat_message (b'a' ∷ []) hi_text) ∷ [];
          events = message id (lit "peer-" ++ letters.encode (take 4 disc_16)) hi_text ∷ [];
          replies = [];
        }))
joiner_at_hub_example =
    joiner_at_hub toy_json toy_json_laws plain58 letters pipes pipe_laws nonce_16 disc_16
      (b'a' ∷ []) a_frame hi_frame (hi_text ∷ []) [] (arriving (0 ∷ []))
      (arriving ((nonce_16 ++ disc_16) ++ (a_frame ++ hi_frame))) refl refl a-IsUtf8 (hi-IsUtf8, tt)
      a_encoded hi_ChatFrames nonce_fresh (At-arriving (0 ∷ []))
      (At-arriving ((nonce_16 ++ disc_16) ++ (a_frame ++ hi_frame)))
