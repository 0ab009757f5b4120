-- ===== src/Tests/RunningCases.antt =====
-- The theorems on the joiner's main loop at a concrete schedule.
use nullpipe.Common.{◌≡◌, refl, true, List, [], ◌∷◌, ◌++◌, map, none, some, Option}
use nullpipe.Std.Text.{Text}
use nullpipe.Types.{ChatEvent, message, PeerId}
use nullpipe.External.Actions.{Returns}
use nullpipe.Nonces.{insert}
use nullpipe.Wire.{WireMessage}
use nullpipe.Joiner.Handshake.{handshake}
use nullpipe.Room.Handshake.{hub_handshake}
use nullpipe.Room.Host.Serving.{shown}
use nullpipe.Room.PeerIo.{hub_reader_task}
use nullpipe.Room.PeerIo.Reading.{turns_of}
use nullpipe.Room.Conversation.{conversation}
use nullpipe.Tests.InviteCases.{nonce_16}
use nullpipe.Joiner.Writer.{waiting}
use nullpipe.Joiner.Running.{Running}
use nullpipe.Joiner.Running.Steps.{Setting, go}
use nullpipe.Joiner.Running.Merging.{move_of, Shown}
use nullpipe.Tests.Instances.{
  Pipe, plain58, pipes, pipe_laws, unbounded, unbounded_laws, toy_json, toy_json_laws,
}
use nullpipe.Tests.WireCases.{hi, hi_frame, arriving, At-arriving}
use nullpipe.Tests.JoinerCases.{
  disc_16, hi_text, hi-Frames, hi_ChatFrames, a_frame, a_encoded, a-IsUtf8, hi-IsUtf8, nonce_fresh,
}

abbrev pub setting : Setting
setting = record {
  json = toy_json;
  json_laws = toy_json_laws;
  st = pipes;
  laws = pipe_laws;
  sender = unbounded;
  sender_laws = unbounded_laws;
  name = b'a' ∷ [];
  peer_id = record { text = disc_16 };
  room = λ e c o. (refl, tt);
}

-- A text is sent, and then the hub's message is read.
abbrev pub schedule : List (Option Text)
schedule = some hi_text ∷ none ∷ []

abbrev fresh : Running toy_json pipes unbounded
fresh = record {
  stream = arriving hi_frame;
  outbox = record { channel = []; pending = [] };
  reading = true;
}

conversation_example :
    (joiner' hub' : Pipe) × (r' : Running toy_json pipes unbounded) × (new : List ChatEvent)
    × (sent : List (PeerId × WireMessage)) × Returns
        (handshake toy_json plain58 pipes disc_16 (b'a' ∷ []) nonce_16)
        (arriving (0 ∷ hi_frame))
        (record { text = disc_16 })
        joiner'
    × Returns
        (hub_handshake toy_json plain58 pipes)
        (arriving (nonce_16 ++ disc_16 ++ (a_frame ++ hi_frame)), [])
        (record { text = disc_16 }, b'a' ∷ [])
        (hub', insert [] nonce_16)
    × (go setting (map move_of schedule ++ []) (record {
      stream = joiner';
      outbox = record { channel = []; pending = [] };
      reading = true;
    })
        ≡ waiting r')
    × (r'.stream.sent ≡ nonce_16 ++ disc_16 ++ (a_frame ++ hi_frame))
    × Shown setting (hi ∷ []) schedule new
    × (r'.outbox.channel ≡ [] ++ new)
    × (hub_reader_task toy_json pipes (record { text = disc_16 }) 2 hub' [] ≡ some sent)
    × (shown (b'H' ∷ []) (turns_of toy_json toy_json_laws pipes pipe_laws sent)
        ≡ map (message (record { text = disc_16 }) (b'a' ∷ [])) (hi_text ∷ []))
conversation_example =
    conversation setting plain58 nonce_16 disc_16 a_frame hi_frame hi_frame schedule (hi ∷ []) []
      (b'H' ∷ []) (arriving (0 ∷ hi_frame))
      (arriving (nonce_16 ++ disc_16 ++ (a_frame ++ hi_frame)))
      (record { channel = []; pending = [] }) refl refl refl a-IsUtf8 (hi-IsUtf8, tt) a_encoded
      nonce_fresh refl hi-Frames hi_ChatFrames tt refl (At-arriving (0 ∷ hi_frame))
      (At-arriving (nonce_16 ++ disc_16 ++ (a_frame ++ hi_frame)))
