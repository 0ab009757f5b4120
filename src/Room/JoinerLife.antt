-- ===== src/Room/JoinerLife.antt =====
-- `joiner_task` of crates/core/src/room.rs with the calls that it makes: the bootstrap, `Joiner::connect` and `Joiner::run`.
pub mod Delivering
use nullpipe.Common.{Bool, ℕ, true, Option, none, some, List, [], Result, ok, err}
use nullpipe.Std.Utf8.{Bytes}
use nullpipe.Std.Text.{Text, lit}
use nullpipe.Types.{ChatError, connection, peer_join, error, JoinConfig}
use nullpipe.External.Codecs.{Base58, Hex}
use nullpipe.External.Streams.{Stream}
use nullpipe.External.Channels.{Sender}
use nullpipe.Wire.{Json}
use nullpipe.Bootstrap
use nullpipe.Bootstrap.{TorBootstrap, System, Watch, returned, bootstrap_with_shutdown}
use nullpipe.Joiner.Connect.{Joiner, connect}
use nullpipe.Joiner.Outbox.{Outbox}
use nullpipe.Joiner.Writer.{Progress, finished, waiting}
use nullpipe.Joiner.Running.{Move, run}
use nullpipe.Room.Tasks.{Connected, JoinerTask, stored, client_of, try_all, self_info, last_events}

module _ (json : Json) (base58 : Base58) (hex : Hex) (st : Stream) (sender : Sender)
    (C : Type 0) where
  open sender use {Channel, try_send, send}

  -- A task whose bootstrap waits, whose main loop waits, or that is over.
  pub data Life : Type 0 where
    booting : Channel → Life
    chatting : Outbox sender → Option (TorBootstrap C) → Life
    over : JoinerTask sender C → Life

  abbrev pub after_loop : Option (TorBootstrap C) → Progress (Outbox sender) → Life
  after_loop tor (waiting o) = chatting o tor
  after_loop tor (finished result o) =
      over (record { channel = try_all sender (last_events sender result) o.channel; tor = none })

  abbrev pub known : Joiner json base58 hex st → Connected sender
  known j = record { peer_id = j.peer_id; name = j.name }

  abbrev pub joined : Joiner json base58 hex st → ℕ → Channel → Outbox sender
  joined j joined_at c = record {
    channel = (try_send (peer_join (self_info sender (known j) joined_at)) c).1;
    pending = [];
  }

  -- `joined_at` is the clock's reading, and the moves are those of the main loop.
  abbrev pub after_connect :
      ℕ
      → List Move
      → Option (TorBootstrap C)
      → Channel
      → Result (Joiner json base58 hex st) ChatError
      → Life
  after_connect joined_at moves tor c (err e) =
      over (record { channel = (send (error e) c).1; tor = tor })
  after_connect joined_at moves tor c (ok j) =
      after_loop tor (run json st sender base58 hex j moves (joined j joined_at c)).0

  abbrev pub with_client :
      (C → Result (Joiner json base58 hex st) ChatError)
      → ℕ
      → List Move
      → Option (TorBootstrap C)
      → Channel
      → Option C
      → Life
  with_client connected joined_at moves tor c none = over (record {
    channel = (send (error (connection (lit "Tor client not available"))) c).1;
    tor = tor;
  })
  with_client connected joined_at moves tor c (some client) =
      after_connect joined_at moves tor c (connected client)

  abbrev pub after_bootstrap :
      (C → Result (Joiner json base58 hex st) ChatError)
      → Bool
      → ℕ
      → List Move
      → Watch C sender
      → Life
  after_bootstrap connected quit_between joined_at moves (Bootstrap.waiting bootstrap_ok c) =
      booting c
  after_bootstrap connected quit_between joined_at moves (returned none c) =
      over (record { channel = c; tor = none })
  after_bootstrap connected quit_between joined_at moves (returned (some b) c) =
      with_client connected joined_at moves (stored C quit_between b) c
        (client_of C (stored C quit_between b))

  -- The connector of a client is a parameter. The Boolean says whether the handle quits after the bootstrap is stored and
  -- before the client is looked up.
  unfoldable pub joiner_task :
      (C → Text → ℕ → Result st.State ChatError)
      → System C
      → List Bootstrap.Turn
      → Bool
      → ℕ
      → Bytes
      → ℕ
      → List Move
      → JoinConfig
      → Channel
      → Life
  joiner_task connector sys boot_turns quit_between now discriminator joined_at moves config c =
      after_bootstrap
        (λ client.
          connect json base58 hex st (connector client) now discriminator config.invite_code
            config.name)
        quit_between joined_at moves (bootstrap_with_shutdown C sender sys boot_turns c)
