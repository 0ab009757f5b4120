-- ===== src/Tests/LifeCases.antt =====
-- The life of a concrete joiner.
use nullpipe.Common.{ℕ, [], ◌∷◌, Result, ok}
use nullpipe.Std.Text.{Text}
use nullpipe.Types.{ChatError, JoinConfig}
use nullpipe.Tests.Instances.{Pipe}
use nullpipe.Tests.WireCases.{hi_frame, arriving}
use nullpipe.Tests.InviteCases.{token}

-- Tor reaches a hub that accepts and then says something.
abbrev connector : ℕ → Text → ℕ → Result Pipe ChatError
connector client address port = ok (arriving (0 ∷ hi_frame))

abbrev config : JoinConfig
config = record { name = b'a' ∷ []; invite_code = token }
