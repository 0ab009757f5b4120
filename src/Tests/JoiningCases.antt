-- ===== src/Tests/JoiningCases.antt =====
-- A concrete invite from the host to the admitted joiner.
use nullpipe.Common.{ℕ, [], ◌∷◌, Result, ok}
use nullpipe.Std.Text.{Text}
use nullpipe.Types.{ChatError}
use nullpipe.Tests.Instances.{Pipe}
use nullpipe.Tests.WireCases.{arriving}

-- Tor reaches the host.
abbrev connector : Text → ℕ → Result Pipe ChatError
connector address port = ok (arriving (0 ∷ []))
