-- ===== src/Hub/Connections/Sound.antt =====
-- The hub over all interleavings of its connections: the used nonces, the registry and the queue of messages.
use nullpipe.Hub.{Hub}
