-- ===== src/Room/Joining.antt =====
-- From the host's invite to a peer that is admitted: `RoomHandle::invite` and `hub_handshake` of crates/core/src/room.rs with
-- `Joiner::connect` of crates/core/src/joiner.rs.
use nullpipe.Std.Text.{Text}
use nullpipe.Nonces.{Nonces}
