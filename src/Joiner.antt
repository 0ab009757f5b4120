-- ===== src/Joiner.antt =====
-- crates/core/src/joiner.rs: the peer that connects to a hosted room.
pub mod Handshake
pub mod Connect
pub mod Outbox
pub mod Reader
pub mod Writer
pub mod Running
