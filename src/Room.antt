-- ===== src/Room.antt =====
-- crates/core/src/room.rs: hosting and joining rooms.
pub mod Handle
pub mod Handshake
pub mod Host
pub mod Lobby
pub mod PeerIo
pub mod Tasks
pub mod Joining
pub mod Conversation
pub mod JoinerLife
