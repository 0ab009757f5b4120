-- ===== src/Types.antt =====
-- crates/core/src/types.rs and crates/core/src/error.rs: identifiers, events, configurations and errors.
mod Errors
pub use Errors.*
use nullpipe.Common.{ℕ, Option}
use nullpipe.Std.Text.{Text}

pub record PeerId : Type 0 where
  pub text : Text

-- `joined_at` is a reading of the monotonic clock.
pub record PeerInfo : Type 0 where
  pub id : PeerId
  pub name : Text
  pub joined_at : ℕ

pub data ChatEvent : Type 0 where
  message : PeerId → Text → Text → ChatEvent
  peer_join : PeerInfo → ChatEvent
  peer_leave : PeerId → ChatEvent
  bootstrap_progress : ℕ → ChatEvent
  room_ready : Text → ℕ → ChatEvent
  invite_created : Text → ChatEvent
  room_closed : ChatEvent
  error : ChatError → ChatEvent

pub record HostConfig : Type 0 where
  pub name : Text
  pub invite_ttl_secs : ℕ

pub record JoinConfig : Type 0 where
  pub name : Text
  pub invite_code : Text
