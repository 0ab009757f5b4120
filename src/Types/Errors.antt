-- ===== src/Types/Errors.antt =====
-- `ChatError` of crates/core/src/error.rs with its `Display` and `Clone`.
use nullpipe.Common.{ℕ, ◌≡◌, refl, ◌++◌}
use nullpipe.Std.Text.{Text, lit}
use nullpipe.Std.Decimal.{display}

-- `std::io::Error`: its kind and what it prints.
pub record IoError : Type 0 where
  pub kind : ℕ
  pub to_string : Text

pub data ChatError : Type 0 where
  invalid_invite : Text → ChatError
  invite_expired : ℕ → ChatError
  nonce_reused : ChatError
  onion_service connection : Text → ChatError
  channel_closed : ChatError
  wire : Text → ChatError
  oversized_message : ℕ → ℕ → ChatError
  io : IoError → ChatError
  peer_not_found : Text → ChatError
  shutting_down : ChatError

-- The `#[error(...)]` formats.
unfoldable pub to_string : ChatError → Text
to_string (invalid_invite s) = lit "invite code invalid: " ++ s
to_string (invite_expired t) = lit "invite expired (issued at " ++ display t ++ lit ")"
to_string nonce_reused = lit "nonce already used"
to_string (onion_service s) = lit "onion service error: " ++ s
to_string (connection s) = lit "connection failed: " ++ s
to_string channel_closed = lit "broadcast channel closed"
to_string (wire s) = lit "wire protocol error: " ++ s
to_string (oversized_message size limit) =
    lit "message too large: " ++ display size ++ lit " bytes (limit " ++ display limit ++ lit ")"
to_string (io e) = lit "I/O error: " ++ e.to_string
to_string (peer_not_found s) = lit "peer not found: " ++ s
to_string shutting_down = lit "shutdown in progress"

-- `Clone` rebuilds an I/O error from its kind and its text.
clone : ChatError → ChatError
clone (invalid_invite s) = invalid_invite s
clone (invite_expired t) = invite_expired t
clone nonce_reused = nonce_reused
clone (onion_service s) = onion_service s
clone (connection s) = connection s
clone channel_closed = channel_closed
clone (wire s) = wire s
clone (oversized_message size limit) = oversized_message size limit
clone (io e) = io (record { kind = e.kind; to_string = e.to_string })
clone (peer_not_found s) = peer_not_found s
clone shutting_down = shutting_down

to_string-clone : (e : ChatError) → to_string (clone e) ≡ to_string e
unfolding clone to_string
to_string-clone (invalid_invite s) = refl
to_string-clone (invite_expired t) = refl
to_string-clone nonce_reused = refl
to_string-clone (onion_service s) = refl
to_string-clone (connection s) = refl
to_string-clone channel_closed = refl
to_string-clone (wire s) = refl
to_string-clone (oversized_message size limit) = refl
to_string-clone (io e) = refl
to_string-clone (peer_not_found s) = refl
to_string-clone shutting_down = refl
