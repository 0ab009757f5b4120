-- ===== src/Hub/Registry.antt =====
-- `PeerRegistry` of crates/core/src/hub.rs. A peer's channel is known by its number.
pub mod Following
use nullpipe.Common.{ℕ, Bool, List, [], ◌∷◌, length, ◌==◌}
use nullpipe.Std.Utf8.{Bytes}
use nullpipe.Std.Text.{Text}
use nullpipe.Types.{PeerId, PeerInfo}
use nullpipe.PeerMap.{Map, insert, remove}

pub record PeerEntry : Type 0 where
  pub name : Text
  pub joined_at : ℕ
  pub tx : ℕ

abbrev pub PeerRegistry : Type 0
PeerRegistry = Map PeerEntry

unfoldable pub register : PeerId → Text → ℕ → ℕ → PeerRegistry → PeerRegistry
register peer_id name joined_at tx peers =
    insert peer_id (record { name = name; joined_at = joined_at; tx = tx }) peers

unfoldable pub deregister : PeerId → PeerRegistry → PeerRegistry
deregister peer_id peers = remove peer_id peers

unfoldable pub snapshot : PeerRegistry → List PeerInfo
snapshot [] = []
snapshot ((id, e) ∷ rest) =
    record { id = id; name = e.name; joined_at = e.joined_at } ∷ snapshot rest

pub len : PeerRegistry → ℕ
len peers = length peers

pub is_empty : PeerRegistry → Bool
unfolding len
is_empty peers = len peers == 0

unfoldable pub broadcast_to_all : Bytes → PeerRegistry → List (ℕ × Bytes)
broadcast_to_all frame [] = []
broadcast_to_all frame ((id, e) ∷ rest) = (e.tx, frame) ∷ broadcast_to_all frame rest
