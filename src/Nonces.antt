-- ===== src/Nonces.antt =====
-- The hub's set of used nonces (`HashSet<[u8; 16]>` in crates/core/src/hub.rs and
-- crates/core/src/room.rs), as a list with a membership test.
use nullpipe.Common.{◌≡◌, Bool, true, false, ◌||◌, List, [], ◌∷◌, same, same_refl, arith}
use nullpipe.Std.Utf8.{Bytes}

abbrev pub Nonces : Type 0
Nonces = List Bytes

unfoldable pub contains : Nonces → Bytes → Bool
contains [] n = false
contains (m ∷ ms) n = same n m || contains ms n

-- A newly used nonce; the test has been made before.
unfoldable pub insert : Nonces → Bytes → Nonces
insert ns n = n ∷ ns

-- No nonce stands in the set twice.
abbrev pub IsDistinct : Nonces → Type 0
IsDistinct [] = Unit
IsDistinct (n ∷ ns) = (contains ns n ≡ false) × IsDistinct ns

pub contains-insert : (ns : Nonces) (n : Bytes) → contains (insert ns n) n ≡ true
unfolding contains insert
contains-insert ns n = ground (arith, same_refl n)

pub contains-insert_of_contains :
    (ns : Nonces) (n m : Bytes) → contains ns m ≡ true → contains (insert ns n) m ≡ true
unfolding contains insert
contains-insert_of_contains ns n m h = ground arith
