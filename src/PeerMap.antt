-- ===== src/PeerMap.antt =====
-- `HashMap<PeerId, V>` as an association list; the program never depends on the order of its entries.
use nullpipe.Common.{
  ◌≡◌, ap, Bool, true, ◌↔◌, List, [], ◌∷◌, Option, none, some, same, same_iff, Bool-cases, inl, inr,
  if◌then◌else◌, arith,
}
use nullpipe.Types.{PeerId}

abbrev pub same_id : PeerId → PeerId → Bool
same_id a b = same a.text b.text

pub same_id_iff : (a b : PeerId) → (same_id a b ≡ true) ↔ (a ≡ b)
same_id_iff a b = (
  λ h. ap (λ t. record { text = t }) ((same_iff a.text b.text).0 h),
  λ e. (same_iff a.text b.text).1 (ap (λ p. p.text) e),
)

abbrev pub Map {ℓ} : Type ℓ → Type ℓ
Map V = List (PeerId × V)

module _ {ℓ} {V : Type ℓ} where
  unfoldable pub lookup : PeerId → Map V → Option V
  lookup k [] = none
  lookup k ((j, v) ∷ m) = if same_id j k then some v else lookup k m

  unfoldable pub remove : PeerId → Map V → Map V
  remove k [] = []
  remove k ((j, v) ∷ m) = let rest = remove k m in if same_id j k then rest else (j, v) ∷ rest

  unfoldable pub insert : PeerId → V → Map V → Map V
  unfolding remove
  insert k v m = (k, v) ∷ remove k m

  unfoldable pub values : Map V → List V
  values [] = []
  values ((k, v) ∷ m) = v ∷ values m

  pub lookup-remove :
      (k j : PeerId) (m : Map V)
      → lookup j (remove k m) ≡ (if same_id k j then none else lookup j m)
  unfolding lookup remove
  lookup-remove k j [] = ground arith
  lookup-remove k j ((i, v) ∷ m) =
      ground (arith, lookup-remove k j m, same_id_iff i k, same_id_iff i j, same_id_iff k j)

  pub lookup-insert :
      (k j : PeerId) (v : V) (m : Map V)
      → lookup j (insert k v m) ≡ (if same_id k j then some v else lookup j m)
  unfolding lookup insert
  lookup-insert k j v m = ground (arith, lookup-remove k j m)

  -- No key stands twice.
  abbrev pub IsUnique : Map V → Type ℓ
  IsUnique [] = Unit {ℓ}
  IsUnique ((k, v) ∷ m) = (lookup k m ≡ none) × IsUnique m

  pub remove-IsUnique : (k : PeerId) (m : Map V) → IsUnique m → IsUnique (remove k m)
  unfolding remove
  remove-IsUnique k [] h = tt
  remove-IsUnique k ((j, v) ∷ m) h = elim (Bool-cases (same_id j k)) [
    | inl e ↦ rw e (remove-IsUnique k m h.1)
    | inr ne ↦ rw ne (ground (arith, lookup-remove k j m), remove-IsUnique k m h.1)
  ]

  pub insert-IsUnique : (k : PeerId) (v : V) (m : Map V) → IsUnique m → IsUnique (insert k v m)
  unfolding insert
  insert-IsUnique k v m h =
      (ground (arith, lookup-remove k k m, same_id_iff k k), remove-IsUnique k m h)

pub ruleset map_laws = (lookup-insert, lookup-remove)
