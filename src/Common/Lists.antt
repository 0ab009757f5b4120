-- ===== src/Common/Lists.antt =====
-- Lists measured and cut by native numbers, under the library's names.
use Prim.Native.Nat.{ℕ, zero, suc, ◌+◌, ◌-◌, ◌<◌, min}
use mathlib.Core.Path.{◌≡◌, refl, ap}
use mathlib.Core.Logic.{◌≢◌}
use mathlib.Core.Option.{Option, none, some}
use mathlib.Core.List.{List, [], ◌∷◌, ◌++◌, map}
use native.Mathlib.Omega.{arith}

module _ {ℓ} {A : Type ℓ} where
  abbrev pub length : List A → ℕ
  length [] = 0
  length (x ∷ xs) = suc (length xs)

  abbrev pub take : ℕ → List A → List A
  take zero xs = []
  take (suc n) [] = []
  take (suc n) (x ∷ xs) = x ∷ take n xs

  abbrev pub drop : ℕ → List A → List A
  drop zero xs = xs
  drop (suc n) [] = []
  drop (suc n) (x ∷ xs) = drop n xs

  abbrev pub get_elem? : List A → ℕ → Option A
  get_elem? [] i = none
  get_elem? (x ∷ xs) zero = some x
  get_elem? (x ∷ xs) (suc i) = get_elem? xs i

  -- Out of range nothing changes.
  abbrev pub set_elem : List A → ℕ → A → List A
  set_elem [] i y = []
  set_elem (x ∷ xs) zero y = y ∷ xs
  set_elem (x ∷ xs) (suc i) y = x ∷ set_elem xs i y

  abbrev pub All {κ} : (A → Type κ) → List A → Type κ
  All P [] = Unit {κ}
  All P (x ∷ xs) = P x × All P xs

module _ {ℓ} {A : Type ℓ} where
  pub length-append : (xs ys : List A) → length (xs ++ ys) ≡ length xs + length ys
  length-append [] ys = omega arith
  length-append (x ∷ xs) ys = omega (arith, length-append xs ys)

  pub drop-next :
      (n : ℕ) (xs : List A) {x : A} {rest : List A}
      → drop n xs ≡ x ∷ rest
      → (get_elem? xs n ≡ some x) × (drop (suc n) xs ≡ rest)
  drop-next zero [] e = cc
  drop-next zero (x ∷ xs) e = (cc, cc)
  drop-next (suc n) [] e = cc
  drop-next (suc n) (x ∷ xs) e = drop-next n xs e

  pub drop-end : (n : ℕ) (xs : List A) → drop n xs ≡ [] → get_elem? xs n ≡ none
  drop-end n [] e = refl
  drop-end zero (x ∷ xs) e = cc
  drop-end (suc n) (x ∷ xs) e = drop-end n xs e

  pub set_elem-same : (xs : List A) (i : ℕ) {x : A} → get_elem? xs i ≡ some x → set_elem xs i x ≡ xs
  set_elem-same [] i h = refl
  set_elem-same (y ∷ xs) zero h = cc
  set_elem-same (y ∷ xs) (suc i) h = ap (◌∷◌ y) (set_elem-same xs i h)

  pub set_elem-twice :
      (xs : List A) (i : ℕ) (x y : A) → set_elem (set_elem xs i x) i y ≡ set_elem xs i y
  set_elem-twice [] i x y = refl
  set_elem-twice (z ∷ xs) zero x y = refl
  set_elem-twice (z ∷ xs) (suc i) x y = ap (◌∷◌ z) (set_elem-twice xs i x y)

  pub get_elem?-set_same :
      (xs : List A) (i : ℕ) (y : A) {x : A}
      → get_elem? xs i ≡ some x
      → get_elem? (set_elem xs i y) i ≡ some y
  get_elem?-set_same [] i y h = cc
  get_elem?-set_same (x ∷ xs) zero y h = refl
  get_elem?-set_same (x ∷ xs) (suc i) y h = get_elem?-set_same xs i y h

  pub get_elem?-set_other :
      (xs : List A) (i j : ℕ) (y : A) → i ≢ j → get_elem? (set_elem xs i y) j ≡ get_elem? xs j
  get_elem?-set_other [] i j y ne = refl
  get_elem?-set_other (x ∷ xs) zero zero y ne = absurd (ne refl)
  get_elem?-set_other (x ∷ xs) zero (suc j) y ne = refl
  get_elem?-set_other (x ∷ xs) (suc i) zero y ne = refl
  get_elem?-set_other (x ∷ xs) (suc i) (suc j) y ne =
      get_elem?-set_other xs i j y (λ e. ne (ap suc e))

  pub get_elem?-within : (xs : List A) (i : ℕ) → i < length xs → (x : A) × (get_elem? xs i ≡ some x)
  get_elem?-within [] i h = absurd (omega arith)
  get_elem?-within (x ∷ xs) zero h = (x, refl)
  get_elem?-within (x ∷ xs) (suc i) h = get_elem?-within xs i (omega arith)

  pub get_elem?-append :
      (xs ys : List A) (i : ℕ) {x : A} → get_elem? xs i ≡ some x → get_elem? (xs ++ ys) i ≡ some x
  get_elem?-append [] ys i h = cc
  get_elem?-append (x ∷ xs) ys zero h = h
  get_elem?-append (x ∷ xs) ys (suc i) h = get_elem?-append xs ys i h

  pub take-append-drop : (n : ℕ) (xs : List A) → take n xs ++ drop n xs ≡ xs
  take-append-drop zero xs = refl
  take-append-drop (suc n) [] = refl
  take-append-drop (suc n) (x ∷ xs) = ap (◌∷◌ x) (take-append-drop n xs)

  pub length-take : (n : ℕ) (xs : List A) → length (take n xs) ≡ min n (length xs)
  length-take zero xs = omega arith
  length-take (suc n) [] = omega arith
  length-take (suc n) (x ∷ xs) = omega (arith, length-take n xs)

  pub length-drop : (n : ℕ) (xs : List A) → length (drop n xs) ≡ length xs - n
  length-drop zero xs = omega arith
  length-drop (suc n) [] = omega arith
  length-drop (suc n) (x ∷ xs) = omega (arith, length-drop n xs)

  -- Cutting a list behind a known front.
  pub take-append : (xs ys : List A) → take (length xs) (xs ++ ys) ≡ xs
  take-append [] ys = refl
  take-append (x ∷ xs) ys = ap (◌∷◌ x) (take-append xs ys)

  pub drop-append : (xs ys : List A) → drop (length xs) (xs ++ ys) ≡ ys
  drop-append [] ys = refl
  drop-append (x ∷ xs) ys = drop-append xs ys

module _ {ℓ κ} {A : Type ℓ} (P : A → Type κ) where
  pub All-append : (xs ys : List A) → All P xs → All P ys → All P (xs ++ ys)
  All-append [] ys hx hy = hy
  All-append (x ∷ xs) ys hx hy = (hx.0, All-append xs ys hx.1 hy)

  pub All-take : (n : ℕ) (xs : List A) → All P xs → All P (take n xs)
  All-take zero xs h = tt
  All-take (suc n) [] h = tt
  All-take (suc n) (x ∷ xs) h = (h.0, All-take n xs h.1)

  pub All-drop : (n : ℕ) (xs : List A) → All P xs → All P (drop n xs)
  All-drop zero xs h = h
  All-drop (suc n) [] h = tt
  All-drop (suc n) (x ∷ xs) h = All-drop n xs h.1

pub length-map {ℓ κ} :
    {A : Type ℓ} {B : Type κ} (f : A → B) (xs : List A) → length (map f xs) ≡ length xs
length-map f [] = refl
length-map f (x ∷ xs) = omega (arith, length-map f xs)
