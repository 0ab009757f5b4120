-- ===== src/Std/Text.antt =====
-- The methods of `str` that the program calls, on the UTF-8 bytes of the text.
use Prim.Native.Char.{code}
use Prim.Native.String.{String}
use nullpipe.Common.{
  ℕ, zero, suc, ◌-◌, ◌≡◌, ◌≢◌, Bool, true, false, ◌&&◌, Option, none, some, List, [], ◌∷◌, ◌++◌,
  length, drop, All, arith, leb, ◌==◌, same, same_refl, if◌then◌else◌, length-append, drop-append,
}
use nullpipe.Std.Utf8.{Bytes, encode_utf8}

-- `String` and `str`, by their UTF-8 bytes.
abbrev pub Text : Type 0
Text = Bytes

-- A literal of the source.
unfoldable pub lit : String → Text
unfolding encode_utf8
lit String.[] = []
lit (String.◌∷◌ c s) = encode_utf8 (code c) ++ lit s

-- `join` of a list of texts.
abbrev pub join : Text → List Text → Text
join sep [] = []
join sep (t ∷ []) = t
join sep (t ∷ u ∷ ts) = t ++ (sep ++ join sep (u ∷ ts))

abbrev pub is_empty {ℓ} : {A : Type ℓ} → List A → Bool
is_empty [] = true
is_empty (x ∷ xs) = false

unfoldable pub starts_with : Text → Text → Bool
starts_with s [] = true
starts_with [] (p ∷ ps) = false
starts_with (c ∷ s) (p ∷ ps) = (c == p) && starts_with s ps

-- `strip_prefix` with a one-byte prefix.
unfoldable pub strip_prefix : ℕ → Text → Option Text
strip_prefix p [] = none
strip_prefix p (c ∷ s) = if c == p then some s else none

unfoldable pub ends_with : Text → Text → Bool
ends_with s suffix =
    leb (length suffix) (length s) && same (drop (length s - length suffix) s) suffix

pub ends_with-append : (s t : Text) → ends_with (s ++ t) t ≡ true
unfolding ends_with
ends_with-append s t =
    let front : length (s ++ t) - length t ≡ length s = omega (arith, length-append s t) in
    let back : drop (length (s ++ t) - length t) (s ++ t) ≡ t = rw front (drop-append s t) in
    rw back (ground (arith, length-append s t, same_refl t))

-- `split_once`: the text before the first separator and the text behind it.
unfoldable pub split_once : ℕ → Text → Option (Text × Text)
split_once sep [] = none
split_once sep (c ∷ s) =
    let rest = split_once sep s in
    if c == sep then some ([], s) else elim rest [ none ↦ none | some (a, b) ↦ some (c ∷ a, b) ]

abbrev pub Lacks : ℕ → Text → Type 0
Lacks b = All (λ c. c ≢ b)

pub split_once-append :
    (sep : ℕ) (a b : Text) → Lacks sep a → split_once sep (a ++ sep ∷ b) ≡ some (a, b)
unfolding split_once
split_once-append sep [] b h = ground arith
split_once-append sep (c ∷ a) b h = ground (arith, split_once-append sep a b h.1)

-- `splitn(n, sep)`: at most `n` parts, the last one with every separator left.
unfoldable pub splitn : ℕ → ℕ → Text → List Text
unfolding split_once
splitn zero sep s = []
splitn (suc zero) sep s = s ∷ []
splitn (suc (suc n)) sep s = elim (split_once sep s) [
  | none ↦ s ∷ []
  | some (a, b) ↦ a ∷ splitn (suc n) sep b
]

pub splitn_step :
    (n sep : ℕ) (a b : Text)
    → Lacks sep a
    → splitn (suc (suc n)) sep (a ++ sep ∷ b) ≡ a ∷ splitn (suc n) sep b
unfolding splitn
splitn_step n sep a b h = rw (split_once-append sep a b h, splitn)
