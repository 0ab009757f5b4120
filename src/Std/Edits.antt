-- ===== src/Std/Edits.antt =====
-- `String::insert` and `String::remove`, by byte index. A result of `none` is a panic.
use nullpipe.Common.{
  ℕ, zero, suc, ◌≤◌, ◌<◌, ◌≡◌, refl, Bool, true, false, ◌||◌, Option, none, some, [], ◌∷◌, ◌++◌,
  length, take, drop, All, arith, ltb, leb, if◌then◌else◌,
}
use nullpipe.Std.Utf8.{encode_utf8}
use nullpipe.Std.Text.{Text}

-- The index is the end, or a byte stands there that continues no character.
unfoldable pub is_char_boundary : ℕ → Text → Bool
is_char_boundary zero s = true
is_char_boundary (suc i) [] = false
is_char_boundary (suc zero) (b ∷ []) = true
is_char_boundary (suc zero) (b ∷ c ∷ s) = ltb c 0x80 || leb 0xc0 c
is_char_boundary (suc (suc i)) (b ∷ s) = is_char_boundary (suc i) s

-- The length of the character that starts with this byte.
unfoldable pub char_len : ℕ → ℕ
char_len b = if ltb b 0x80 then 1 else if ltb b 0xe0 then 2 else if ltb b 0xf0 then 3 else 4

unfoldable pub insert_char : ℕ → ℕ → Text → Option Text
insert_char i c s =
    if is_char_boundary i s then some (take i s ++ (encode_utf8 c ++ drop i s)) else none

cut : Text → Text → Option Text
cut front [] = none
cut front (b ∷ s) = some (front ++ drop (char_len b) (b ∷ s))

unfoldable pub remove_char : ℕ → Text → Option Text
unfolding cut
remove_char i s = if is_char_boundary i s then cut (take i s) (drop i s) else none

abbrev pub IsAscii : Text → Type 0
IsAscii = All (λ b. b < 0x80)

pub is_char_boundary_ascii :
    (i : ℕ) (s : Text) → IsAscii s → i ≤ length s → is_char_boundary i s ≡ true
unfolding is_char_boundary
is_char_boundary_ascii zero s h le = refl
is_char_boundary_ascii (suc i) [] h le = ground arith
is_char_boundary_ascii (suc zero) (b ∷ []) h le = refl
is_char_boundary_ascii (suc zero) (b ∷ c ∷ s) h le = ground arith
is_char_boundary_ascii (suc (suc i)) (b ∷ s) h le =
    is_char_boundary_ascii (suc i) s h.1 (omega arith)

-- In a text of ASCII, an insertion of an ASCII character is one byte in between.
pub insert_char_ascii :
    (i c : ℕ) (s : Text)
    → IsAscii s
    → c < 0x80
    → i ≤ length s
    → insert_char i c s ≡ some (take i s ++ c ∷ drop i s)
unfolding insert_char encode_utf8
insert_char_ascii i c s h hc le = rw (is_char_boundary_ascii i s h le) (ground arith)

remove_at :
    (i : ℕ) (s : Text)
    → IsAscii s
    → i < length s
    → cut (take i s) (drop i s) ≡ some (take i s ++ drop (suc i) s)
unfolding cut char_len
remove_at zero [] h lt = ground arith
remove_at zero (b ∷ s) h lt = ground arith
remove_at (suc i) [] h lt = ground arith
remove_at (suc i) (b ∷ s) h lt = ground (arith, remove_at i s)

-- In a text of ASCII, a removal takes one byte.
pub remove_char_ascii :
    (i : ℕ) (s : Text)
    → IsAscii s
    → i < length s
    → remove_char i s ≡ some (take i s ++ drop (suc i) s)
unfolding remove_char
remove_char_ascii i s h lt = rw (is_char_boundary_ascii i s h (omega arith)) (remove_at i s h lt)
