-- ===== src/Std/Utf8.antt =====
-- UTF-8 as Rust's `str` checks it and `char::encode_utf8` writes it. A byte string is a list of
-- numbers below 256; a `String` is such a list that `is_utf8` accepts.
use nullpipe.Common.{
  ℕ, ◌+◌, ◌/◌, ◌%◌, ◌≤◌, ◌<◌, ◌≡◌, refl, Bool, true, false, ◌&&◌, ◌⊎◌, Option, none, some, List, [],
  All, Option-cases, inl, inr, sym, ap, ◌∙◌, ◌∷◌, ◌++◌, arith, ltb, leb, ◌==◌, if◌then◌else◌,
}

abbrev pub Bytes : Type 0
Bytes = List ℕ

abbrev pub IsByte : ℕ → Type 0
IsByte b = b < 256

-- What may come next: a new character, or so many continuation bytes, the next one in a range.
pub data Expect : Type 0 where
  lead one two three after_e0 after_ed after_f0 after_f4 : Expect

between : ℕ → ℕ → ℕ → Bool
between lo hi b = leb lo b && leb b hi

first : ℕ → Option Expect
unfolding between
first b =
    if ltb b 0x80
    then some lead
    else if between 0xc2 0xdf b
    then some one
    else if b == 0xe0
    then some after_e0
    else if b == 0xed
    then some after_ed
    else if between 0xe1 0xef b
    then some two
    else if b == 0xf0
    then some after_f0
    else if between 0xf1 0xf3 b
    then some three
    else if b == 0xf4
    then some after_f4
    else none

-- The table of well-formed byte sequences, one byte at a time.
next : Expect → ℕ → Option Expect
unfolding between first
next lead b = first b
next one b = if between 0x80 0xbf b then some lead else none
next two b = if between 0x80 0xbf b then some one else none
next three b = if between 0x80 0xbf b then some two else none
next after_e0 b = if between 0xa0 0xbf b then some one else none
next after_ed b = if between 0x80 0x9f b then some one else none
next after_f0 b = if between 0x90 0xbf b then some two else none
next after_f4 b = if between 0x80 0x8f b then some two else none

advance : Option Expect → ℕ → Option Expect
unfolding next
advance none b = none
advance (some s) b = next s b

scan : Option Expect → Bytes → Option Expect
unfolding advance
scan s [] = s
scan s (b ∷ bs) = scan (advance s b) bs

ended : Option Expect → Bool
ended (some lead) = true
ended _ = false

-- `std::str::from_utf8(bytes).is_ok()`.
unfoldable pub is_utf8 : Bytes → Bool
unfolding scan ended
is_utf8 bs = ended (scan (some lead) bs)

abbrev pub IsUtf8 : Bytes → Type 0
IsUtf8 bs = is_utf8 bs ≡ true

-- `char`: a Unicode scalar value.
abbrev pub IsScalar : ℕ → Type 0
IsScalar c = (c < 0xd800) ⊎ ((0xe000 ≤ c) × (c < 0x110000))

-- `char::encode_utf8`.
unfoldable pub encode_utf8 : ℕ → Bytes
encode_utf8 c =
    if ltb c 0x80
    then c ∷ []
    else if ltb c 0x800
    then (0xc0 + c / 64) ∷ (0x80 + c % 64) ∷ []
    else if ltb c 0x10000
    then (0xe0 + c / 4096) ∷ (0x80 + c / 64 % 64) ∷ (0x80 + c % 64) ∷ []
    else (0xf0 + c / 262144) ∷ (0x80 + c / 4096 % 64) ∷ (0x80 + c / 64 % 64) ∷ (0x80 + c % 64) ∷ []

-- `str::is_char_boundary` at a position inside the text: the byte there continues no character.
pub continues : ℕ → Bool
unfolding between
continues b = between 0x80 0xbf b

scan-append : (s : Option Expect) (xs ys : Bytes) → scan s (xs ++ ys) ≡ scan (scan s xs) ys
unfolding scan
scan-append s [] ys = refl
scan-append s (x ∷ xs) ys = scan-append (advance s x) xs ys

ended-lead : (s : Option Expect) → ended s ≡ true → s ≡ some lead
unfolding ended
ended-lead none h = cc
ended-lead (some lead) h = refl
ended-lead (some one) h = cc
ended-lead (some two) h = cc
ended-lead (some three) h = cc
ended-lead (some after_e0) h = cc
ended-lead (some after_ed) h = cc
ended-lead (some after_f0) h = cc
ended-lead (some after_f4) h = cc

pub IsUtf8-append : (xs ys : Bytes) → IsUtf8 xs → IsUtf8 ys → IsUtf8 (xs ++ ys)
IsUtf8-append xs ys hx hy =
    let whole : scan (some lead) xs ≡ some lead = ended-lead _ (unfold is_utf8 in hx) in
    unfold is_utf8 in rw (scan-append (some lead) xs ys, whole) hy

pub IsUtf8-encode : (c : ℕ) → IsScalar c → IsUtf8 (encode_utf8 c)
unfolding is_utf8 encode_utf8
IsUtf8-encode c h = ground arith

pub IsUtf8-ascii : (bs : Bytes) → All (λ b. b < 0x80) bs → IsUtf8 bs
unfolding is_utf8
IsUtf8-ascii [] h = refl
IsUtf8-ascii (b ∷ bs) h =
    let step : first b ≡ some lead = unfold first in ground arith in rw step (IsUtf8-ascii bs h.1)

scan-none : (bs : Bytes) → scan none bs ≡ none
unfolding scan
scan-none [] = refl
scan-none (b ∷ bs) = scan-none bs

next-IsByte : (s : Expect) (b : ℕ) {t : Expect} → next s b ≡ some t → IsByte b
unfolding next
next-IsByte lead b h = ground arith
next-IsByte _ b h = ground arith

scan-IsByte : (s : Expect) (bs : Bytes) {t : Expect} → scan (some s) bs ≡ some t → All IsByte bs
unfolding scan
scan-IsByte s [] h = tt
scan-IsByte s (b ∷ bs) {t} h = elim (Option-cases (next s b)) [
  | inl e ↦ cc (scan-none bs, e)
  | inr (u, e) ↦ (next-IsByte s b e, scan-IsByte u bs (sym (ap (λ o. scan o bs) e) ∙ h))
]

pub IsUtf8-IsByte : (bs : Bytes) → IsUtf8 bs → All IsByte bs
IsUtf8-IsByte bs h = scan-IsByte lead bs (ended-lead _ (unfold is_utf8 in h))
