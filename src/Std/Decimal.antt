-- ===== src/Std/Decimal.antt =====
-- `u64`'s `Display` and `FromStr`.
use nullpipe.Common.{
  ℕ, zero, suc, ◌+◌, ◌-◌, ◌*◌, ◌/◌, ◌%◌, ◌^◌, ◌≤◌, ◌<◌, ◌≡◌, refl, ◌||◌, Option, none, some, [],
  ◌∷◌, ◌++◌, append_assoc, append-nil, sym, ap, ◌∙◌, All, All-append, arith, ltb, ◌==◌,
  if◌then◌else◌,
}
use native.Mathlib.Decide.{dec_lt}
use native.Mathlib.Nat.{pow-suc}
use nullpipe.Std.Utf8.{Bytes, IsUtf8, IsUtf8-ascii}
use nullpipe.Std.Text.{Text, Lacks, is_empty}

abbrev pub max_u64 : ℕ
max_u64 = 2 ^ 64 - 1

abbrev pub IsU64 : ℕ → Type 0
IsU64 n = n ≤ max_u64

-- At most `k` decimal digits.
digits : ℕ → ℕ → Text
digits zero n = []
digits (suc k) n =
    let more = digits k (n / 10) in
    if ltb n 10 then (b'0' + n) ∷ [] else more ++ (b'0' + n % 10) ∷ []

-- A `u64` has twenty digits at most.
unfoldable pub display : ℕ → Text
unfolding digits
display n = digits 20 n

-- One digit at a time, with `checked_mul` and `checked_add`.
accumulate : Bytes → ℕ → Option ℕ
accumulate [] n = some n
accumulate (c ∷ s) n =
    let rest = accumulate s (n * 10 + (c - b'0')) in
    if ltb c b'0' || ltb b'9' c || ltb max_u64 (n * 10 + (c - b'0')) then none else rest

-- `str::parse::<u64>`: one leading plus is taken off, and the rest is one or more digits.
unfoldable pub parse_u64 : Text → Option ℕ
unfolding accumulate
parse_u64 [] = none
parse_u64 (c ∷ s) =
    if c == b'+' then (if is_empty s then none else accumulate s 0) else accumulate (c ∷ s) 0

abbrev pub IsDigit : ℕ → Type 0
IsDigit c = (b'0' ≤ c) × (c ≤ b'9')

digits-IsDigit : (k n : ℕ) → All IsDigit (digits k n)
unfolding digits
digits-IsDigit zero n = tt
digits-IsDigit (suc k) n = ground (
  arith,
  All-append IsDigit (digits k (n / 10)) ((b'0' + n % 10) ∷ []) (digits-IsDigit k (n / 10)),
)

pub display-IsDigit : (n : ℕ) → All IsDigit (display n)
unfolding display
display-IsDigit n = digits-IsDigit 20 n

digit_ascii : (s : Bytes) → All IsDigit s → All (λ b. b < 0x80) s
digit_ascii [] h = tt
digit_ascii (c ∷ s) h = (omega arith, digit_ascii s h.1)

pub display-IsUtf8 : (n : ℕ) → IsUtf8 (display n)
display-IsUtf8 n = IsUtf8-ascii (display n) (digit_ascii _ (display-IsDigit n))

digit-Lacks : (b : ℕ) (s : Bytes) → b'9' < b → All IsDigit s → Lacks b s
digit-Lacks b [] above h = tt
digit-Lacks b (c ∷ s) above h = (omega arith, digit-Lacks b s above h.1)

-- The print holds no colon.
pub display-Lacks : (n : ℕ) → Lacks b':' (display n)
display-Lacks n = digit-Lacks b':' (display n) (omega arith) (display-IsDigit n)

accumulate-digit :
    (n d : ℕ) (rest : Bytes)
    → d < 10
    → IsU64 (n * 10 + d)
    → accumulate ((b'0' + d) ∷ rest) n ≡ accumulate rest (n * 10 + d)
unfolding accumulate
accumulate-digit n d rest h fits = ground arith

digits_small : (k n : ℕ) → n < 10 → digits (suc k) n ≡ (b'0' + n) ∷ []
unfolding digits
digits_small k n h = ground arith

digits_large : (k n : ℕ) → 10 ≤ n → digits (suc k) n ≡ digits k (n / 10) ++ (b'0' + n % 10) ∷ []
unfolding digits
digits_large k n h = ground arith

-- Reading the digits of `n` gives `n`, whatever follows them.
accumulate-digits :
    (k n : ℕ) (rest : Bytes)
    → n < 10 ^ k
    → IsU64 n
    → accumulate (digits k n ++ rest) 0 ≡ accumulate rest n
accumulate-digits zero n rest h fits =
    let none_left : n ≡ 0 = omega arith in rw none_left (unfold digits in refl)
accumulate-digits (suc k) n rest h fits = elim (dec_lt n 10) [
  | yes small ↦
      rw (digits_small k n small)
        (accumulate-digit 0 n rest small (omega arith) ∙ ap (accumulate rest) (omega arith))
  | no large ↦
      rw (digits_large k n (omega arith), append_assoc)
        (accumulate-digits k (n / 10) _ (omega (arith, pow-suc 10 k)) (omega arith)
          ∙ accumulate-digit (n / 10) (n % 10) rest (omega arith) (omega arith)
          ∙ ap (accumulate rest) (omega arith))
]

-- The first character is a digit, hence no sign.
digits-head : (k n : ℕ) → (c : ℕ) × (s : Bytes) × (digits (suc k) n ≡ c ∷ s) × IsDigit c
digits-head zero n = elim (dec_lt n 10) [
  | yes small ↦ (b'0' + n, [], digits_small 0 n small, omega arith)
  | no large ↦
      (b'0' + n % 10, [], digits_large 0 n (omega arith) ∙ (unfold digits in refl), omega arith)
]
digits-head (suc k) n = elim (dec_lt n 10) [
  | yes small ↦ (b'0' + n, [], digits_small (suc k) n small, omega arith)
  | no large ↦
      let (c, s, e, digit) = digits-head k (n / 10) in
      let last : Bytes = (b'0' + n % 10) ∷ [] in
      (c, s ++ last, digits_large (suc k) n (omega arith) ∙ ap (λ t. t ++ last) e, digit)
]

parse_u64-accumulate : (c : ℕ) (s : Bytes) → IsDigit c → parse_u64 (c ∷ s) ≡ accumulate (c ∷ s) 0
unfolding parse_u64
parse_u64-accumulate c s h = ground arith

-- Every u64 is read back from its decimal print.
pub parse_u64-display : (n : ℕ) → IsU64 n → parse_u64 (display n) ≡ some n
unfolding display
parse_u64-display n h =
    let (c, s, e, digit) = digits-head 19 n in
    rw e (parse_u64-accumulate c s digit)
    ∙ ap (λ t. accumulate t 0) (sym e ∙ sym (append-nil _))
    ∙ accumulate-digits 20 n [] (omega arith) h
    ∙ (unfold accumulate in refl)
