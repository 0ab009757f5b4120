-- ===== src/Std/Whitespace.antt =====
-- `trim` and `split_whitespace` of `str`, on UTF-8 bytes, with Unicode's white space.
use nullpipe.Common.{
  ℕ, zero, suc, ◌-◌, Bool, true, false, ◌&&◌, ◌||◌, List, [], ◌∷◌, ◌++◌, leb, ◌==◌, if◌then◌else◌,
}
use nullpipe.Std.Text.{Text, is_empty}

-- The length of the white-space character that the text starts with, or 0.
unfoldable pub white_len : Text → ℕ
white_len [] = 0
white_len (a ∷ []) = if (leb 9 a && leb a 13) || (a == 32) then 1 else 0
white_len (a ∷ b ∷ []) =
    if (leb 9 a && leb a 13) || (a == 32)
    then 1
    else if (a == 0xc2) && ((b == 0x85) || (b == 0xa0))
    then 2
    else 0
white_len (a ∷ b ∷ c ∷ s) =
    if (leb 9 a && leb a 13) || (a == 32)
    then 1
    else if (a == 0xc2) && ((b == 0x85) || (b == 0xa0))
    then 2
    else if (a == 0xe1) && (b == 0x9a) && (c == 0x80)
    then 3
    else if (a == 0xe2) && (b == 0x80) && (leb c 0x8a || (c == 0xa8) || (c == 0xa9) || (c == 0xaf))
    then 3
    else if (a == 0xe2) && (b == 0x81) && (c == 0x9f)
    then 3
    else if (a == 0xe3) && (b == 0x80) && (c == 0x80)
    then 3
    else 0

flush_word : Text → List Text → List Text
flush_word word rest = if is_empty word then rest else word ∷ rest

-- `skip` bytes of a white-space character are still to be passed; `word` is the word read so far.
words : ℕ → Text → Text → List Text
unfolding flush_word
words skip word [] = flush_word word []
words (suc skip) word (b ∷ s) = words skip word s
words zero word (b ∷ s) =
    let n = white_len (b ∷ s) in
    let grown = if n == 0 then word ++ b ∷ [] else [] in
    let rest = words (n - 1) grown s in if n == 0 then rest else flush_word word rest

unfoldable pub split_whitespace : Text → List Text
unfolding words
split_whitespace s = words 0 [] s

trim_start : ℕ → Text → Text
trim_start skip [] = []
trim_start (suc skip) (b ∷ s) = trim_start skip s
trim_start zero (b ∷ s) =
    let n = white_len (b ∷ s) in let rest = trim_start (n - 1) s in if n == 0 then b ∷ s else rest

-- A byte of white space is kept if anything is kept behind it.
trim_end : ℕ → Text → Text
trim_end skip [] = []
trim_end (suc skip) (b ∷ s) = let rest = trim_end skip s in if is_empty rest then [] else b ∷ rest
trim_end zero (b ∷ s) =
    let n = white_len (b ∷ s) in
    let rest = trim_end (n - 1) s in if is_empty rest && not_zero n then [] else b ∷ rest
  where
    not_zero : ℕ → Bool
    not_zero zero = false
    not_zero (suc n) = true

unfoldable pub trim : Text → Text
unfolding trim_start trim_end
trim s = trim_end 0 (trim_start 0 s)
