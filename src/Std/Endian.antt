-- ===== src/Std/Endian.antt =====
-- `u32::to_be_bytes` and `u32::from_be_bytes`.
use nullpipe.Common.{ℕ, ◌+◌, ◌*◌, ◌/◌, ◌%◌, ◌^◌, ◌<◌, ◌≡◌, [], ◌∷◌, All, arith, length}
use nullpipe.Std.Utf8.{Bytes, IsByte}

unfoldable pub to_be_bytes : ℕ → Bytes
to_be_bytes n = (n / 0x1000000 % 256) ∷ (n / 0x10000 % 256) ∷ (n / 0x100 % 256) ∷ (n % 256) ∷ []

unfoldable pub from_be_bytes : Bytes → ℕ
from_be_bytes (a ∷ b ∷ c ∷ d ∷ _) = a * 0x1000000 + b * 0x10000 + c * 0x100 + d
from_be_bytes _ = 0

pub from_be_bytes-to_be_bytes : (n : ℕ) → n < 2 ^ 32 → from_be_bytes (to_be_bytes n) ≡ n
unfolding from_be_bytes to_be_bytes
from_be_bytes-to_be_bytes n h = omega arith

pub to_be_bytes-IsByte : (n : ℕ) → All IsByte (to_be_bytes n)
unfolding to_be_bytes
to_be_bytes-IsByte n = omega arith

pub to_be_bytes-from_be_bytes :
    (bs : Bytes) → length bs ≡ 4 → All IsByte bs → to_be_bytes (from_be_bytes bs) ≡ bs
unfolding from_be_bytes to_be_bytes
to_be_bytes-from_be_bytes (a ∷ b ∷ c ∷ d ∷ []) h k = ground arith
to_be_bytes-from_be_bytes _ h k = absurd (omega arith)
