-- ===== src/External/Codecs.antt =====
-- The `base58` and `hex` crates.
use nullpipe.Common.{◌<◌, ◌≡◌, ◌≢◌, Option, Result, ok, some, [], All}
use nullpipe.Std.Utf8.{Bytes, IsByte}
use nullpipe.Std.Text.{Text, Lacks}

pub record Base58 : Type 0 where
  pub to_base58 : Bytes → Text
  -- An error is given by its `Debug` print.
  pub from_base58 : Text → Result Bytes Text

pub record Hex : Type 0 where
  pub encode : Bytes → Text
  pub decode : Text → Option Bytes

-- Decoding undoes encoding, and no input but the empty one is encoded to the empty text.
pub record Base58Laws (b : Base58) : Type 0 where
  pub decodes : (bs : Bytes) → All IsByte bs → b.from_base58 (b.to_base58 bs) ≡ ok bs
  pub not_empty : (bs : Bytes) → bs ≢ [] → b.to_base58 bs ≢ []

-- Decoding undoes encoding, and an encoded text is made of ASCII characters with no colon.
pub record HexLaws (h : Hex) : Type 0 where
  pub decodes : (bs : Bytes) → All IsByte bs → h.decode (h.encode bs) ≡ some bs
  pub ascii : (bs : Bytes) → All (λ c. c < 0x80) (h.encode bs)
  pub no_colon : (bs : Bytes) → Lacks b':' (h.encode bs)
