-- ===== src/Std.antt =====
-- What the program uses of Rust's standard library, modelled: text as UTF-8 bytes, decimal and
-- big-endian numbers, and the string methods.
pub mod Utf8
pub mod Text
pub mod Decimal
pub mod Endian
pub mod Whitespace
pub mod Edits
