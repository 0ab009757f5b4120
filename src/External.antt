-- ===== src/External.antt =====
-- What the program takes from other packages, as interfaces: records of operations, and records of
-- the documented behaviour that the theorems rely on.
pub mod Codecs
pub mod Streams
pub mod Actions
pub mod Channels
