-- ===== src/Codec.antt =====
-- The text encodings of Go's standard library that the node hashes, signs and parses with.
pub mod Hex
pub mod Decimal
pub mod Base64
pub mod Json
pub mod Time
