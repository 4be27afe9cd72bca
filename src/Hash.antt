-- ===== src/Hash.antt =====
-- The hashes of src/hash.cpp: SHA-1 and SHA-256 over a text, printed in hexadecimal.
pub mod Word
pub mod Standard
pub mod Schedule
pub mod Blocks
pub mod Message
pub mod Sha1
pub mod Sha256
pub mod Hex
