-- ===== src/Names.antt =====
-- The registered names: include/mhda/{algorithm,format,network_type,derivation_type}.hpp and their
-- .cpp files. A class over one `std::string` is a record with one field.
pub mod Algorithm
pub mod Format
pub mod Lower
pub mod NetworkType
pub mod DerivationType
pub mod Spelling
