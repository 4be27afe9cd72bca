-- ===== src/Detail.antt =====
-- src/detail.hpp and src/detail.cpp: the byte-level helpers of the library.
pub mod Ascii
pub mod Number
pub mod Quote
