-- ===== src/DerivationPath.antt =====
-- include/mhda/derivation_path.hpp and src/derivation_path.cpp. `Levels` reads the segments of a
-- path, `Layout` holds the validators of the schemes, `Text` prints levels, and `Class`, `Parse` and
-- `Construct` hold the class `derivation_path`.
pub mod Levels
pub mod Layout
pub mod Text
pub mod Class
pub mod Parse
pub mod Construct
pub mod Lifecycle
