-- ===== src/Tests.antt =====
-- Runs of the definitions at fixed inputs, and the theorems at concrete inputs.
mod Everything
mod Runs
mod Samples
mod Addresses
mod Texts
mod Digests
mod Frames
mod Lifecycles
