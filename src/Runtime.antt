-- ===== src/Runtime.antt =====
-- src/runtime: the helpers that a compiled program calls.
pub mod Word
pub mod Arith
pub mod Convert
pub mod Text
pub mod Fixed
