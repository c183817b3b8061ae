-- ===== src/Emit.antt =====
-- src/emit: the C that the emitter writes for arithmetic and conversions on integers.
pub mod Arith
pub mod Optional
pub mod Convert
