-- ===== src/Interp.antt =====
-- src/interp: the values of the interpreter and its integer operators.
pub mod Value
pub mod Arith
