-- ===== src/Support/Decimal.antt =====
-- src/support/decimal.cpp: decimal literals to the bits of a float.
pub mod Big
pub mod Read
pub mod Round
