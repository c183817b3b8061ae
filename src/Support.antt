-- ===== src/Support.antt =====
-- src/support: diagnostics, and the decoding of literal spellings.
pub mod Diagnostics
pub mod Encode
pub mod Literal
pub mod Character
pub mod Quoted
pub mod Braces
pub mod Arena
pub mod Decimal
