-- ===== src/Lex/Balance.antt =====
-- The layout tokens of a run: `indent` and `dedent` against `indent_width`, and the end of the text.
pub mod Core
pub mod Scanners
pub mod Lines
pub mod Kinds
pub mod Order
pub mod Tokens
