-- ===== src/Lex/Progress.antt =====
-- The lexer moves forward: no loop runs out of fuel, and no operation goes back in the text.
pub mod Core
pub mod Scanners
pub mod Lines
pub mod Raw
pub mod Tokens
pub mod Run
