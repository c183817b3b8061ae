-- ===== src/Lex.antt =====
-- src/lex: text to tokens.
pub mod Token
pub mod Keyword
pub mod Chars
pub mod Symbol
pub mod State
pub mod Escape
pub mod Literal
pub mod Number
pub mod Layout
pub mod Run
pub mod Balance
pub mod Progress
