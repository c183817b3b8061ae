-- ===== src/Check.antt =====
-- src/check: the types of the language, and the rules of a custom `init`.
pub mod Kind
pub mod Layout
pub mod Init
