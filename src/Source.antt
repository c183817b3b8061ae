-- ===== src/Source.antt =====
-- src/source: the text of a file, its positions, and the diagnostics that name them.
pub mod Types
pub mod Utf8
pub mod Classify
pub mod Directives
pub mod Load
pub mod Position
pub mod Assemble
