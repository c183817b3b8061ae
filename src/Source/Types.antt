-- ===== src/Source/Types.antt =====
-- The types of src/source/source.h. Paths and messages are texts; the contents of a file are bytes.
use luce_seed.Base.{ℕ, ◌*◌, Bool, List, String, Bytes}

pub record Span : Type 0 where
  pub start : ℕ
  pub end : ℕ
  pub line : ℕ
  pub column : ℕ

pub record Directive : Type 0 where
  pub base_line : ℕ
  pub file : Bytes
  pub line : ℕ
  pub column : ℕ
  pub fragment : Bool

pub record Segment : Type 0 where
  pub path : String
  pub start_line : ℕ

pub record Source : Type 0 where
  pub path : String
  pub bytes : Bytes
  pub directives : List Directive
  pub segments : List Segment
  pub scan_start : ℕ
  pub is_ok : Bool

-- `Source::max_bytes`
abbrev pub max_bytes : ℕ
max_bytes = 64 * 1024 * 1024
