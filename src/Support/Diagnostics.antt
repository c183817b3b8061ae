-- ===== src/Support/Diagnostics.antt =====
-- `Diagnostic` and `DiagnosticBag` of src/support/diagnostics.
use luce_seed.Base.{
  ℕ, ◌+◌, ◌-◌, ◌^◌, Bool, true, false, ◌||◌, not, List, [], ◌∷◌, ◌++◌, Option, none, some, String,
  leb, if◌then◌else◌, length, is_empty,
}
use luce_seed.Base.Words.{u32}
use luce_seed.Source.Types.{Span, Segment}
use text.Mathlib.Text.{◌==◌ as str_eq}

pub record Diagnostic : Type 0 where
  pub code : String
  pub path : String
  pub span : Span
  pub message : String
  pub warning : Bool

pub record Assembled : Type 0 where
  pub path : String
  pub segments : List Segment

pub record DiagnosticBag : Type 0 where
  pub items : List Diagnostic
  pub warnings : List Diagnostic
  pub modules : List Assembled

abbrev pub empty_bag : DiagnosticBag
empty_bag = record { items = []; warnings = []; modules = [] }

unfoldable pub assembled : DiagnosticBag → String → List Segment → DiagnosticBag
assembled bag path segments = record bag {
  modules = bag.modules ++ (record { path = path; segments = segments }) ∷ [];
}

-- The loop over the segments: the last one that begins at or before the line.
unfoldable pub last_segment : Segment → List Segment → ℕ → Segment
last_segment found [] line = found
last_segment found (s ∷ rest) line =
    last_segment (if leb s.start_line line then s else found) rest line

-- A diagnostic at a line of an assembled text is moved to the fragment that holds the line.
unfoldable pub relocate : Diagnostic → Segment → Diagnostic
relocate item found =
    let line = u32 (item.span.line + 2 ^ 32 - found.start_line + 1) in
    let sp = item.span in record item { path = found.path; span = record sp { line = line } }

unfoldable pub locate : List Assembled → Diagnostic → Diagnostic
locate [] item = item
locate (m ∷ rest) item =
    let next = locate rest item in
    elim m.segments [
      | [] ↦ next
      | s ∷ more ↦
          if not (str_eq m.path item.path)
          then next
          else relocate item (last_segment s (s ∷ more) item.span.line)
    ]

unfoldable pub add : DiagnosticBag → String → String → Span → String → DiagnosticBag
add bag code path span message =
    let item : Diagnostic = record {
      code = code;
      path = path;
      span = span;
      message = message;
      warning = false;
    } in
    record bag { items = bag.items ++ locate bag.modules item ∷ [] }

unfoldable pub warn : DiagnosticBag → String → String → Span → String → DiagnosticBag
warn bag code path span message =
    let item : Diagnostic = record {
      code = code;
      path = path;
      span = span;
      message = message;
      warning = true;
    } in
    record bag { warnings = bag.warnings ++ locate bag.modules item ∷ [] }

-- The loop of `has_code` and of `has_warning`.
unfoldable pub mentions : List Diagnostic → String → Bool
mentions [] code = false
mentions (d ∷ rest) code = str_eq d.code code || mentions rest code

unfoldable pub has_code : DiagnosticBag → String → Bool
has_code bag code = mentions bag.items code

unfoldable pub has_warning : DiagnosticBag → String → Bool
has_warning bag code = mentions bag.warnings code

unfoldable pub first : DiagnosticBag → Option Diagnostic
first bag = elim bag.items [ [] ↦ none | d ∷ rest ↦ some d ]

unfoldable pub count : DiagnosticBag → ℕ
count bag = length bag.items

unfoldable pub empty : DiagnosticBag → Bool
empty bag = is_empty bag.items
