-- ===== src/Source/Load.antt =====
-- `Source::from_bytes` of src/source/source.cpp: what a text must be to be read at all.
pub mod Refused
pub mod Sites
pub mod Accepts
use Prim.Native.String.{◌++◌ as str_append}
use luce_seed.Base.{
  ℕ, zero, suc, ◌+◌, Bool, true, false, not, ◌&&◌, ◌||◌, [], Option, none, some, String, Bytes,
  length, get_or, ltb, leb, ◌==◌, if◌then◌else◌,
}
use luce_seed.Base.Words.{u32}
use luce_seed.Source.Classify.{is_bidi_control}
use luce_seed.Source.Directives.{scan_directives}
use luce_seed.Source.Types.{Span, Source, max_bytes}
use luce_seed.Source.Utf8.{utf8_next}
use luce_seed.Support.Diagnostics.{DiagnosticBag, add}

-- The span of `add_at`.
unfoldable pub point : ℕ → ℕ → ℕ → Span
point byte line column = record { start = u32 byte; end = u32 byte; line = line; column = column }

unfoldable pub named_foreign_bom : Bytes → Option String
named_foreign_bom bytes =
    let a = get_or bytes 0 0 in
    let b = get_or bytes 1 0 in
    let c = get_or bytes 2 0 in
    let d = get_or bytes 3 0 in
    let four = leb 4 (length bytes) in
    let two = leb 2 (length bytes) in
    if four && a == 0x00 && b == 0x00 && c == 0xFE && d == 0xFF
    then some "UTF-32 (big-endian)"
    else if four && a == 0xFF && b == 0xFE && c == 0x00 && d == 0x00
    then some "UTF-32 (little-endian)"
    else if two && a == 0xFE && b == 0xFF
    then some "UTF-16 (big-endian)"
    else if two && a == 0xFF && b == 0xFE
    then some "UTF-16 (little-endian)"
    else none

-- A byte order mark at byte zero is skipped.
unfoldable pub bom_width : Bytes → ℕ
bom_width bytes =
    if leb 3 (length bytes)
      && get_or bytes 0 0 == 0xEF
      && get_or bytes 1 0 == 0xBB
      && get_or bytes 2 0 == 0xBF
    then 3
    else 0

-- `add_at(diagnostics, source.path_, at, line, column, ...); source.ok_ = false; return source;`
unfoldable pub refuse_at :
    Source → DiagnosticBag → ℕ → ℕ → ℕ → String → String → Source × DiagnosticBag
refuse_at source bag at line column code message =
    (record source { is_ok = false }, add bag code source.path (point at line column) message)

-- A round of the loop returns, or goes on, some bytes further and on the next line or not.
pub data Round : Type 0 where
  returned : Source × DiagnosticBag → Round
  next_line : ℕ → Round
  next_column : ℕ → Round

-- The round, behind the scalar value that stands at `at`.
unfoldable pub scalar_round : Source → DiagnosticBag → ℕ → ℕ → ℕ → ℕ → ℕ → Round
scalar_round source bag at line column width cp =
    if cp == 0
    then returned
        (refuse_at source bag at line column "lucb.source.nul" "NUL is not allowed in source")
    else if cp == 0xFEFF
    then returned (
        refuse_at source bag at line column "lucb.source.bom"
          "a UTF-8 BOM is allowed only at byte zero")
    else if is_bidi_control cp
    then returned (
        refuse_at source bag at line column "lucb.source.bidi"
          "bidirectional controls are not allowed in source")
    else if cp == b'\t'
    then returned
        (refuse_at source bag at line column "lucb.lex.tab" "tabs are not allowed; use spaces")
    else if cp == b'\r'
    then (if leb (length source.bytes) (at + 1) || not (get_or source.bytes (at + 1) 0 == b'\n')
        then returned (
            refuse_at source bag at line column "lucb.source.cr"
              "carriage return must be followed by newline")
        else next_line 2)
    else if cp == b'\n'
    then next_line 1
    else next_column width

unfoldable pub load_round : Source → DiagnosticBag → ℕ → ℕ → ℕ → Round
load_round source bag at line column = elim (utf8_next source.bytes at) [
  | none ↦ returned (refuse_at source bag at line column "lucb.source.utf8" "invalid UTF-8")
  | some (width, cp) ↦ scalar_round source bag at line column width cp
]

-- The loop over the text, with fuel: each round takes a byte.
unfoldable pub load_text : ℕ → Source → DiagnosticBag → ℕ → ℕ → ℕ → Source × DiagnosticBag
load_text zero source bag at line column = (source, bag)
load_text (suc fuel) source bag at line column =
    let round = load_round source bag at line column in
    elim (leb (length source.bytes) at) [
      | true ↦ (source, bag)
      | false ↦ elim round [
        | returned result ↦ result
        | next_line skip ↦ load_text fuel source bag (at + skip) (u32 (line + 1)) 1
        | next_column skip ↦ load_text fuel source bag (at + skip) line (u32 (column + 1))
      ]
    ]

-- `scan_start_` is set where the text is not refused before its byte order mark is looked at.
unfoldable pub from_bytes : String → Bytes → DiagnosticBag → Source × DiagnosticBag
from_bytes path bytes bag =
    let source : Source = record {
      path = path;
      bytes = bytes;
      directives = scan_directives bytes;
      segments = [];
      scan_start = 0;
      is_ok = true;
    } in
    let begun : Source = record source { scan_start = bom_width bytes } in
    let loaded = load_text (suc (length bytes)) begun bag (bom_width bytes) 1 1 in
    if ltb max_bytes (length bytes)
    then refuse_at source bag 0 1 1 "lucb.source.too_large" "source file is larger than 64 MiB"
    else elim (named_foreign_bom bytes) [
      | some encoding ↦
          refuse_at source bag 0 1 1 "lucb.source.encoding"
            (str_append encoding "; save the file as UTF-8")
      | none ↦ loaded
    ]
