-- ===== src/Source/Load/Refused.antt =====
-- Which refusal `Source::from_bytes` of src/source/source.cpp comes to first, apart from what it does then.
use Prim.Native.String.{◌++◌ as str_append}
use luce_seed.Base.{
  ℕ, zero, suc, ◌+◌, true, false, not, ◌||◌, Option, none, some, String, Bytes, length, get_or, ltb,
  leb, ◌==◌, if◌then◌else◌,
}
use luce_seed.Base.Words.{u32}
use luce_seed.Source.Classify.{is_bidi_control}
use luce_seed.Source.Load.{bom_width, named_foreign_bom}
use luce_seed.Source.Types.{max_bytes}
use luce_seed.Source.Utf8.{utf8_next}

-- Where and why a text is refused.
pub record Refusal : Type 0 where
  pub at : ℕ
  pub line : ℕ
  pub column : ℕ
  pub code : String
  pub message : String

-- What the loop does with the scalar value at `at`: refuse it, or go on, `skip` bytes further and on
-- the next line or not.
pub data Verdict : Type 0 where
  refuse : String → String → Verdict
  newline : ℕ → Verdict
  next_column : ℕ → Verdict

unfoldable pub judge_scalar : Bytes → ℕ → ℕ → ℕ → Verdict
judge_scalar bytes at width cp =
    if cp == 0
    then refuse "lucb.source.nul" "NUL is not allowed in source"
    else if cp == 0xFEFF
    then refuse "lucb.source.bom" "a UTF-8 BOM is allowed only at byte zero"
    else if is_bidi_control cp
    then refuse "lucb.source.bidi" "bidirectional controls are not allowed in source"
    else if cp == b'\t'
    then refuse "lucb.lex.tab" "tabs are not allowed; use spaces"
    else if cp == b'\r'
    then (if leb (length bytes) (at + 1) || not (get_or bytes (at + 1) 0 == b'\n')
        then refuse "lucb.source.cr" "carriage return must be followed by newline"
        else newline 2)
    else if cp == b'\n'
    then newline 1
    else next_column width

unfoldable pub judge : Bytes → ℕ → Verdict
judge bytes at = elim (utf8_next bytes at) [
  | none ↦ refuse "lucb.source.utf8" "invalid UTF-8"
  | some (width, cp) ↦ judge_scalar bytes at width cp
]

-- The loop over the text, with fuel.
unfoldable pub check_text : ℕ → Bytes → ℕ → ℕ → ℕ → Option Refusal
check_text zero bytes at line column = none
check_text (suc fuel) bytes at line column =
    let verdict = judge bytes at in
    elim (leb (length bytes) at) [
      | true ↦ none
      | false ↦ elim verdict [
        | refuse code message ↦
            some (record { at = at; line = line; column = column; code = code; message = message })
        | newline skip ↦ check_text fuel bytes (at + skip) (u32 (line + 1)) 1
        | next_column skip ↦ check_text fuel bytes (at + skip) line (u32 (column + 1))
      ]
    ]

-- The refusal of a whole text, in the order of the tests; each round of the loop takes a byte.
unfoldable pub refusal : Bytes → Option Refusal
refusal bytes =
    let whole = check_text (suc (length bytes)) bytes (bom_width bytes) 1 1 in
    if ltb max_bytes (length bytes)
    then some (record {
      at = 0;
      line = 1;
      column = 1;
      code = "lucb.source.too_large";
      message = "source file is larger than 64 MiB";
    })
    else elim (named_foreign_bom bytes) [
      | none ↦ whole
      | some encoding ↦ some (record {
        at = 0;
        line = 1;
        column = 1;
        code = "lucb.source.encoding";
        message = str_append encoding "; save the file as UTF-8";
      })
    ]
