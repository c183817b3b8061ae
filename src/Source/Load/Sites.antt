-- ===== src/Source/Load/Sites.antt =====
-- `Source::from_bytes` returns at the first refusal.
use luce_seed.Base.{
  ℕ, zero, suc, ◌+◌, ◌≡◌, refl, arith, true, Bool-cases, Option-cases, inl, inr, [], Option, none,
  some, String, Bytes, length, ltb, leb, if◌then◌else◌,
}
use luce_seed.Base.Words.{u32}
use luce_seed.Source.Directives.{scan_directives}
use luce_seed.Source.Load.Refused.{
  Refusal, Verdict, refuse, newline, check_text, judge, judge_scalar, refusal,
}
use luce_seed.Source.Load.{
  Round, bom_width, from_bytes, load_text, named_foreign_bom, refuse_at, returned, scalar_round,
  load_round,
}
use luce_seed.Source.Types.{Source, max_bytes}
use luce_seed.Source.Utf8.{utf8_next}
use luce_seed.Support.Diagnostics.{DiagnosticBag}

-- What a refusal makes of a source, and a verdict of a round.
abbrev pub returned_at : Source → DiagnosticBag → Option Refusal → Source × DiagnosticBag
returned_at source bag none = (source, bag)
returned_at source bag (some r) = refuse_at source bag r.at r.line r.column r.code r.message

abbrev round_of : Source → DiagnosticBag → ℕ → ℕ → ℕ → Verdict → Round
round_of source bag at line column (refuse code message) =
    returned (refuse_at source bag at line column code message)
round_of source bag at line column (newline skip) = Round.next_line skip
round_of source bag at line column (Verdict.next_column skip) = Round.next_column skip

module _ (source : Source) (bag : DiagnosticBag) where
  scalar_round-judge :
      (at line column width cp : ℕ)
      → scalar_round source bag at line column width cp
        ≡ round_of source bag at line column (judge_scalar source.bytes at width cp)
  unfolding scalar_round judge_scalar
  scalar_round-judge at line column width cp = ground arith

  load_round-judge :
      (at line column : ℕ)
      → load_round source bag at line column
        ≡ round_of source bag at line column (judge source.bytes at)
  unfolding load_round judge
  load_round-judge at line column = by_scalar (utf8_next source.bytes at)
    where
      by_scalar :
          (found : Option (ℕ × ℕ))
          → (elim found [
            | none ↦
                returned (refuse_at source bag at line column "lucb.source.utf8" "invalid UTF-8")
            | some (width, cp) ↦ scalar_round source bag at line column width cp
          ])
            ≡ round_of source bag at line column (elim found [
              | none ↦ refuse "lucb.source.utf8" "invalid UTF-8"
              | some (width, cp) ↦ judge_scalar source.bytes at width cp
            ])
      by_scalar none = refl
      by_scalar (some (width, cp)) = scalar_round-judge at line column width cp

  load_text-check_text :
      (fuel at line column : ℕ)
      → load_text fuel source bag at line column
        ≡ returned_at source bag (check_text fuel source.bytes at line column)
  unfolding load_text check_text
  load_text-check_text zero at line column = refl
  load_text-check_text (suc fuel) at line column =
      elim (Bool-cases (leb (length source.bytes) at)) [
        | inl past ↦ rw (past, load_text, check_text) refl
        | inr inside ↦
            rw (inside, load_text, check_text, load_round-judge at line column)
              (by_verdict (load_text-check_text fuel) (judge source.bytes at))
      ]
    where
      by_verdict :
          ((k l c : ℕ)
            → load_text fuel source bag k l c
              ≡ returned_at source bag (check_text fuel source.bytes k l c))
          → (v : Verdict)
          → (elim (round_of source bag at line column v) [
            | returned result ↦ result
            | Round.next_line skip ↦ load_text fuel source bag (at + skip) (u32 (line + 1)) 1
            | Round.next_column skip ↦ load_text fuel source bag (at + skip) line (u32 (column + 1))
          ])
            ≡ returned_at source bag (elim v [
              | refuse code message ↦
                  some (record {
                    at = at;
                    line = line;
                    column = column;
                    code = code;
                    message = message;
                  })
              | newline skip ↦ check_text fuel source.bytes (at + skip) (u32 (line + 1)) 1
              | Verdict.next_column skip ↦
                  check_text fuel source.bytes (at + skip) line (u32 (column + 1))
            ])
      by_verdict ih (refuse code message) = refl
      by_verdict ih (newline skip) = ih _ _ _
      by_verdict ih (Verdict.next_column skip) = ih _ _ _

-- The source that the loop or an earlier refusal is reached with.
unfoldable pub begun : String → Bytes → Source
begun path bytes = record {
  path = path;
  bytes = bytes;
  directives = scan_directives bytes;
  segments = [];
  scan_start =
      if ltb max_bytes (length bytes)
      then 0
      else elim (named_foreign_bom bytes) [ none ↦ bom_width bytes | some e ↦ 0 ];
  is_ok = true;
}

pub from_bytes-refusal :
    (path : String) (bytes : Bytes) (bag : DiagnosticBag)
    → from_bytes path bytes bag ≡ returned_at (begun path bytes) bag (refusal bytes)
unfolding from_bytes begun refusal
from_bytes-refusal path bytes bag = elim (Bool-cases (ltb max_bytes (length bytes))) [
  | inl early ↦ rw early refl
  | inr late ↦ rw late (elim (Option-cases (named_foreign_bom bytes)) [
    | inl own ↦ rw own (load_text-check_text _ bag (suc (length bytes)) (bom_width bytes) 1 1)
    | inr (encoding, foreign) ↦ rw foreign refl
  ])
]
