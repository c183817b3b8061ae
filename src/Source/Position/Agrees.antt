-- ===== src/Source/Position/Agrees.antt =====
-- `Source::span_at` against the line and column that `Source::from_bytes` reports.
use Prim.Native.Nat.{bit_and}
use Prim.Native.String.{◌++◌ as str_append}
use luce_seed.Base.Words.{u32}
use luce_seed.Base.{
  ℕ, zero, suc, ◌+◌, ◌≤◌, ◌<◌, ◌≡◌, ◌⊎◌, refl, arith, true, false, Bool-cases, inl, inr, Option,
  none, some, String, Bytes, length, get_or, ltb, leb, if◌then◌else◌,
}
use luce_seed.Source.Load.Refused.{
  Refusal, Verdict, refuse, newline, next_column, check_text, judge, judge_scalar, refusal,
}
use luce_seed.Source.Load.Sites.{begun, from_bytes-refusal}
use luce_seed.Source.Load.{bom_width, from_bytes, named_foreign_bom, point, refuse_at}
use luce_seed.Source.Position.{span_at, stride, walk}
use luce_seed.Source.Types.{max_bytes}
use luce_seed.Source.Utf8.{multibyte, refused, utf8_next}
use luce_seed.Support.Diagnostics.{DiagnosticBag}

multibyte_high :
    (bytes : Bytes) (at w value width cp : ℕ)
    → (w ≡ 2) ⊎ ((w ≡ 3) ⊎ (w ≡ 4))
    → multibyte bytes at w value ≡ some (width, cp)
    → (0x80 ≤ cp) × (1 ≤ width)
unfolding multibyte refused
multibyte_high bytes at w value width cp (inl two) e = ground (arith, two)
multibyte_high bytes at w value width cp (inr (inl three)) e = ground (arith, three)
multibyte_high bytes at w value width cp (inr (inr four)) e = ground (arith, four)

-- The value is the lead byte, or neither is ASCII.
lead_byte :
    (bytes : Bytes) (at width cp : ℕ)
    → utf8_next bytes at ≡ some (width, cp)
    → ((get_or bytes at 0 ≡ cp) ⊎ ((0x80 ≤ cp) × (0x80 ≤ get_or bytes at 0))) × (1 ≤ width)
unfolding utf8_next
lead_byte bytes at width cp e =
    let high = λ (w value : ℕ) (i : (w ≡ 2) ⊎ ((w ≡ 3) ⊎ (w ≡ 4))).
      multibyte_high bytes at w value width cp i in
    ground (
      arith,
      e,
      high 2 (bit_and (get_or bytes at 0) 0x1F) (inl refl),
      high 3 (bit_and (get_or bytes at 0) 0x0F) (inr (inl refl)),
      high 4 (bit_and (get_or bytes at 0) 0x07) (inr (inr refl)),
    )

-- Both loops take the same step.
abbrev Steps : Bytes → ℕ → Verdict → Type 0
Steps bytes at (refuse code message) = Unit
Steps bytes at (newline k) = (stride bytes at ≡ (k, true)) × (1 ≤ k)
Steps bytes at (next_column k) = (stride bytes at ≡ (k, false)) × (1 ≤ k)

judge-Steps : (bytes : Bytes) (at : ℕ) → Steps bytes at (judge bytes at)
unfolding judge
judge-Steps bytes at = by_scalar (utf8_next bytes at) refl
  where
    by_scalar :
        (found : Option (ℕ × ℕ))
        → utf8_next bytes at ≡ found
        → Steps bytes at (elim found [
          | none ↦ refuse "lucb.source.utf8" "invalid UTF-8"
          | some (width, cp) ↦ judge_scalar bytes at width cp
        ])
    by_scalar none e = tt
    by_scalar (some (width, cp)) e =
        unfold judge_scalar stride in ground (arith, e, lead_byte bytes at width cp e)

-- The place of a refusal is one that the other loop reaches with the same line and column.
abbrev Reaches : ℕ → Bytes → ℕ → ℕ → ℕ → Refusal → Type 0
Reaches fuel bytes at line column r =
    (at ≤ r.at) × (walk fuel bytes r.at at line column ≡ (r.line, r.column))

module _ (fuel : ℕ) (bytes : Bytes) (at line column : ℕ) (inside : at < length bytes)
    (r : Refusal) where
  step_newline :
      (k : ℕ)
      → stride bytes at ≡ (k, true)
      → 1 ≤ k
      → Reaches fuel bytes (at + k) (u32 (line + 1)) 1 r
      → Reaches (suc fuel) bytes at line column r
  unfolding walk
  step_newline k e one ih = ground (arith, e, ih)

  step_column :
      (k : ℕ)
      → stride bytes at ≡ (k, false)
      → 1 ≤ k
      → Reaches fuel bytes (at + k) line (u32 (column + 1)) r
      → Reaches (suc fuel) bytes at line column r
  unfolding walk
  step_column k e one ih = ground (arith, e, ih)

check_text-Reaches :
    (fuel : ℕ) (bytes : Bytes) (at line column : ℕ) (r : Refusal)
    → check_text fuel bytes at line column ≡ some r
    → Reaches fuel bytes at line column r
unfolding check_text
check_text-Reaches zero bytes at line column r h = absurd (ground arith)
check_text-Reaches (suc fuel) bytes at line column r h = elim (Bool-cases (leb (length bytes) at)) [
  | inl past ↦ absurd (ground (arith, past))
  | inr inside ↦
      by_verdict (ground (arith, inside)) (λ k l c. check_text-Reaches fuel bytes (at + k) l c r)
        (judge bytes at) (judge-Steps bytes at) (rw (inside, check_text) at h)
]
  where
    by_verdict :
        at < length bytes
        → ((k l c : ℕ)
            → check_text fuel bytes (at + k) l c ≡ some r
            → Reaches fuel bytes (at + k) l c r)
        → (v : Verdict) → Steps bytes at v
        → (elim v [
          | refuse code message ↦
              some
                (record { at = at; line = line; column = column; code = code; message = message })
          | newline skip ↦ check_text fuel bytes (at + skip) (u32 (line + 1)) 1
          | next_column skip ↦ check_text fuel bytes (at + skip) line (u32 (column + 1))
        ])
          ≡ some r
        → Reaches (suc fuel) bytes at line column r
    by_verdict inside ih (refuse code message) s e = unfold walk in ground (arith, e)
    by_verdict inside ih (newline k) s e =
        step_newline fuel bytes at line column inside r k s.0 s.1 (ih k _ _ e)
    by_verdict inside ih (next_column k) s e =
        step_column fuel bytes at line column inside r k s.0 s.1 (ih k _ _ e)

-- Where the text is first read, as `from_bytes` sets it.
abbrev start_of : Bytes → ℕ
start_of bytes =
    if ltb max_bytes (length bytes)
    then 0
    else elim (named_foreign_bom bytes) [ none ↦ bom_width bytes | some e ↦ 0 ]

source-start :
    (path : String) (bytes : Bytes) (bag : DiagnosticBag)
    → let s = (from_bytes path bytes bag).0 in (s.bytes ≡ bytes) × (s.scan_start ≡ start_of bytes)
unfolding begun refuse_at
source-start path bytes bag = by_refusal (refusal bytes) refl
  where
    by_refusal :
        (found : Option Refusal)
        → refusal bytes ≡ found
        → let s = (from_bytes path bytes bag).0 in
          (s.bytes ≡ bytes) × (s.scan_start ≡ start_of bytes)
    by_refusal none e = rw (from_bytes-refusal path bytes bag, e) (refl, refl)
    by_refusal (some r) e = rw (from_bytes-refusal path bytes bag, e) (refl, refl)

walk-refusal :
    (bytes : Bytes) (r : Refusal)
    → refusal bytes ≡ some r
    → walk (suc (length bytes)) bytes r.at (start_of bytes) 1 1 ≡ (r.line, r.column)
unfolding refusal
walk-refusal bytes r h = elim (Bool-cases (ltb max_bytes (length bytes))) [
  | inl early ↦ rw early (unfold walk in ground (arith, rw (early, refusal) at h))
  | inr late ↦ rw late (by_mark (named_foreign_bom bytes) (rw (late, refusal) at h))
]
  where
    by_mark :
        (mark : Option String)
        → (elim mark [
          | none ↦ check_text (suc (length bytes)) bytes (bom_width bytes) 1 1
          | some encoding ↦ some (record {
            at = 0;
            line = 1;
            column = 1;
            code = "lucb.source.encoding";
            message = str_append encoding "; save the file as UTF-8";
          })
        ])
          ≡ some r
        → walk
            (suc (length bytes))
            bytes
            r.at
            (elim mark [ none ↦ bom_width bytes | some e ↦ 0 ])
            1
            1
          ≡ (r.line, r.column)
    by_mark none e = (check_text-Reaches (suc (length bytes)) bytes (bom_width bytes) 1 1 r e).1
    by_mark (some encoding) e = unfold walk in ground (arith, e)

-- Where `Source::from_bytes` refuses a text, the span that it reports is the one that `Source::span_at`
-- gives for the offset of the refusal.
pub span_at-refusal :
    (path : String) (bytes : Bytes) (bag : DiagnosticBag) (r : Refusal)
    → refusal bytes ≡ some r
    → span_at (from_bytes path bytes bag).0 r.at r.at ≡ point r.at r.line r.column
unfolding span_at point
span_at-refusal path bytes bag r h =
    let (same, start) = source-start path bytes bag in rw (same, start, walk-refusal bytes r h) refl
