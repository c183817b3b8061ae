-- ===== src/Source/Load/Accepts.antt =====
-- What texts `Source::from_bytes` accepts.
use luce_seed.Base.{
  ℕ, zero, suc, ◌+◌, ◌-◌, ◌≤◌, ◌<◌, ◌≡◌, ◌≢◌, ◌↔◌, ◌⊎◌, refl, sym, ◌∙◌, arith, true, false,
  Bool-cases, inl, inr, [], ◌∷◌, length-append, Option, none, some, String, Bytes, length, get_or,
  leb,
}
use luce_seed.Source.Classify.{is_bidi_control}
use luce_seed.Source.Load.Refused.{
  Refusal, Verdict, refuse, newline, next_column, check_text, judge, judge_scalar, refusal,
}
use luce_seed.Source.Load.Sites.{begun, from_bytes-refusal}
use luce_seed.Source.Load.{bom_width, named_foreign_bom, from_bytes, point, refuse_at}
use luce_seed.Base.Words.{u32}
use luce_seed.Source.Types.{Span, max_bytes}
use luce_seed.Support.Diagnostics.{DiagnosticBag, add, count}
use luce_seed.Source.Utf8.{multibyte, refused, utf8_next}

-- A scalar value that may stand in a text on its own.
abbrev pub IsAllowed : ℕ → Type 0
IsAllowed cp = (cp ≢ 0) × (cp ≢ 0xFEFF) × (is_bidi_control cp ≡ false) × (cp ≢ b'\t') × (cp ≢ b'\r')

-- From the offset on the text is a sequence of allowed scalar values and of carriage returns that
-- stand before a newline.
pub data IsClean (bytes : Bytes) : ℕ → Type 0 where
  finished : {at : ℕ} → length bytes ≤ at → IsClean bytes at
  scalar :
      {at width cp : ℕ}
      → at < length bytes
      → utf8_next bytes at ≡ some (width, cp)
      → IsAllowed cp
      → IsClean bytes (at + width)
      → IsClean bytes at
  line_end :
      {at width : ℕ}
      → at + 1 < length bytes
      → utf8_next bytes at ≡ some (width, b'\r')
      → get_or bytes (at + 1) 0 ≡ b'\n'
      → IsClean bytes (at + 2)
      → IsClean bytes at

-- A scalar value of ASCII takes one byte.
ascii_width :
    (bytes : Bytes) (at width cp : ℕ)
    → utf8_next bytes at ≡ some (width, cp)
    → (1 ≤ width) × (cp < 0x80 → width ≡ 1)
unfolding utf8_next multibyte refused
ascii_width bytes at width cp e = ground arith

-- The verdict on a scalar value, by what it is.
module _ (bytes : Bytes) (at width cp : ℕ) where
  judge-allowed :
      IsAllowed cp
      → (judge_scalar bytes at width cp ≡ next_column width)
        ⊎ ((cp ≡ b'\n') × (judge_scalar bytes at width cp ≡ newline 1))
  unfolding judge_scalar
  judge-allowed ok = ground arith

  judge-line_end :
      cp ≡ b'\r'
      → at + 1 < length bytes
      → get_or bytes (at + 1) 0 ≡ b'\n'
      → judge_scalar bytes at width cp ≡ newline 2
  unfolding judge_scalar is_bidi_control
  judge-line_end e inside lf = ground arith

  -- A verdict that goes on.
  abbrev Passed : Verdict → Type 0
  Passed (refuse code message) = Unit
  Passed (newline k) =
      ((k ≡ 1) × (cp ≡ b'\n') × IsAllowed cp)
      ⊎ ((k ≡ 2) × (cp ≡ b'\r') × (at + 1 < length bytes) × (get_or bytes (at + 1) 0 ≡ b'\n'))
  Passed (next_column k) = (k ≡ width) × IsAllowed cp

  judge-Passed : Passed (judge_scalar bytes at width cp)
  unfolding judge_scalar
  judge-Passed = ground arith

-- The rest of a round, behind its verdict.
abbrev resume : ℕ → Bytes → ℕ → ℕ → ℕ → Verdict → Option Refusal
resume fuel bytes at line column verdict = elim verdict [
  | refuse code message ↦
      some (record { at = at; line = line; column = column; code = code; message = message })
  | newline skip ↦ check_text fuel bytes (at + skip) (u32 (line + 1)) 1
  | next_column skip ↦ check_text fuel bytes (at + skip) line (u32 (column + 1))
]

module _ (fuel : ℕ) (bytes : Bytes) (at line column : ℕ) (inside : at < length bytes) where
  -- A round that goes on to a clean text began at one.
  module _
      (ih : (k l c : ℕ)
        → 1 ≤ k
        → check_text fuel bytes (at + k) l c ≡ none
        → IsClean bytes (at + k))
      (width cp : ℕ) (e : utf8_next bytes at ≡ some (width, cp)) where
    Passed-IsClean :
        (v : Verdict)
        → Passed bytes at width cp v
        → resume fuel bytes at line column v ≡ none
        → IsClean bytes at
    Passed-IsClean (refuse code message) p h = absurd (ground arith)
    Passed-IsClean (newline k) (inl (one, lf, ok)) h =
        let w = (ascii_width bytes at width cp e).1 (omega arith) in
        scalar inside e ok (rw (w ∙ sym one) (ih k _ _ (omega arith) h))
    Passed-IsClean (newline k) (inr (two, cr, more, lf)) h =
        line_end {width = width} more (rw (← cr) e) lf (rw (← two) (ih k _ _ (omega arith) h))
    Passed-IsClean (next_column k) (same, ok) h =
        let w = (ascii_width bytes at width cp e).0 in
        scalar inside e ok (rw (← same) (ih k _ _ (omega arith) h))

  round-IsClean :
      ((k l c : ℕ) → 1 ≤ k → check_text fuel bytes (at + k) l c ≡ none → IsClean bytes (at + k))
      → (found : Option (ℕ × ℕ)) → utf8_next bytes at ≡ found
      → resume fuel bytes at line column (elim found [
        | none ↦ refuse "lucb.source.utf8" "invalid UTF-8"
        | some (width, cp) ↦ judge_scalar bytes at width cp
      ])
        ≡ none
      → IsClean bytes at
  round-IsClean ih none e h = absurd (ground arith)
  round-IsClean ih (some (width, cp)) e h =
      Passed-IsClean ih width cp e (judge_scalar bytes at width cp) (judge-Passed bytes at width cp)
        h

check_text-IsClean :
    (fuel : ℕ) (bytes : Bytes) (at line column : ℕ)
    → length bytes - at < fuel
    → check_text fuel bytes at line column ≡ none
    → IsClean bytes at
unfolding check_text judge
check_text-IsClean zero bytes at line column f h = absurd (omega arith)
check_text-IsClean (suc fuel) bytes at line column f h = elim (Bool-cases (leb (length bytes) at)) [
  | inl past ↦ finished (ground (arith, past))
  | inr inside ↦
      round-IsClean fuel bytes at line column (ground (arith, inside))
        (λ k l c i. check_text-IsClean fuel bytes (at + k) l c (ground (arith, inside)))
        (utf8_next bytes at) refl (rw (inside, check_text, judge) at h)
]

-- Every clean text passes, whatever line and column the test starts with.
IsClean-check_text :
    (fuel : ℕ) (bytes : Bytes) {at : ℕ} (line column : ℕ)
    → IsClean bytes at
    → check_text fuel bytes at line column ≡ none
unfolding check_text judge
IsClean-check_text zero bytes line column h = refl
IsClean-check_text (suc fuel) bytes {at} line column (finished past) = ground (arith, past)
IsClean-check_text (suc fuel) bytes {at} line column
      (scalar {width = width} {cp = cp} inside e ok rest) =
    ground (
      arith,
      e,
      judge-allowed bytes at width cp ok,
      ascii_width bytes at width cp e,
      IsClean-check_text fuel bytes (u32 (line + 1)) 1 rest,
      IsClean-check_text fuel bytes line (u32 (column + 1)) rest,
    )
IsClean-check_text (suc fuel) bytes {at} line column (line_end {width = width} more e lf rest) =
    ground (
      arith,
      e,
      judge-line_end bytes at width b'\r' refl more lf,
      IsClean-check_text fuel bytes (u32 (line + 1)) 1 rest,
    )

refusal_iff :
    (bytes : Bytes)
    → (refusal bytes ≡ none) ↔ (
        (length bytes ≤ max_bytes)
        × (named_foreign_bom bytes ≡ none)
        × IsClean bytes (bom_width bytes))
unfolding refusal
refusal_iff bytes = (
  λ h.
      ground (
        arith,
        h,
        check_text-IsClean (suc (length bytes)) bytes (bom_width bytes) 1 1 (omega arith),
      ),
  λ h. ground (arith, IsClean-check_text (suc (length bytes)) bytes 1 1 h.2),
)

-- `Source::from_bytes` accepts a text exactly when the text is at most 64 MiB long, does not begin with
-- the mark of a foreign encoding, and behind its byte order mark is a sequence of allowed scalar
-- values and of carriage returns that stand before a newline.
pub from_bytes_iff :
    (path : String) (bytes : Bytes) (bag : DiagnosticBag)
    → ((from_bytes path bytes bag).0.is_ok ≡ true) ↔ (
        (length bytes ≤ max_bytes)
        × (named_foreign_bom bytes ≡ none)
        × IsClean bytes (bom_width bytes))
unfolding begun refuse_at
from_bytes_iff path bytes bag =
    let exact = refusal_iff bytes in
    rw (from_bytes-refusal path bytes bag)
      (λ h. exact.0 (ground arith), λ h. let e = exact.1 h in ground (arith, e))

count-add :
    (bag : DiagnosticBag) (code path : String) (span : Span) (message : String)
    → let after = add bag code path span message in
      (count after ≡ count bag + 1) × (after.warnings ≡ bag.warnings)
unfolding add count
count-add bag code path span message = (length-append bag.items (_ ∷ []) ∙ omega arith, refl)

-- `Source::from_bytes` adds one error to the bag if it refuses the text, and else leaves the bag as it is.
pub from_bytes-count :
    (path : String) (bytes : Bytes) (bag : DiagnosticBag)
    → let r = from_bytes path bytes bag in
      ((r.0.is_ok ≡ true) × (r.1 ≡ bag))
      ⊎ ((r.0.is_ok ≡ false) × (count r.1 ≡ count bag + 1) × (r.1.warnings ≡ bag.warnings))
unfolding begun refuse_at
from_bytes-count path bytes bag = by_refusal (refusal bytes) refl
  where
    by_refusal :
        (found : Option Refusal)
        → refusal bytes ≡ found
        → let r = from_bytes path bytes bag in
          ((r.0.is_ok ≡ true) × (r.1 ≡ bag))
          ⊎ ((r.0.is_ok ≡ false) × (count r.1 ≡ count bag + 1) × (r.1.warnings ≡ bag.warnings))
    by_refusal none e = rw (from_bytes-refusal path bytes bag, e) (inl (refl, refl))
    by_refusal (some r) e =
        let (one, kept) = count-add bag r.code path (point r.at r.line r.column) r.message in
        rw (from_bytes-refusal path bytes bag, e) (inr (refl, one, kept))
