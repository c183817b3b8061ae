-- ===== src/Runtime/Convert.antt =====
-- The integer conversions of src/runtime/lucb_rt.c.
use luce_seed.Base.Int.{ℤ, ltb_ℤ, is_negative}
use luce_seed.Base.{ℕ, ◌%◌, ◌^◌, Bool, false, not, ◌&&◌, ◌||◌, ltb, leb, if◌then◌else◌}
use luce_seed.Interp.Value.{to_i64, to_u64}
use luce_seed.Runtime.Word.{Outcome, done, ◌>>=◌, mask_bits, sext, smax, smin, stop, zext}

unfoldable pub fits_u : ℕ → ℕ → Bool
fits_u v bits = leb v (mask_bits bits)

-- `lb_source`
pub record Source : Type 0 where
  pub negative : Bool
  pub bits : ℕ

unfoldable pub source_of : ℕ → ℕ → Bool → Source
source_of a from_bits from_signed =
    if from_signed
    then (let v = sext (to_i64 a) from_bits in record { negative = is_negative v; bits = to_u64 v })
    else record { negative = false; bits = zext a from_bits }

unfoldable pub checked_bits : Source → ℕ → Bool → Outcome ℕ
checked_bits s to_bits to_signed =
    let bad =
      if to_signed
      then (if s.negative
          then ltb_ℤ (to_i64 s.bits) (smin to_bits)
          else ltb (to_u64 (smax to_bits)) s.bits)
      else s.negative || not (fits_u s.bits to_bits) in
    if bad then stop "integer conversion out of range" else done s.bits

-- The mode is 0 for a checked conversion.
unfoldable pub conv_s : ℤ → ℕ → Bool → ℕ → Bool → Bool → Outcome ℤ
conv_s a from_bits from_signed to_bits to_signed checked =
    let s = source_of (to_u64 a) from_bits from_signed in
    if checked
    then (checked_bits s to_bits to_signed >>= λ r. done (to_i64 r))
    else (let r = to_i64 (zext s.bits to_bits) in done (if to_signed then sext r to_bits else r))

unfoldable pub conv_u : ℕ → ℕ → Bool → ℕ → Bool → Bool → Outcome ℕ
conv_u a from_bits from_signed to_bits to_signed checked =
    let s = source_of a from_bits from_signed in
    if checked then checked_bits s to_bits to_signed else done (zext s.bits to_bits)

unfoldable pub to_char : ℕ → Bool → Outcome ℕ
to_char a checked =
    let bad = ltb 0x10FFFF a || (leb 0xD800 a && leb a 0xDFFF) in
    if bad && checked then stop "integer conversion out of range" else done (a % 2 ^ 32)
