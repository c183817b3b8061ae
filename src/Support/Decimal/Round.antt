-- ===== src/Support/Decimal/Round.antt =====
-- `decimal_to_bits` of src/support/decimal.cpp behind the reading of the literal: the quotient of two exact
-- integers, rounded once.
pub mod Division
pub mod Nearest
pub mod Given
pub mod Total
pub mod Rounded
use luce_seed.Base.{
  ℕ, zero, suc, ◌+◌, ◌-◌, ◌*◌, ◌/◌, ◌%◌, ◌^◌, Bool, true, false, not, ◌&&◌, ◌||◌, List, [], ◌∷◌,
  ◌≡◌, refl, Option, none, some, Bytes, length, ltb, leb, ◌==◌, if◌then◌else◌, ◌>>=◌,
}
use luce_seed.Base.Int.{ℤ, pos, negsuc, ◌+ℤ◌, ◌-ℤ◌, neg_ℕ, ltb_ℤ, is_negative, pos_part, neg_part}
use luce_seed.Base.Words.{u64}
use luce_seed.Support.Decimal.Big.{
  Limbs, at_least, bit_length, bits_in, is_zero, mul_add, set, shift_left, shift_right_one,
  subtract,
}
use luce_seed.Support.Decimal.Read.{Digits, fold_zeros, read_decimal}

pub record Format : Type 0 where
  pub precision : ℕ
  pub min_exponent : ℤ
  pub max_exponent : ℤ
  pub exponent_bits : ℕ

abbrev format : ℕ → ℤ → ℤ → ℕ → Format
format p low high e = record {
  precision = p;
  min_exponent = low;
  max_exponent = high;
  exponent_bits = e;
}

unfoldable pub format_of : ℕ → Option Format
format_of width =
    if width == 64
    then some (format 53 (neg_ℕ 1022) (pos 1023) 11)
    else if width == 32
    then some (format 24 (neg_ℕ 126) (pos 127) 8)
    else if width == 16
    then some (format 11 (neg_ℕ 14) (pos 15) 5)
    else none

unfoldable pub infinity_bits : Format → ℕ
infinity_bits f = u64 ((2 ^ f.exponent_bits - 1) * 2 ^ (f.precision - 1))

-- The digits into the numerator; they are kept with the last one first.
unfoldable pub numerator : List ℕ → Option Limbs
numerator [] = some (set 0)
numerator (digit ∷ digits) = do num ← numerator digits; mul_add num 10 digit

-- `for (k = 0; k < n; k++) num.mul_add(10, 0)`
unfoldable pub times_ten : ℕ → Limbs → Option Limbs
times_ten zero num = some num
times_ten (suc n) num = do grown ← mul_add num 10 0; times_ten n grown

-- The two integers whose quotient is the value.
unfoldable pub ratio : List ℕ → ℤ → Option (Limbs × Limbs)
ratio digits exponent = do
  given ← numerator digits
  num ← times_ten (pos_part exponent) given
  den ← times_ten (neg_part exponent) (set 1)
  some (num, den)

-- The power of two that brings the quotient to `precision` bits and 3 or 4 more.
unfoldable pub scale_of : Format → Limbs → Limbs → ℤ
scale_of f num den = pos (bit_length den + f.precision + 3) -ℤ pos (bit_length num)

unfoldable pub scaled : ℤ → Limbs → Limbs → Option (Limbs × Limbs)
scaled scale num den = do
  n ← shift_left num (pos_part scale)
  d ← shift_left den (neg_part scale)
  some (n, d)

-- The steps of the restoring division that are left, the quotient so far, and what is left of the numerator.
unfoldable pub divide : ℕ → ℕ → Limbs → Limbs → ℕ × Limbs
divide zero quotient num den = (quotient, num)
divide (suc j) quotient num den =
    let fits = at_least num den in
    divide j (if fits then u64 (quotient * 2) + 1 else u64 (quotient * 2))
      (if fits then subtract num den else num) (shift_right_one den)

-- Ties go to even.
unfoldable pub rounds_up : ℕ → ℕ → ℕ → Bool → Bool
rounds_up dropped half kept sticky =
    ltb half dropped || ((dropped == half) && (sticky || (kept % 2 == 1)))

-- The bits of the mantissa `kept`, of the weight that the leading bit's exponent gives.
unfoldable pub pack : Format → ℕ → ℤ → ℕ
pack f kept exponent =
    let hidden = 2 ^ (f.precision - 1) in
    let carried = kept == hidden * 2 in
    let mantissa = if carried then hidden else kept in
    let exponent2 = if carried then exponent +ℤ pos 1 else exponent in
    if carried && ltb_ℤ f.max_exponent exponent2
    then infinity_bits f
    else if ltb_ℤ exponent2 f.min_exponent
    then mantissa
    else pos_part (exponent2 +ℤ pos (2 ^ (f.exponent_bits - 1) - 1)) * 2 ^ (f.precision - 1)
      + (mantissa - hidden)

-- The rounding of a quotient to `keep` bits, at least one.
unfoldable pub round_to : Format → ℕ → ℕ → ℕ → Bool → ℤ → ℕ
round_to f keep len quotient sticky exponent2 =
    let shift = len - keep in
    let kept = quotient / 2 ^ shift in
    let up = rounds_up (quotient % 2 ^ shift) (2 ^ (shift - 1)) kept sticky in
    pack f (if up then kept + 1 else kept) exponent2

-- At most half the smallest subnormal: half of it is a tie, and even is zero.
unfoldable pub round_tiny : ℤ → ℕ → ℕ → Bool → ℕ
round_tiny keep len quotient sticky =
    let half = 2 ^ (len - 1) in
    if is_negative keep
    then 0
    else if ltb half quotient || ((quotient == half) && sticky)
    then 1
    else 0

-- The value is quotient * 2^-scale, and more if `sticky`.
unfoldable pub round_bits : Format → ℕ → Bool → ℤ → ℕ
round_bits f quotient sticky scale =
    let len = bits_in 65 quotient in
    let exponent2 = pos (len - 1) -ℤ scale in
    let keep =
      if ltb_ℤ exponent2 f.min_exponent
      then pos f.precision -ℤ (f.min_exponent -ℤ exponent2)
      else pos f.precision in
    if ltb_ℤ f.max_exponent exponent2
    then infinity_bits f
    else if ltb_ℤ (pos 0) keep
    then round_to f (pos_part keep) len quotient sticky exponent2
    else round_tiny keep len quotient sticky

-- From the digits, the last one first and not zero, and their exponent.
unfoldable pub convert : Format → List ℕ → ℤ → Bool → Option ℕ
convert f digits exponent sticky = do
  (num, den) ← ratio digits exponent
  let scale = scale_of f num den
  (n, d) ← scaled scale num den
  let top = bit_length n - bit_length d
  aligned ← shift_left d top
  let (quotient, rest) = divide (top + 1) 0 n aligned
  some (round_bits f quotient (sticky || not (is_zero rest)) scale)

unfoldable pub of_digits : Format → Digits → Option ℕ
of_digits f d =
    let (digits, exponent) = fold_zeros d.kept d.exponent in
    let magnitude = pos (length digits) +ℤ exponent in
    if d.count == 0
    then some 0
    else if ltb_ℤ (pos 310) magnitude
    then some (infinity_bits f)
    else if ltb_ℤ magnitude (neg_ℕ 400)
    then some 0
    else convert f digits exponent d.sticky

-- The bits of the float of that width, or `none` for false.
unfoldable pub decimal_to_bits : Bytes → ℕ → Option ℕ
decimal_to_bits text width = do f ← format_of width; d ← read_decimal text; of_digits f d
