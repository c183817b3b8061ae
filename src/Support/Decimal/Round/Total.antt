-- ===== src/Support/Decimal/Round/Total.antt =====
-- `decimal_to_bits` from the digits to the quotient: no step gives up, and the quotient is that of the exact
-- value, with three bits more than the precision at least.
use luce_seed.Base.{
  ℕ, zero, suc, ◌+◌, ◌-◌, ◌*◌, ◌^◌, ◌≤◌, ◌<◌, ◌≡◌, inl, inr, refl, sym, ap, ◌∙◌, arith, Bool, not,
  ◌||◌, Bool-cases, List, [], ◌∷◌, length, ◌==◌, leb, Option, some,
}
use luce_seed.Base.Int.{ℤ, pos, ◌-ℤ◌, pos_part, neg_part}
use luce_seed.Support.Decimal.Big.Length.{
  HasBits, HasBits-positive, HasBits-unique, bit_length-HasBits, pow_le, shifted-HasBits,
}
use luce_seed.Support.Decimal.Big.Value.{IsBig, longer_lem, number, split_power}
use luce_seed.Support.Decimal.Big.{Limbs, bit_length, is_zero, shift_left}
use luce_seed.Support.Decimal.Round.{Format, convert, divide, ratio, round_bits, scale_of, scaled}
use luce_seed.Support.Decimal.Round.Division.{divide-exact}
use luce_seed.Support.Decimal.Round.Given.{
  AreDigits, digits_value, power_le, ratio-IsGiven, shift_left-IsGiven,
}
use mathlib.Core.Path.{subst}
use native.Mathlib.Nat.{mul-le-mul_right, mul-le-mul_left, mul-lt-mul_of_pos_right, one-le-pow}

scale_parts : (k n : ℕ) → (pos_part (pos k -ℤ pos n) ≡ k - n) × (neg_part (pos k -ℤ pos n) ≡ n - k)
unfolding ◌-ℤ◌
scale_parts k n = ground arith

bits_le : (n b m : ℕ) → HasBits n b → n < 2 ^ m → b ≤ m
bits_le n zero m h below = elim h [ ]
bits_le n (suc b) m h below = elim (Bool-cases (leb (suc b) m)) [
  | inl le ↦ ground (arith, le)
  | inr gt ↦ absurd (omega (arith, pow_le m b (ground (arith, gt)), h.0, below))
]

-- A power of ten that both integers are below, in bits.
ten_bits : 10 ^ 1200 < 2 ^ 3987
ten_bits = omega arith

-- The length of a number that is moved up.
length-shifted :
    (xs r : Limbs) (bits : ℕ)
    → IsBig xs
    → 0 < number xs
    → IsBig r
    → number r ≡ number xs * 2 ^ bits
    → HasBits (number r) (bit_length r) × (bit_length r ≡ bit_length xs + bits)
length-shifted xs r bits big p r_big value =
    let moved = shifted-HasBits (number xs) (bit_length xs) bits (bit_length-HasBits xs big p) in
    let has : HasBits (number r) (bit_length xs + bits) = rw value moved in
    let own =
      bit_length-HasBits r r_big (HasBits-positive (number r) (bit_length xs + bits) has).1 in
    (own, HasBits-unique (number r) (bit_length r) (bit_length xs + bits) own has)

-- The scaled integers, whose lengths differ by `precision + 3`.
abbrev IsScaled : Format → Limbs → Limbs → Type 0
IsScaled f num den =
    let scale = scale_of f num den in
    (n : Limbs) × (d : Limbs) × (scaled scale num den ≡ some (n, d))
    × (IsBig n × (number n ≡ number num * 2 ^ pos_part scale))
    × (IsBig d × (number d ≡ number den * 2 ^ neg_part scale))
    × (HasBits (number n) (bit_length n) × HasBits (number d) (bit_length d))
    × (bit_length n ≡ bit_length d + f.precision + 3)
    × (bit_length d ≤ 4000)

by_parts :
    (scale : ℤ) (u v : ℕ) (num den n d : Limbs)
    → pos_part scale ≡ u
    → neg_part scale ≡ v
    → shift_left num u ≡ some n
    → shift_left den v ≡ some d
    → scaled scale num den ≡ some (n, d)
unfolding scaled
by_parts scale u v num den n d above beneath is_n is_d =
    rw (above, beneath, is_n, is_d, scaled) refl

scaled_lem :
    (f : Format) (num den : Limbs)
    → f.precision ≤ 60
    → IsBig num
    → IsBig den
    → 0 < number num
    → 0 < number den
    → number num ≤ 10 ^ 1200
    → number den ≤ 10 ^ 1200
    → IsScaled f num den
unfolding scale_of
scaled_lem f num den fp num_big den_big num_pos den_pos num_le den_le =
    let nb = bit_length num in
    let k = bit_length den + f.precision + 3 in
    let num_bits = bit_length-HasBits num num_big num_pos in
    let den_bits = bit_length-HasBits den den_big den_pos in
    let nb_le = bits_le (number num) nb 3987 num_bits (omega (arith, num_le, ten_bits)) in
    let db_le =
      bits_le (number den) (bit_length den) 3987 den_bits (omega (arith, den_le, ten_bits)) in
    let (up, down) = scale_parts k nb in
    let (n, is_n, n_big, n_value) =
      shift_left-IsGiven num (k - nb) num_big (omega (arith, nb_le, db_le, fp)) in
    let (d, is_d, d_big, d_value) =
      shift_left-IsGiven den (nb - k) den_big (omega (arith, nb_le, db_le, fp)) in
    let (n_bits, n_length) = length-shifted num n (k - nb) num_big num_pos n_big n_value in
    let (d_bits, d_length) = length-shifted den d (nb - k) den_big den_pos d_big d_value in
    let above : pos_part (scale_of f num den) ≡ k - nb = up in
    let beneath : neg_part (scale_of f num den) ≡ nb - k = down in
    (
      n,
      d,
      by_parts (scale_of f num den) (k - nb) (nb - k) num den n d above beneath is_n is_d,
      (n_big, n_value ∙ ap (λ (m : ℕ). number num * 2 ^ m) (sym above)),
      (d_big, d_value ∙ ap (λ (m : ℕ). number den * 2 ^ m) (sym beneath)),
      (n_bits, d_bits),
      omega (arith, n_length, d_length),
      omega (arith, d_length, nb_le, db_le),
    )

-- The quotient that the division gives has three bits more than the precision at least.
quotient_low :
    (n d q rest b p : ℕ)
    → n ≡ q * d + rest
    → rest < d
    → HasBits n (b + p + 3)
    → HasBits d b
    → 2 ^ (p + 2) ≤ q
quotient_low n d q rest zero p whole less hn hd = elim hd [ ]
quotient_low n d q rest (suc b) p whole less hn hd = elim (Bool-cases (leb (2 ^ (p + 2)) q)) [
  | inl le ↦ ground (arith, le)
  | inr gt ↦
      let next : (q + 1) * d ≡ q * d + d = grind arith in
      let below = mul-le-mul_right {m = q + 1} {n = 2 ^ (p + 2)} d (ground (arith, gt)) in
      let grown =
        mul-lt-mul_of_pos_right {m = d} {n = 2 ^ suc b} {k = 2 ^ (p + 2)} hd.1
          (one-le-pow (p + 2) 2 (omega arith)) in
      let e : suc b + p + 3 ≡ suc (suc b + (p + 2)) = omega arith in
      let low : HasBits n (suc (suc b + (p + 2))) = subst (HasBits n) e hn in
      let swap : 2 ^ (p + 2) * d ≡ d * 2 ^ (p + 2) = grind arith in
      absurd
        (omega (arith, low.0, split_power (p + 2) (suc b), grown, swap, below, next, whole, less))
]

-- The steps of `convert` one by one.
convert_lem :
    (f : Format) (digits : List ℕ) (exponent : ℤ) (sticky : Bool) (num den n d aligned : Limbs)
    (top : ℕ)
    → ratio digits exponent ≡ some (num, den)
    → scaled (scale_of f num den) num den ≡ some (n, d)
    → bit_length n - bit_length d ≡ top
    → shift_left d top ≡ some aligned
    → let r = divide (top + 1) 0 n aligned in
      convert f digits exponent sticky
      ≡ some (round_bits f r.0 (sticky || not (is_zero r.1)) (scale_of f num den))
unfolding convert
convert_lem f digits exponent sticky num den n d aligned top is_ratio is_scaled is_top is_aligned =
    rw (is_ratio, is_scaled, is_top, is_aligned, convert) refl

is_zero-number : (xs : Limbs) → IsBig xs → is_zero xs ≡ (number xs == 0)
unfolding is_zero
is_zero-number [] big = refl
is_zero-number (x ∷ xs) big =
    let some_left : 0 < number (x ∷ xs) = longer_lem [] (x ∷ xs) tt big.0 big.1 (omega arith) in
    ground (arith, some_left)

numerator_below : (n d b p : ℕ) → HasBits n (b + p + 3) → HasBits d b → n < d * 2 ^ (p + 3 + 1)
numerator_below n d zero p hn hd = elim hd [ ]
numerator_below n d (suc b) p hn hd =
    let e : suc b + p + 3 ≡ suc (p + 3 + b) = omega arith in
    let high : HasBits n (suc (p + 3 + b)) = subst (HasBits n) e hn in
    let same : suc (p + 3 + b) ≡ (p + 3 + 1) + b = omega arith in
    let split : 2 ^ suc (p + 3 + b) ≡ 2 ^ (p + 3 + 1) * 2 ^ b =
      ap (λ (m : ℕ). 2 ^ m) same ∙ split_power b (p + 3 + 1) in
    let grown = mul-le-mul_right {m = 2 ^ b} {n = d} (2 ^ (p + 3 + 1)) hd.0 in
    let swap : 2 ^ (p + 3 + 1) * 2 ^ b ≡ 2 ^ b * 2 ^ (p + 3 + 1) = grind arith in
    omega (arith, high.1, split, swap, grown)

quotient_high : (n d q rest p : ℕ) → n ≡ q * d + rest → n < d * 2 ^ (p + 3 + 1) → q < 2 ^ (p + 4)
quotient_high n d q rest p whole below = elim (Bool-cases (leb (2 ^ (p + 4)) q)) [
  | inl le ↦
      let over = mul-le-mul_right {m = 2 ^ (p + 4)} {n = q} d (ground (arith, le)) in
      let four : p + 4 ≡ p + 3 + 1 = omega arith in
      let turn : 2 ^ (p + 4) * d ≡ d * 2 ^ (p + 3 + 1) = rw four (grind arith) in
      absurd (omega (arith, over, turn, below, whole))
  | inr gt ↦ ground (arith, gt)
]

-- The division of the scaled integers.
divided :
    (n d : Limbs) (p : ℕ)
    → p ≤ 60
    → IsBig n
    → IsBig d
    → HasBits (number n) (bit_length d + p + 3)
    → HasBits (number d) (bit_length d)
    → bit_length d ≤ 4000
    → (aligned : Limbs) × (shift_left d (p + 3) ≡ some aligned)
      × (let r = divide (p + 3 + 1) 0 n aligned in
          IsBig r.1
          × (number n ≡ r.0 * number d + number r.1)
          × (number r.1 < number d)
          × (2 ^ (p + 2) ≤ r.0)
          × (r.0 < 2 ^ (p + 4)))
divided n d p fp n_big d_big n_bits d_bits d_le =
    let (aligned, is_aligned, a_big, a_value) =
      shift_left-IsGiven d (p + 3) d_big (omega (arith, fp, d_le)) in
    let below = numerator_below (number n) (number d) (bit_length d) p n_bits d_bits in
    let (rest_big, whole, less) =
      divide-exact (p + 3) (number d) n aligned n_big a_big a_value below (omega (arith, fp)) in
    (
      aligned,
      is_aligned,
      (
        rest_big,
        whole,
        less,
        quotient_low _ _ _ _ (bit_length d) p whole less n_bits d_bits,
        quotient_high _ _ _ _ p whole below,
      ),
    )

-- The rounding is applied to the quotient of the exact value, moved by a power of two, with what is left over as
-- the sticky bit.
abbrev pub IsQuotient : Format → ℕ → ℤ → Bool → Option ℕ → Type 0
IsQuotient f value exponent sticky o =
    (scale : ℤ) × (q : ℕ) × (d : ℕ) × (rest : ℕ) × (o
      ≡ some (round_bits f q (sticky || not (rest == 0)) scale))
    × (value * 10 ^ pos_part exponent * 2 ^ pos_part scale ≡ q * d + rest)
    × (d ≡ 10 ^ neg_part exponent * 2 ^ neg_part scale)
    × (rest < d)
    × (2 ^ (f.precision + 2) ≤ q)
    × (q < 2 ^ (f.precision + 4))

-- For digits that are not all zero, of which with a positive exponent there are at most 1200 in all, and an
-- exponent of -1200 at least, `convert` gives up nowhere: it rounds the exact quotient of the digits' value and
-- the power of ten, moved by a power of two, with the precision and 3 or 4 more bits, where the rest counts as sticky.
pub convert-IsQuotient :
    (f : Format) (digits : List ℕ) (exponent : ℤ) (sticky : Bool)
    → f.precision ≤ 60
    → AreDigits digits
    → 0 < digits_value digits
    → length digits + pos_part exponent ≤ 1200
    → neg_part exponent ≤ 1200
    → IsQuotient f (digits_value digits) exponent sticky (convert f digits exponent sticky)
convert-IsQuotient f digits exponent sticky fp are some_digit room low =
    let (num, den, is_ratio, (num_big, num_value), (den_big, den_value), num_lt) =
      ratio-IsGiven digits exponent are room low in
    let ten = one-le-pow (pos_part exponent) 10 (omega arith) in
    let grown = mul-le-mul_left {m = 1} {n = 10 ^ pos_part exponent} (digits_value digits) ten in
    let (n, d, is_scaled, (n_big, n_value), (d_big, d_value), (n_bits, d_bits), diff, d_le) =
      scaled_lem f num den fp num_big den_big (omega (arith, num_value, grown, some_digit))
        (rw den_value (one-le-pow (neg_part exponent) 10 (omega arith))) (omega (arith, num_lt))
        (rw den_value (power_le (neg_part exponent) 1200 low)) in
    let (aligned, is_aligned, (rest_big, whole, less, low_bits, high_bits)) =
      divided n d f.precision fp n_big d_big (subst (HasBits (number n)) diff n_bits) d_bits d_le in
    let steps =
      convert_lem f digits exponent sticky num den n d aligned (f.precision + 3) is_ratio is_scaled
        (omega (arith, diff)) is_aligned in
    let r = divide (f.precision + 3 + 1) 0 n aligned in
    let scale = scale_of f num den in
    (
      scale,
      r.0,
      number d,
      number r.1,
      steps
          ∙ ap (λ (z : Bool). some (round_bits f r.0 (sticky || not z) scale))
              (is_zero-number r.1 rest_big),
      ap (λ (m : ℕ). m * 2 ^ pos_part scale) (sym num_value) ∙ sym n_value ∙ whole,
      d_value ∙ ap (λ (m : ℕ). m * 2 ^ neg_part scale) den_value,
      less,
      low_bits,
      high_bits,
    )
