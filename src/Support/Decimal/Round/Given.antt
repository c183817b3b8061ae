-- ===== src/Support/Decimal/Round/Given.antt =====
-- The two integers of `decimal_to_bits` have room in their limbs.
use luce_seed.Base.{
  ℕ, zero, suc, ◌+◌, ◌*◌, ◌^◌, ◌≤◌, ◌<◌, ◌≡◌, refl, sym, ap, ◌∙◌, arith, List, [], ◌∷◌, length,
  Option, none, some,
}
use luce_seed.Base.Int.{ℤ, pos_part, neg_part}
use luce_seed.Support.Decimal.Big.Exact.{
  IsProduct, IsShifted, capacity, mul_add-IsProduct, shift_left-IsShifted,
}
use luce_seed.Support.Decimal.Big.Length.{length_le}
use luce_seed.Support.Decimal.Big.Value.{IsBig, number}
use luce_seed.Support.Decimal.Big.{Limbs, bit_length, k_limbs, limbs_of, mul_add, set, shift_left}
use luce_seed.Support.Decimal.Round.{numerator, ratio, times_ten}
use luce_seed.Base.Words.{u32}
use native.Mathlib.Nat.{
  mul-le-mul_left, mul-lt-mul_of_pos_right, one-le-pow, pow-le-pow_right, pow-suc,
}

-- The call succeeds, with the limbs of the number.
abbrev pub IsGiven : Option Limbs → ℕ → Type 0
IsGiven o n = (limbs : Limbs) × (o ≡ some limbs) × IsBig limbs × (number limbs ≡ n)

-- The decimal digits that are kept, the last one first, and their number.
abbrev pub AreDigits : List ℕ → Type 0
AreDigits [] = Unit
AreDigits (x ∷ xs) = (x ≤ 9) × AreDigits xs

abbrev pub digits_value : List ℕ → ℕ
digits_value [] = 0
digits_value (x ∷ xs) = digits_value xs * 10 + x

fitting : (n : ℕ) (o : Option Limbs) → IsProduct n o → n < capacity k_limbs → IsGiven o n
fitting n none h below = absurd (omega (arith, h, below))
fitting n (some limbs) (big, value) below = (limbs, refl, big, value)

widest : 10 ^ 1200 < capacity k_limbs
widest = omega arith

times_ten-IsGiven :
    (n : ℕ) (xs : Limbs)
    → IsBig xs
    → number xs * 10 ^ n ≤ 10 ^ 1200
    → IsGiven (times_ten n xs) (number xs * 10 ^ n)
unfolding times_ten
times_ten-IsGiven zero xs big h = (xs, refl, big, omega arith)
times_ten-IsGiven (suc n) xs big h =
    let more =
      mul-le-mul_left {m = 1} {n = 10 ^ n} (number xs * 10) (one-le-pow n 10 (omega arith)) in
    let whole : number xs * 10 * 10 ^ n ≡ number xs * 10 ^ suc n =
      rw (pow-suc 10 n) (grind arith) in
    let (ten, is_ten, ten_big, value) =
      fitting (number xs * 10 + 0) (mul_add xs 10 0)
        (mul_add-IsProduct xs 10 0 big (omega arith) (omega arith) (omega arith))
        (omega (arith, more, whole, h, widest)) in
    let exact : number ten * 10 ^ n ≡ number xs * 10 ^ suc n = rw value (grind (arith, whole)) in
    let (r, is_r, r_big, r_value) = times_ten-IsGiven n ten ten_big (rw exact h) in
    rw is_ten (r, is_r, r_big, r_value ∙ exact)

digits_value_lt : (xs : List ℕ) → AreDigits xs → digits_value xs < 10 ^ length xs
digits_value_lt [] h = omega arith
digits_value_lt (x ∷ xs) h = omega (arith, digits_value_lt xs h.1, h.0, pow-suc 10 (length xs))

numerator-IsGiven :
    (xs : List ℕ)
    → AreDigits xs
    → 10 ^ length xs ≤ 10 ^ 1200
    → IsGiven (numerator xs) (digits_value xs)
unfolding numerator
numerator-IsGiven [] h fits = unfold set limbs_of in ([], refl, (tt, tt), refl)
numerator-IsGiven (x ∷ xs) h fits =
    let fewer : 10 ^ length xs ≤ 10 ^ 1200 = omega (arith, pow-suc 10 (length xs), fits) in
    let (num, is_num, big, value) = numerator-IsGiven xs h.1 fewer in
    let small = digits_value_lt (x ∷ xs) h in
    let (r, is_r, r_big, r_value) =
      fitting (number num * 10 + x) (mul_add num 10 x)
        (mul_add-IsProduct num 10 x big (omega arith) (omega arith) (omega (arith, h.0)))
        (omega (arith, value, small, fits, widest)) in
    rw is_num (r, is_r, r_big, r_value ∙ ap (λ (m : ℕ). m * 10 + x) value)

pub power_le : (m n : ℕ) → m ≤ n → 10 ^ m ≤ 10 ^ n
power_le m n h = pow-le-pow_right {n = 10} (omega arith) {i = m} {j = n} h

ten_power : (m n : ℕ) → 10 ^ m * 10 ^ n ≡ 10 ^ (m + n)
ten_power m zero = let e : m + 0 ≡ m = omega arith in rw e (omega arith)
ten_power m (suc n) =
    let e : m + suc n ≡ suc (m + n) = omega arith in
    rw (e, pow-suc 10 (m + n), pow-suc 10 n, sym (ten_power m n)) (grind arith)

-- Both integers of the ratio.
pub ratio-IsGiven :
    (digits : List ℕ) (exponent : ℤ)
    → AreDigits digits
    → length digits + pos_part exponent ≤ 1200
    → neg_part exponent ≤ 1200
    → (num : Limbs) × (den : Limbs) × (ratio digits exponent ≡ some (num, den))
      × (IsBig num × (number num ≡ digits_value digits * 10 ^ pos_part exponent))
      × (IsBig den × (number den ≡ 10 ^ neg_part exponent))
      × (number num < 10 ^ 1200)
unfolding ratio
ratio-IsGiven digits exponent h room low =
    let (given, is_given, given_big, given_value) =
      numerator-IsGiven digits h (power_le (length digits) 1200 (omega (arith, room))) in
    let whole = ten_power (length digits) (pos_part exponent) in
    let below = power_le (length digits + pos_part exponent) 1200 room in
    let small =
      mul-lt-mul_of_pos_right {k = 10 ^ pos_part exponent} (digits_value_lt digits h)
        (one-le-pow (pos_part exponent) 10 (omega arith)) in
    let fits : number given * 10 ^ pos_part exponent < 10 ^ 1200 =
      rw given_value (omega (arith, whole, below, small)) in
    let (num, is_num, num_big, num_value) =
      times_ten-IsGiven (pos_part exponent) given given_big (omega (arith, fits)) in
    let one : IsBig (set 1) × (number (set 1) ≡ 1) =
      unfold set limbs_of u32 in (((omega arith, tt), λ e. omega arith), refl) in
    let unit : number (set 1) * 10 ^ neg_part exponent ≡ 10 ^ neg_part exponent =
      rw one.1 (omega arith) in
    let (den, is_den, den_big, den_value) =
      times_ten-IsGiven (neg_part exponent) (set 1) one.0
        (rw unit (power_le (neg_part exponent) 1200 low)) in
    (
      num,
      den,
      rw (is_given, is_num, is_den) refl,
      (num_big, num_value ∙ ap (λ (m : ℕ). m * 10 ^ pos_part exponent) given_value),
      (den_big, den_value ∙ unit),
      omega (arith, num_value, fits),
    )

-- Moving a number up to at most 6000 bits.
pub shift_left-IsGiven :
    (xs : Limbs) (bits : ℕ)
    → IsBig xs
    → bit_length xs + bits ≤ 6000
    → IsGiven (shift_left xs bits) (number xs * 2 ^ bits)
shift_left-IsGiven xs bits big room =
    by_shift (shift_left xs bits) (shift_left-IsShifted xs bits big)
  where
    by_shift : (o : Option Limbs) → IsShifted xs bits o → IsGiven o (number xs * 2 ^ bits)
    by_shift none full = absurd (omega (arith, full, room, length_le xs big))
    by_shift (some limbs) (is_big, value) = (limbs, refl, is_big, value)
