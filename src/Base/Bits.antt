-- ===== src/Base/Bits.antt =====
-- `&` with a mask and `|` of disjoint fields, as arithmetic.
use Prim.Native.Nat.{
  bit_and, bit_or, bit_xor, bitwise, differ, digits, bit_and-bitwise, bit_or-bitwise,
  bit_xor-bitwise, min, max,
}
use luce_seed.Base.{
  ℕ, zero, suc, ◌+◌, ◌*◌, ◌/◌, ◌%◌, ◌≤◌, ◌<◌, Bool, true, ◌&&◌, not, ◌≡◌, refl, sym, ap, ◌∙◌, arith,
  ◌^◌, ◌==◌, ==_iff, if◌then◌else◌,
}
use native.Mathlib.Nat.{
  add-mul-mod_self_right, div-add-mod', le_refl, mod-eq_of_lt, mod-lt, mod-one, one-le-pow,
  two-pow-succ,
}

-- A test that holds at every number below the bound, by evaluation.
unfoldable pub all_below : ℕ → (ℕ → Bool) → Bool
all_below zero p = true
all_below (suc n) p = p n && all_below n p

pub at_below : (n : ℕ) (p : ℕ → Bool) (x : ℕ) → all_below n p ≡ true → x < n → p x ≡ true
unfolding all_below
at_below zero p x h lt = absurd (omega arith)
at_below (suc n) p x h lt = ground (arith, at_below n p x)

-- Two tests, or two numbers, that agree at every byte.
pub same_test :
    (p q : ℕ → Bool) (x : ℕ)
    → all_below 256 (λ x. if p x then q x else not (q x)) ≡ true
    → x < 256
    → p x ≡ q x
same_test p q x h lt = ground (arith, at_below 256 (λ x. if p x then q x else not (q x)) x h lt)

pub same_number :
    (p q : ℕ → ℕ) (x : ℕ) → all_below 256 (λ x. p x == q x) ≡ true → x < 256 → p x ≡ q x
same_number p q x h lt = (==_iff _ _).0 (at_below 256 (λ x. p x == q x) x h lt)

-- A digit recursion with more fuel than it needs gives the same number.
module _ (z : ℕ → ℕ) (f : ℕ → ℕ → ℕ) where
  digits-fuel : (n m a b : ℕ) → a ≤ n → a ≤ m → digits z f n a b ≡ digits z f m a b
  digits-fuel zero zero a b p q = refl
  digits-fuel zero (suc m) zero b p q = refl
  digits-fuel zero (suc m) (suc a) b p q = absurd (omega arith)
  digits-fuel (suc n) zero zero b p q = refl
  digits-fuel (suc n) zero (suc a) b p q = absurd (omega arith)
  digits-fuel (suc n) (suc m) zero b p q = refl
  digits-fuel (suc n) (suc m) (suc a) b p q =
      rw (digits-fuel n m (suc a / 2) (b / 2) (omega arith) (omega arith))

  lowest_digit :
      (a b : ℕ)
      → bitwise z f (suc a) b ≡ bitwise z f (suc a / 2) (b / 2) * 2 + f (suc a % 2) (b % 2)
  lowest_digit a b =
      omega (arith, digits-fuel a (suc a / 2) (suc a / 2) (b / 2) (omega arith) (le_refl _))

pub bit_or_digit : (a b : ℕ) → bit_or a b ≡ bit_or (a / 2) (b / 2) * 2 + max (a % 2) (b % 2)
bit_or_digit zero b = simp bit_or-bitwise (omega arith)
bit_or_digit (suc a) b = simp bit_or-bitwise (lowest_digit (λ y. y) max a b)

pub bit_and_digit : (a b : ℕ) → bit_and a b ≡ bit_and (a / 2) (b / 2) * 2 + min (a % 2) (b % 2)
bit_and_digit zero b = simp bit_and-bitwise (omega arith)
bit_and_digit (suc a) b = simp bit_and-bitwise (lowest_digit (λ y. 0) min a b)

pub bit_xor_digit : (a b : ℕ) → bit_xor a b ≡ bit_xor (a / 2) (b / 2) * 2 + differ (a % 2) (b % 2)
bit_xor_digit zero b = simp bit_xor-bitwise (ground arith)
bit_xor_digit (suc a) b = simp bit_xor-bitwise (lowest_digit (λ y. y) differ a b)

-- Both by induction on a bound of the number.
bit_or-zero_below : (n a : ℕ) → a ≤ n → bit_or a 0 ≡ a
bit_or-zero_below n zero h = refl
bit_or-zero_below zero (suc a) h = absurd (omega arith)
bit_or-zero_below (suc n) (suc a) h =
    omega (arith, bit_or_digit (suc a) 0, bit_or-zero_below n (suc a / 2) (omega arith))

bit_and-zero_below : (n a : ℕ) → a ≤ n → bit_and a 0 ≡ 0
bit_and-zero_below n zero h = refl
bit_and-zero_below zero (suc a) h = absurd (omega arith)
bit_and-zero_below (suc n) (suc a) h =
    omega (arith, bit_and_digit (suc a) 0, bit_and-zero_below n (suc a / 2) (omega arith))

pub bit_and-zero_right : (a : ℕ) → bit_and a 0 ≡ 0
bit_and-zero_right a = bit_and-zero_below a a (le_refl _)

bit_or_double : (v r : ℕ) → bit_or (v * 2) r ≡ bit_or v (r / 2) * 2 + r % 2
bit_or_double v r = omega (arith, bit_or_digit (v * 2) r, ap_half v)
  where
    ap_half : (v : ℕ) → bit_or (v * 2 / 2) (r / 2) ≡ bit_or v (r / 2)
    ap_half v = let e : v * 2 / 2 ≡ v = omega arith in rw e

bit_or-of_zero : (v q : ℕ) → q ≡ 0 → bit_or v q ≡ v
bit_or-of_zero v q h = rw h (bit_or-zero_below v v (le_refl _))

-- `(v << 6) | r`
pub bit_or_shift6 : (v r : ℕ) → r < 64 → bit_or (v * 64) r ≡ v * 64 + r
bit_or_shift6 v r h =
    let e : v * 64 ≡ v * 2 * 2 * 2 * 2 * 2 * 2 = omega arith in
    rw e (
      omega (
        arith,
        bit_or_double (v * 2 * 2 * 2 * 2 * 2) r,
        bit_or_double (v * 2 * 2 * 2 * 2) (r / 2),
        bit_or_double (v * 2 * 2 * 2) (r / 2 / 2),
        bit_or_double (v * 2 * 2) (r / 2 / 2 / 2),
        bit_or_double (v * 2) (r / 2 / 2 / 2 / 2),
        bit_or_double v (r / 2 / 2 / 2 / 2 / 2),
        bit_or-of_zero v (r / 2 / 2 / 2 / 2 / 2 / 2) (omega arith),
      ))

-- `a & 0x3F`
pub bit_and_63 : (a : ℕ) → bit_and a 63 ≡ a % 64
bit_and_63 a = omega (
  arith,
  bit_and_digit a 63,
  bit_and_digit (a / 2) 31,
  bit_and_digit (a / 2 / 2) 15,
  bit_and_digit (a / 2 / 2 / 2) 7,
  bit_and_digit (a / 2 / 2 / 2 / 2) 3,
  bit_and_digit (a / 2 / 2 / 2 / 2 / 2) 1,
  bit_and-zero_below (a / 2 / 2 / 2 / 2 / 2 / 2) (a / 2 / 2 / 2 / 2 / 2 / 2) (le_refl _),
)

-- A digit below, and the rest behind it.
pub mod-double : (n p : ℕ) → 0 < p → n % (p + p) ≡ n / 2 % p * 2 + n % 2
mod-double n p h =
    let r = n / 2 % p * 2 + n % 2 in
    let q = n / 2 / p in
    let below = mod-lt (n / 2) h in
    let split : r + q * (p + p) ≡ n = grind (arith, div-add-mod' (n / 2) p) in
    (sym (ap (λ k. k % (p + p)) split))
    ∙ add-mul-mod_self_right r q (p + p)
    ∙ mod-eq_of_lt (omega (arith, below))

-- An operator that works digit by digit gives the low digits from the low digits.
module _ (op g : ℕ → ℕ → ℕ)
    (digit : (a b : ℕ) → op a b ≡ op (a / 2) (b / 2) * 2 + g (a % 2) (b % 2))
    (small : (a b : ℕ) → a < 2 → b < 2 → g a b < 2) (none : op 0 0 ≡ 0) where
  pub digitwise_low : (k x y : ℕ) → op (x % 2 ^ k) (y % 2 ^ k) ≡ op x y % 2 ^ k
  digitwise_low zero x y = rw (mod-one x, mod-one y, mod-one (op x y)) none
  digitwise_low (suc k) x y =
      let positive = one-le-pow k 2 (omega arith) in
      let below = small (x % 2) (y % 2) (omega arith) (omega arith) in
      let inner = digitwise_low k (x / 2) (y / 2) in
      let cut : (n : ℕ) → (n % 2 ^ suc k ≡ n / 2 % 2 ^ k * 2 + n % 2) =
        λ n. rw (two-pow-succ k) (mod-double n (2 ^ k) positive) in
      let upper : (n : ℕ) → (n % 2 ^ suc k / 2 ≡ n / 2 % 2 ^ k) = λ n. omega (arith, cut n) in
      let lower : (n : ℕ) → (n % 2 ^ suc k % 2 ≡ n % 2) = λ n. omega (arith, cut n) in
      let whole = digit x y in
      let quotient : op x y / 2 ≡ op (x / 2) (y / 2) = omega (arith, whole, below) in
      let result = rw quotient at (cut (op x y)) in
      digit (x % 2 ^ suc k) (y % 2 ^ suc k)
      ∙ rw (upper x, upper y, lower x, lower y, inner) (omega (arith, whole, below, result))
