-- ===== src/Support/Decimal/Big/Length.antt =====
-- The number of bits of a `Big`, and the room that a number of so many bits has.
use luce_seed.Base.{
  ℕ, zero, suc, ◌+◌, ◌*◌, ◌/◌, ◌^◌, ◌≤◌, ◌<◌, ◌≡◌, inl, inr, refl, sym, ap, arith, false,
  Bool-cases, [], ◌∷◌, length, ◌==◌, leb,
}
use luce_seed.Support.Decimal.Big.Value.{IsBig, longer_lem, number, split_power}
use luce_seed.Support.Decimal.Big.{Limbs, bit_length, bits_in}
use native.Mathlib.Nat.{
  mul-le-mul_right, mul-lt-mul_of_pos_right, one-le-pow, pow-le-pow_right, pow-suc,
}

-- n has just so many bits, one at least.
abbrev pub HasBits : ℕ → ℕ → Type 0
HasBits n zero = ⊥
HasBits n (suc b) = (2 ^ b ≤ n) × (n < 2 ^ suc b)

pub HasBits-positive : (n b : ℕ) → HasBits n b → (1 ≤ b) × (0 < n)
HasBits-positive n zero h = elim h [ ]
HasBits-positive n (suc b) h = (omega arith, omega (arith, h.0, one-le-pow b 2 (omega arith)))

next-HasBits : (n b : ℕ) → HasBits (n / 2) b → HasBits n (suc b)
next-HasBits n zero h = elim h [ ]
next-HasBits n (suc b) (low, high) =
    (omega (arith, pow-suc 2 b, low), omega (arith, pow-suc 2 (suc b), high))

bits_in_zero : (fuel : ℕ) → bits_in fuel 0 ≡ 0
unfolding bits_in
bits_in_zero zero = refl
bits_in_zero (suc fuel) = refl

pub bits_in-HasBits : (fuel n : ℕ) → 0 < n → n < 2 ^ fuel → HasBits n (bits_in fuel n)
unfolding bits_in
bits_in-HasBits zero n p h = absurd (omega arith)
bits_in-HasBits (suc fuel) n p h = elim (Bool-cases (n / 2 == 0)) [
  | inl one ↦
      let some_left : (n == 0) ≡ false = ground arith in
      let half : n / 2 ≡ 0 = ground (arith, one) in
      rw (some_left, half, bits_in_zero fuel, bits_in) (omega arith, ground (arith, one))
  | inr more ↦
      let some_left : (n == 0) ≡ false = ground arith in
      let rest =
        bits_in-HasBits fuel (n / 2) (ground (arith, more)) (omega (arith, pow-suc 2 fuel)) in
      rw (some_left, bits_in) (next-HasBits n (bits_in fuel (n / 2)) rest)
]

-- Behind a limb, a number has 32 bits more.
longer-HasBits : (x n b : ℕ) → x < 2 ^ 32 → HasBits n b → HasBits (x + 2 ^ 32 * n) (32 + b)
longer-HasBits x n zero h c = elim c [ ]
longer-HasBits x n (suc b) h (low, high) =
    let e : 32 + suc b ≡ suc (32 + b) = omega arith in
    let same = ap (λ (m : ℕ). 2 ^ m) e in
    rw e (omega (arith, split_power b 32, low), omega (arith, same, split_power (suc b) 32, high))

pub bit_length-HasBits :
    (xs : Limbs) → IsBig xs → 0 < number xs → HasBits (number xs) (bit_length xs)
unfolding bit_length
bit_length-HasBits [] big p = absurd (omega arith)
bit_length-HasBits (x ∷ []) big p =
    let e : x + 0 ≡ x = omega arith in
    rw e (bits_in-HasBits 33 x (omega arith) (omega (arith, big.0.0)))
bit_length-HasBits (x ∷ y ∷ ys) (are, top) p =
    longer-HasBits x (number (y ∷ ys)) (bit_length (y ∷ ys)) are.0
      (bit_length-HasBits (y ∷ ys) (are.1, top) (longer_lem [] (y ∷ ys) tt are.1 top (omega arith)))

pub pow_le : (i j : ℕ) → i ≤ j → 2 ^ i ≤ 2 ^ j
pow_le i j le = pow-le-pow_right {n = 2} (omega arith) {i = i} {j = j} le

-- No number has two lengths.
pub HasBits-unique : (n a b : ℕ) → HasBits n a → HasBits n b → a ≡ b
HasBits-unique n zero b h c = elim h [ ]
HasBits-unique n (suc a) zero h c = elim c [ ]
HasBits-unique n (suc a) (suc b) h c = elim (Bool-cases (leb (suc a) b)) [
  | inl below ↦ absurd (omega (arith, pow_le (suc a) b (ground (arith, below)), h.1, c.0))
  | inr above ↦ elim (Bool-cases (leb (suc b) a)) [
    | inl over ↦ absurd (omega (arith, pow_le (suc b) a (ground (arith, over)), c.1, h.0))
    | inr level ↦ ground (arith, above, level)
  ]
]

pub shifted-HasBits : (n b k : ℕ) → HasBits n b → HasBits (n * 2 ^ k) (b + k)
shifted-HasBits n zero k h = elim h [ ]
shifted-HasBits n (suc b) k (low, high) =
    let e : suc b + k ≡ suc (b + k) = omega arith in
    let p : 0 < 2 ^ k = one-le-pow k 2 (omega arith) in
    let lower = mul-le-mul_right {m = 2 ^ b} {n = n} (2 ^ k) low in
    let upper = mul-lt-mul_of_pos_right {m = n} {n = 2 ^ suc b} {k = 2 ^ k} high p in
    rw e (rw (split_power k b) lower, rw (sym e) (rw (split_power k (suc b)) upper))

-- The limbs of a number of so many bits.
pub length_le : (xs : Limbs) → IsBig xs → 32 * length xs < bit_length xs + 32
unfolding bit_length
length_le [] big = omega arith
length_le (x ∷ []) big =
    let some_bits =
      HasBits-positive x _ (bits_in-HasBits 33 x (omega (arith, big.1)) (omega (arith, big.0.0))) in
    omega (arith, some_bits)
length_le (x ∷ y ∷ ys) (are, top) = omega (arith, length_le (y ∷ ys) (are.1, top))
