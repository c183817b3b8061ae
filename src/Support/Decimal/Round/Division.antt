-- ===== src/Support/Decimal/Round/Division.antt =====
-- The restoring division of `decimal_to_bits`, on the numbers.
use luce_seed.Base.{ℕ, zero, suc, ◌+◌, ◌*◌, ◌^◌, ◌≤◌, ◌<◌, ◌≡◌, inl, inr, arith}
use luce_seed.Base.Words.{u64}
use luce_seed.Support.Decimal.Big.Exact.{shift_right_one-IsHalf, subtract-IsDifference}
use luce_seed.Support.Decimal.Big.Value.{IsBig, at_least-exact, number}
use luce_seed.Support.Decimal.Big.{Limbs, shift_right_one, subtract}
use luce_seed.Support.Decimal.Round.{divide}
use mathlib.Core.Path.{subst}
use native.Mathlib.Nat.{mul-le-mul_left, mul-le-mul_right, pow-le-pow_right, pow-suc}

-- Where the denominator stands with so many steps left; behind the last step it counts no more.
abbrev IsMoved : ℕ → ℕ → Limbs → Type 0
IsMoved unit zero den = Unit
IsMoved unit (suc j) den = number den ≡ unit * 2 ^ j

halved-IsMoved :
    (unit j : ℕ) (den : Limbs)
    → IsBig den
    → number den ≡ unit * 2 ^ j
    → IsMoved unit j (shift_right_one den)
halved-IsMoved unit zero den b h = tt
halved-IsMoved unit (suc j) den b h =
    let (is_big, half) = shift_right_one-IsHalf den b in
    let doubled : unit * 2 ^ suc j ≡ 2 * (unit * 2 ^ j) = grind (arith, pow-suc 2 j) in
    omega (arith, half, h, doubled)

-- What a step leaves of the numerator is below the denominator's next place, and no bit of the quotient is lost.
next_step :
    (j quotient unit n d : ℕ)
    → d ≡ unit * 2 ^ j
    → (quotient + 1) * 2 ^ suc j ≤ 2 ^ 64
    → (unit * 2 ^ suc j ≡ 2 * d)
      × (quotient * (unit * 2 ^ suc j) ≡ quotient * 2 * (unit * 2 ^ j))
      × ((quotient * 2 + 1) * (unit * 2 ^ j) ≡ quotient * 2 * (unit * 2 ^ j) + d)
      × ((quotient * 2 + 1 + 1) * 2 ^ j ≤ 2 ^ 64)
      × (u64 (quotient * 2) ≡ quotient * 2)
unfolding u64
next_step j quotient unit n d moved room =
    let power = pow-suc 2 j in
    let grown =
      mul-le-mul_left {m = 1} {n = 2 ^ j} (quotient * 2 + 1 + 1)
        (pow-le-pow_right {n = 2} (omega arith) {i = 0} {j = j} (omega arith)) in
    let same : (quotient * 2 + 1 + 1) * 2 ^ j ≡ (quotient + 1) * 2 ^ suc j =
      rw power (grind arith) in
    (
      grind (arith, power, moved),
      rw power (grind arith),
      grind (arith, moved),
      omega (arith, same, room),
      omega (arith, same, room, grown),
    )

next_room_lem :
    (j quotient : ℕ) → (quotient * 2 + 1 + 1) * 2 ^ j ≤ 2 ^ 64 → (quotient * 2 + 1) * 2 ^ j ≤ 2 ^ 64
next_room_lem j quotient room =
    let more =
      mul-le-mul_right {m = quotient * 2 + 1} {n = quotient * 2 + 1 + 1} (2 ^ j) (omega arith) in
    omega (arith, more, room)

pub divide_lem :
    (steps quotient unit : ℕ) (num den : Limbs)
    → IsBig num
    → IsBig den
    → IsMoved unit steps den
    → number num < unit * 2 ^ steps
    → (quotient + 1) * 2 ^ steps ≤ 2 ^ 64
    → let r = divide steps quotient num den in
      IsBig r.1
      × (number num + quotient * (unit * 2 ^ steps) ≡ r.0 * unit + number r.1)
      × (number r.1 < unit)
unfolding divide u64
divide_lem zero quotient unit num den a b moved below room = (a, grind arith, omega (arith, below))
divide_lem (suc j) quotient unit num den a b moved below room =
    let (twice, before, after, next_room, exact) =
      next_step j quotient unit (number num) (number den) moved room in
    elim (at_least-exact num den a b) [
      | inl (fits, enough) ↦
          let (is_big, value) = subtract-IsDifference num den a b enough in
          let (left_big, whole, less) =
            divide_lem j (quotient * 2 + 1) unit (subtract num den) (shift_right_one den) is_big
              (shift_right_one-IsHalf den b).0 (halved-IsMoved unit j den b moved)
              (omega (arith, value, below, twice, moved)) next_room in
          rw (exact, fits, divide) (left_big, omega (arith, whole, value, before, after), less)
      | inr (short, below_den) ↦
          let (left_big, whole, less) =
            divide_lem j (quotient * 2) unit num (shift_right_one den) a
              (shift_right_one-IsHalf den b).0 (halved-IsMoved unit j den b moved)
              (omega (arith, below_den, moved)) (next_room_lem j quotient next_room) in
          rw (exact, short, divide) (left_big, omega (arith, whole, before), less)
    ]

-- The restoring division is exact: from a denominator that is moved up by `top` places and a numerator below its
-- next place, `top + 1` steps give a quotient and a remainder less than the denominator that make up the
-- numerator, where the quotient fits in 64 bits.
pub divide-exact :
    (top unit : ℕ) (num den : Limbs)
    → IsBig num
    → IsBig den
    → number den ≡ unit * 2 ^ top
    → number num < unit * 2 ^ (top + 1)
    → top < 64
    → let (quotient, rest) = divide (top + 1) 0 num den in
      IsBig rest × (number num ≡ quotient * unit + number rest) × (number rest < unit)
divide-exact top unit num den a b moved below fits =
    let e : top + 1 ≡ suc top = omega arith in
    let le = pow-le-pow_right {n = 2} (omega arith) {i = suc top} {j = 64} (omega arith) in
    rw e (
      let (is_big, whole, less) =
        divide_lem (suc top) 0 unit num den a b moved
          (subst (λ (n : ℕ). number num < unit * 2 ^ n) e below) (omega (arith, le)) in
      (is_big, omega (arith, whole), less))
