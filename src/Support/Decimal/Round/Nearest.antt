-- ===== src/Support/Decimal/Round/Nearest.antt =====
-- The rounding of `decimal_to_bits`: which mantissa it packs.
use luce_seed.Base.{
  ℕ, suc, ◌+◌, ◌-◌, ◌*◌, ◌/◌, ◌%◌, ◌^◌, ◌≤◌, ◌<◌, ◌≡◌, ◌⊎◌, inl, inr, refl, ap, ◌∙◌, arith, Bool,
  true, false, not, if◌then◌else◌, ◌==◌,
}
use luce_seed.Base.Int.{ℤ}
use luce_seed.Support.Decimal.Round.{Format, pack, round_to, rounds_up}
use native.Mathlib.Nat.{div-add-mod', mod-lt, mul-le-mul_right, pow-suc, pow-le-pow_right}

-- m * unit is the multiple of `unit` nearest to n, and between two of them the one of an even m.
unfoldable pub IsNearest : ℕ → ℕ → ℕ → Type 0
IsNearest n unit m =
    ((2 * n < 2 * (m * unit) + unit) × (2 * (m * unit) < 2 * n + unit))
    ⊎ (((2 * n ≡ 2 * (m * unit) + unit) ⊎ (2 * (m * unit) ≡ 2 * n + unit)) × (m % 2 ≡ 0))

-- When the kept bits go up by one, on what is dropped and on whether the division left a rest.
rounds_lem :
    (k h dropped rest : ℕ) (sticky : Bool)
    → ((rest ≡ 0) × (sticky ≡ false)) ⊎ ((0 < rest) × (sticky ≡ true))
    → ((rounds_up dropped h k sticky ≡ true)
        × ((h < dropped) ⊎ ((dropped ≡ h) × ((0 < rest) ⊎ (k % 2 ≡ 1)))))
      ⊎ ((rounds_up dropped h k sticky ≡ false)
          × ((dropped < h) ⊎ ((dropped ≡ h) × (rest ≡ 0) × (k % 2 ≡ 0))))
unfolding rounds_up
rounds_lem k h dropped rest sticky exact = ground arith

-- The products of the rounding, with the multiple `low` that is kept and half a unit `half`.
parts_lem :
    (k d h dropped : ℕ)
    → let low = k * (2 * (h * d)) in
      let half = h * d in
      ((k * (2 * h) + dropped) * d ≡ low + dropped * d)
      × (2 * h * d ≡ 2 * half)
      × ((k + 1) * (2 * (h * d)) ≡ low + 2 * half)
      × ((dropped < h) → dropped * d + d ≤ half)
      × ((h < dropped) → half + d ≤ dropped * d)
      × ((dropped < 2 * h) → dropped * d + d ≤ 2 * half)
parts_lem k d h dropped = (
  grind arith,
  grind arith,
  grind arith,
  λ less.
      let m = mul-le-mul_right {m = dropped + 1} {n = h} d (omega (arith, less)) in
      grind (arith, m),
  λ less.
      let m = mul-le-mul_right {m = h + 1} {n = dropped} d (omega (arith, less)) in
      grind (arith, m),
  λ less.
      let m = mul-le-mul_right {m = dropped + 1} {n = 2 * h} d (omega (arith, less)) in
      grind (arith, m),
)

near_lem :
    (n d k h dropped rest : ℕ) (sticky : Bool)
    → n ≡ (k * (2 * h) + dropped) * d + rest
    → rest < d
    → dropped < 2 * h
    → ((rest ≡ 0) × (sticky ≡ false)) ⊎ ((0 < rest) × (sticky ≡ true))
    → IsNearest n (2 * h * d) (if rounds_up dropped h k sticky then k + 1 else k)
unfolding IsNearest
near_lem n d k h dropped rest sticky whole less small exact =
    let (value, unit, next, under, over, most) = parts_lem k d h dropped in
    elim (rounds_lem k h dropped rest sticky exact) [
      | inl (up, inl above) ↦
          rw (up, unit, next)
            (inl (
              omega (arith, whole, value, most small, less),
              omega (arith, whole, value, over above),
            ))
      | inl (up, inr (half, inl left)) ↦
          rw (up, unit, next)
            (inl (
              grind (arith, whole, value, half, most small, less),
              grind (arith, whole, value, half, left),
            ))
      | inl (up, inr (half, inr odd)) ↦
          rw (up, unit, next)
            (elim exact [
              | inl (none_left, _) ↦
                  inr (inr (grind (arith, whole, value, half, none_left)), omega (arith, odd))
              | inr (left, _) ↦ inl (
                grind (arith, whole, value, half, most small, less),
                grind (arith, whole, value, half, left),
              )
            ])
      | inr (stays, inl below) ↦
          let r : IsNearest n (2 * h * d) k = rw unit (
            inl (
              omega (arith, whole, value, under below, less),
              omega (arith, whole, value, under below, less),
            )) in
          rw stays r
      | inr (stays, inr (half, none_left, even)) ↦
          let r : IsNearest n (2 * h * d) k =
            rw unit (inr (inl (grind (arith, whole, value, half, none_left)), even)) in
          rw stays r
    ]

-- If quotient * d and a rest below d make up n, and the length is above `keep`, `round_to` packs a mantissa that
-- is the multiple of 2 ^ (len - keep) nearest to n / d, and of two that are equally near the even one.
pub round_to-IsNearest :
    (f : Format) (keep len quotient n d rest : ℕ) (exponent2 : ℤ)
    → n ≡ quotient * d + rest
    → rest < d
    → keep < len
    → (kept : ℕ) × (round_to f keep len quotient (not (rest == 0)) exponent2
        ≡ pack f kept exponent2)
      × IsNearest n (2 ^ (len - keep) * d) kept
unfolding round_to
round_to-IsNearest f keep len quotient n d rest exponent2 whole less room =
    let h = 2 ^ (len - keep - 1) in
    let e : len - keep ≡ suc (len - keep - 1) = omega arith in
    let positive : 0 < 2 * h =
      omega (
        arith,
        pow-le-pow_right {n = 2} (omega arith) {i = 0} {j = len - keep - 1} (omega arith),
      ) in
    let doubled : 2 ^ (len - keep) ≡ 2 * h =
      ap (λ (m : ℕ). 2 ^ m) e ∙ pow-suc 2 (len - keep - 1) ∙ omega arith in
    let parts = div-add-mod' quotient (2 * h) in
    (
      _,
      refl,
      rw doubled (
          near_lem n d (quotient / (2 * h)) h (quotient % (2 * h)) rest (not (rest == 0))
            (rw parts whole) less (mod-lt quotient positive) (ground arith)),
    )
