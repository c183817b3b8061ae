-- ===== src/Support/Decimal/Big/Exact.antt =====
-- The results of `Big`, as the numbers that they stand for.
use luce_seed.Base.{
  ℕ, zero, suc, ◌+◌, ◌*◌, ◌/◌, ◌%◌, ◌^◌, ◌≤◌, ◌<◌, ◌≡◌, ◌≢◌, inl, inr, refl, sym, ap, ◌∙◌, arith,
  Bool, true, false, Bool-cases, [], ◌∷◌, ◌++◌, Option, none, some, length, ltb, ◌==◌,
  if◌then◌else◌,
}
use luce_seed.Base.Words.{u32}
use luce_seed.Support.Decimal.Big.{
  Limbs, halve, k_limbs, mul_add, mul_loop, shift_bits, shift_left, shift_right_one, strip,
  subtract, subtract_loop, zeros,
}
use luce_seed.Support.Decimal.Big.Value.{
  AreLimbs, IsBig, IsStripped, append-IsBig, append-zero, mul_loop_lem, number, shift_bits_lem,
  split_power, strip_lem, subtract_loop_lem,
}
use mathlib.Core.Path.{subst}
use native.Mathlib.Nat.{mul-le-mul_left, pow-le-pow_right}

-- The least number of more than n limbs.
abbrev pub capacity : ℕ → ℕ
capacity zero = 1
capacity (suc n) = 2 ^ 32 * capacity n

-- What is no smaller than a number, in as many limbs, has a top limb as well.
larger-IsStripped :
    (xs ys : Limbs)
    → AreLimbs ys
    → length ys ≡ length xs
    → number xs ≤ number ys
    → IsStripped xs
    → IsStripped ys
larger-IsStripped xs [] b e h s = tt
larger-IsStripped [] (y ∷ ys) b e h s = absurd (omega arith)
larger-IsStripped (x ∷ []) (y ∷ []) b e h s = λ z. s (omega arith)
larger-IsStripped (x ∷ x2 ∷ xs) (y ∷ []) b e h s = absurd (omega arith)
larger-IsStripped (x ∷ []) (y ∷ y2 ∷ ys) b e h s = absurd (omega arith)
larger-IsStripped (x ∷ x2 ∷ xs) (y ∷ y2 ∷ ys) b e h s =
    larger-IsStripped (x2 ∷ xs) (y2 ∷ ys) b.1 (omega arith) (omega (arith, b.0)) s

append-capacity : (xs : Limbs) (c : ℕ) → c ≢ 0 → capacity (length xs) ≤ number (xs ++ c ∷ [])
append-capacity [] c h = ground (arith, h)
append-capacity (x ∷ xs) c h = omega (arith, append-capacity xs c h)

-- What `mul_add` promises: the exact number, or one that has no room in 192 limbs.
abbrev pub IsProduct : ℕ → Option Limbs → Type 0
IsProduct n (some limbs) = IsBig limbs × (number limbs ≡ n)
IsProduct n none = capacity k_limbs ≤ n

-- For limbs with a top limb and a factor above zero, `mul_add` gives the limbs of the exact number, with a top
-- limb as well, or gives up on a number that has no room in 192 limbs.
pub mul_add-IsProduct :
    (xs : Limbs) (m a : ℕ)
    → IsBig xs
    → 0 < m
    → m < 2 ^ 32
    → a < 2 ^ 32
    → IsProduct (number xs * m + a) (mul_add xs m a)
unfolding mul_add u32
mul_add-IsProduct xs m a (are, top) hp hm ha =
    by_carry (mul_loop m a xs).0 (mul_loop m a xs).1 (mul_loop_lem m a xs hm ha are)
  where
    by_carry :
        (rest : Limbs) (carry : ℕ)
        → AreLimbs rest
          × (carry < 2 ^ 32)
          × (length rest ≡ length xs)
          × (number (rest ++ carry ∷ []) ≡ number xs * m + a)
        → IsProduct (number xs * m + a) (
            if carry == 0
            then some rest
            else if length xs == k_limbs
            then none
            else some (rest ++ u32 carry ∷ []))
    by_carry rest carry (are_rest, out, len, value) = elim (Bool-cases (carry == 0)) [
      | inl none_left ↦
          let gone : carry ≡ 0 = ground (arith, none_left) in
          let exact : number rest ≡ number xs * m + a =
            sym (append-zero rest) ∙ ap (λ c. number (rest ++ c ∷ [])) (sym gone) ∙ value in
          let grown = mul-le-mul_left {m = 1} {n = m} (number xs) (omega (arith, hp)) in
          rw none_left (
            (are_rest, larger-IsStripped xs rest are_rest len (omega (arith, exact, grown)) top),
            exact,
          )
      | inr left ↦
          let kept : u32 carry ≡ carry = omega (arith, out) in
          let more : carry ≢ 0 = ground (arith, left) in
          rw left (elim (Bool-cases (length xs == k_limbs)) [
            | inl full ↦
                let size : length rest ≡ k_limbs = ground (arith, len, full) in
                rw (full, sym value)
                  (subst (λ (n : ℕ). capacity n ≤ number (rest ++ carry ∷ [])) size
                    (append-capacity rest carry more))
            | inr room ↦ rw (room, kept) (append-IsBig rest carry are_rest out more, value)
          ])
    ]

pow-pos : (n : ℕ) → 0 < 2 ^ n
pow-pos n = pow-le-pow_right {n = 2} (omega arith) {i = 0} {j = n} (omega arith)

zeros_lem :
    (words : ℕ) (xs : Limbs)
    → AreLimbs xs
    → AreLimbs (zeros words xs) × (number (zeros words xs) ≡ number xs * 2 ^ (words * 32))
unfolding zeros
zeros_lem zero xs h = (h, omega arith)
zeros_lem (suc words) xs h =
    let (are, value) = zeros_lem words xs h in
    let e : suc words * 32 ≡ 32 + words * 32 = omega arith in
    ((omega arith, are), rw (e, split_power (words * 32) 32) (grind (arith, value)))

-- What `shift_left` promises: the exact number, or one for which the limbs do not suffice.
abbrev pub IsShifted : Limbs → ℕ → Option Limbs → Type 0
IsShifted xs bits (some limbs) = IsBig limbs × (number limbs ≡ number xs * 2 ^ bits)
IsShifted xs bits none = k_limbs < length xs + bits / 32 + 1

moved_lem :
    (xs : Limbs) (bits : ℕ)
    → AreLimbs xs
    → let r = strip (zeros (bits / 32) (shift_bits (bits % 32) 0 xs)) in
      IsBig r × (number r ≡ number xs * 2 ^ bits)
moved_lem xs bits are =
    let low = bits % 32 in
    let high = bits / 32 * 32 in
    let (are_shifted, shifted) = shift_bits_lem low 0 xs (omega arith) (pow-pos low) are in
    let (are_moved, moved) = zeros_lem (bits / 32) (shift_bits low 0 xs) are_shifted in
    let (big, same) = strip_lem (zeros (bits / 32) (shift_bits low 0 xs)) are_moved in
    let e : bits ≡ low + high = omega arith in
    (big, same ∙ moved ∙ rw shifted (grind (arith, ap (λ (n : ℕ). 2 ^ n) e, split_power high low)))

-- For limbs with a top limb, `shift_left` gives the limbs of the number times 2 ^ bits, with a top limb as well,
-- or gives up where the limbs in use, the words of the shift and one more are above 192.
pub shift_left-IsShifted :
    (xs : Limbs) (bits : ℕ) → IsBig xs → IsShifted xs bits (shift_left xs bits)
unfolding shift_left
shift_left-IsShifted [] bits big = by_bits (bits == 0)
  where
    by_bits : (b : Bool) → IsShifted [] bits (if b then some [] else some [])
    by_bits true = (big, omega arith)
    by_bits false = (big, omega arith)
shift_left-IsShifted (x ∷ xs) bits big = elim (Bool-cases (bits == 0)) [
  | inl nothing ↦
      let e : bits ≡ 0 = ground (arith, nothing) in
      rw (nothing, shift_left) (big, rw e (omega arith))
  | inr some_bits ↦
      rw (some_bits, shift_left)
        (elim (Bool-cases (ltb k_limbs (length (x ∷ xs) + bits / 32 + 1))) [
          | inl full ↦ rw full (ground (arith, full))
          | inr room ↦ rw room (moved_lem (x ∷ xs) bits big.0)
        ])
]

halve_lem : (xs : Limbs) → AreLimbs xs → AreLimbs (halve xs) × (number (halve xs) ≡ number xs / 2)
unfolding halve
halve_lem [] h = (tt, refl)
halve_lem (x ∷ []) h = ((omega (arith, h.0), tt), omega arith)
halve_lem (x ∷ y ∷ ys) h =
    let (are, value) = halve_lem (y ∷ ys) h.1 in
    ((omega (arith, h.0), are), omega (arith, value, h.0))

pub shift_right_one-IsHalf :
    (xs : Limbs)
    → IsBig xs
    → IsBig (shift_right_one xs) × (number (shift_right_one xs) ≡ number xs / 2)
unfolding shift_right_one
shift_right_one-IsHalf xs big =
    let (are, value) = halve_lem xs big.0 in
    let (stripped, same) = strip_lem (halve xs) are in (stripped, same ∙ value)

pub subtract-IsDifference :
    (xs ys : Limbs)
    → IsBig xs
    → IsBig ys
    → number ys ≤ number xs
    → IsBig (subtract xs ys) × (number (subtract xs ys) + number ys ≡ number xs)
unfolding subtract
subtract-IsDifference xs ys a b h =
    let (are, value) = subtract_loop_lem 0 xs ys (omega arith) a.0 b.0 (omega (arith, h)) in
    let (stripped, same) = strip_lem (subtract_loop 0 xs ys) are in
    (stripped, omega (arith, same, value))
