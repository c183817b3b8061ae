-- ===== src/Check/Layout/Rounding.antt =====
-- Powers of two, and rounding up to a multiple of one.
use Prim.Native.Nat.{◌∣◌}
use luce_seed.Base.{
  ℕ, zero, suc, ◌+◌, ◌-◌, ◌*◌, ◌/◌, ◌%◌, ◌^◌, ◌≤◌, ◌<◌, ◌≡◌, inl, inr, arith, Bool-cases, leb, ltb,
  ◌==◌,
}
use luce_seed.Check.Layout.Exact.{exact_pad_to, exact_raise}
use native.Mathlib.Nat.{
  div-add-mod', dvd-mul_left, dvd_refl, dvd_of_mod-eq-zero, mod-eq-zero_of_dvd, mod-lt, one-le-pow,
  pow-le-pow_right, dvd-mul_right_of_dvd, pow-suc,
}

abbrev pub IsPower : ℕ → Type 0
IsPower a = (k : ℕ) × (a ≡ 2 ^ k)

pub IsPower-positive : {a : ℕ} → IsPower a → 1 ≤ a
IsPower-positive (k, e) = rw e (one-le-pow k 2 (omega arith))

power_dvd : (i d : ℕ) → 2 ^ i ∣ 2 ^ (d + i)
power_dvd i zero = let e : 0 + i ≡ i = omega arith in rw e (dvd_refl (2 ^ i))
power_dvd i (suc d) =
    let e : suc d + i ≡ suc (d + i) = omega arith in
    rw (e, pow-suc) (dvd-mul_right_of_dvd (2 ^ i) (power_dvd i d) 2)

-- Of two powers of two the lesser divides the greater.
pub IsPower-dvd : {a b : ℕ} → IsPower a → IsPower b → a ≤ b → a ∣ b
IsPower-dvd {a} {b} (i, e) (j, f) h = elim (Bool-cases (leb i j)) [
  | inl le ↦
      let split : j ≡ (j - i) + i = ground (arith, le) in rw (e, f) (rw split (power_dvd i (j - i)))
  | inr gt ↦
      let up = pow-le-pow_right {n = 2} (omega arith) {i = j} {j = i} (ground (arith, gt)) in
      let same : a ≡ b = omega (arith, up) in rw same (dvd_refl b)
]

pub raise-IsPower : {a b : ℕ} → IsPower a → IsPower b → IsPower (exact_raise a b)
unfolding exact_raise
raise-IsPower {a} {b} p q = elim (Bool-cases (ltb a b)) [ inl e ↦ rw e q | inr e ↦ rw e p ]

pub raise_le : (a b : ℕ) → (a ≤ exact_raise a b) × (b ≤ exact_raise a b)
unfolding exact_raise
raise_le a b = ground arith

-- `exact_pad_to` gives the next multiple.
pub pad_to_bounds :
    (off a : ℕ)
    → 1 ≤ a
    → (a ∣ exact_pad_to off a) × (off ≤ exact_pad_to off a) × (exact_pad_to off a < off + a)
unfolding exact_pad_to
pad_to_bounds off a h =
    (dvd_of_mod-eq-zero a multiple, ground (arith, below), ground (arith, below))
  where
    below : off % a < a
    below = mod-lt off (omega arith)

    multiple : exact_pad_to off a % a ≡ 0
    multiple = elim (Bool-cases (leb a 1)) [
      | inl one ↦ rw (one, exact_pad_to) (ground (arith, one, below))
      | inr more ↦ elim (Bool-cases (off % a == 0)) [
        | inl whole ↦ rw (more, whole, exact_pad_to) (ground (arith, whole))
        | inr part ↦
            let next : off + (a - off % a) ≡ (off / a + 1) * a =
              grind (arith, below, div-add-mod' off a) in
            rw (more, part, exact_pad_to)
              (rw next (mod-eq-zero_of_dvd a (dvd-mul_left a (off / a + 1))))
      ]
    ]
