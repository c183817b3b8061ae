-- ===== src/Support/Decimal/Big/Value.antt =====
-- The operations of `Big` on the numbers that the limbs stand for.
use luce_seed.Base.{
  ℕ, zero, suc, ◌+◌, ◌-◌, ◌*◌, ◌/◌, ◌%◌, ◌^◌, ◌≤◌, ◌<◌, ◌≡◌, ◌≢◌, ◌⊎◌, inl, inr, refl, sym, ap, ◌∙◌,
  arith, Bool, true, false, Bool-cases, [], ◌∷◌, ◌++◌, length, ltb, ◌==◌, if◌then◌else◌,
}
use luce_seed.Base.Words.{u32, u64}
use luce_seed.Lex.Keyword.{Order, less, more, same}
use luce_seed.Support.Decimal.Big.{
  Limbs, at_least, mul_loop, order, shift_bits, strip, subtract_loop,
}
use native.Mathlib.Nat.{
  div-add-mod', div-lt_iff_lt-mul, dvd-mod_iff, dvd-mul_left, mod-eq-zero_of_dvd, mul-le-mul,
  mul-le-mul_right, mul-lt-mul_of_pos_right, mul_comm, pow-le-pow_right, pow-suc,
}
use Prim.Native.Nat.{◌∣◌}

abbrev pub number : Limbs → ℕ
number [] = 0
number (x ∷ xs) = x + 2 ^ 32 * number xs

abbrev pub AreLimbs : Limbs → Type 0
AreLimbs [] = Unit
AreLimbs (x ∷ xs) = (x < 2 ^ 32) × AreLimbs xs

-- The top limb is not zero.
abbrev pub IsStripped : Limbs → Type 0
IsStripped [] = Unit
IsStripped (x ∷ []) = x ≢ 0
IsStripped (x ∷ y ∷ ys) = IsStripped (y ∷ ys)

abbrev pub IsBig : Limbs → Type 0
IsBig limbs = AreLimbs limbs × IsStripped limbs

pub strip_lem : (xs : Limbs) → AreLimbs xs → IsBig (strip xs) × (number (strip xs) ≡ number xs)
unfolding strip
strip_lem [] h = ((tt, tt), refl)
strip_lem (x ∷ xs) h = by_rest (strip xs) refl (strip_lem xs h.1)
  where
    by_rest :
        (ys : Limbs)
        → strip xs ≡ ys
        → IsBig ys × (number ys ≡ number xs)
        → let r : Limbs = elim ys [ [] ↦ if x == 0 then [] else x ∷ [] | y ∷ ys ↦ x ∷ y ∷ ys ] in
          IsBig r × (number r ≡ number (x ∷ xs))
    by_rest [] e (b, n) = elim (Bool-cases (x == 0)) [
      | inl none_left ↦ rw none_left ((tt, tt), ground (arith, none_left, n))
      | inr some_left ↦
          rw some_left (((h.0, tt), λ z. ground (arith, some_left, z)), ground (arith, n))
    ]
    by_rest (y ∷ ys) e ((a, s), n) = (((h.0, a), s), ground (arith, n))

-- The product of two limbs and a limb fit in 64 bits.
product_fits : (x m carry : ℕ) → x < 2 ^ 32 → m < 2 ^ 32 → carry < 2 ^ 32 → x * m + carry < 2 ^ 64
product_fits x m carry hx hm hc =
    let le =
      mul-le-mul {n₁ = x} {m₁ = m} {n₂ = 2 ^ 32 - 1} {m₂ = 2 ^ 32 - 1} (omega arith)
        (omega arith) in
    omega (arith, le)

pub mul_loop_lem :
    (m carry : ℕ) (xs : Limbs)
    → m < 2 ^ 32
    → carry < 2 ^ 32
    → AreLimbs xs
    → let r = mul_loop m carry xs in
      AreLimbs r.0
      × (r.1 < 2 ^ 32)
      × (length r.0 ≡ length xs)
      × (number (r.0 ++ r.1 ∷ []) ≡ number xs * m + carry)
unfolding mul_loop u32 u64
mul_loop_lem m carry [] hm hc h = (tt, hc, refl, omega arith)
mul_loop_lem m carry (x ∷ xs) hm hc h =
    let fits = product_fits x m carry h.0 hm hc in
    let t = x * m + carry in
    let exact : t % 2 ^ 64 ≡ t = omega (arith, fits) in
    let (are, out, len, value) = mul_loop_lem m (t / 2 ^ 32) xs hm (omega (arith, fits)) h.1 in
    rw (exact, mul_loop) ((omega arith, are), out, omega (arith, len), grind (arith, value))

pub append-IsBig : (xs : Limbs) (c : ℕ) → AreLimbs xs → c < 2 ^ 32 → c ≢ 0 → IsBig (xs ++ c ∷ [])
append-IsBig [] c h hc nz = ((hc, tt), nz)
append-IsBig (x ∷ []) c h hc nz = ((h.0, (hc, tt)), nz)
append-IsBig (x ∷ y ∷ ys) c h hc nz =
    let (are, top) = append-IsBig (y ∷ ys) c h.1 hc nz in ((h.0, are), top)

pub append-zero : (xs : Limbs) → number (xs ++ 0 ∷ []) ≡ number xs
append-zero [] = refl
append-zero (x ∷ xs) = rw (append-zero xs)

-- A number is zero just when it has no limbs.
pub is_zero-exact : (xs : Limbs) → IsStripped xs → (number xs ≡ 0) → xs ≡ []
is_zero-exact [] s e = refl
is_zero-exact (x ∷ []) s e = absurd (s (omega arith))
is_zero-exact (x ∷ y ∷ ys) s e = absurd (ground (arith, is_zero-exact (y ∷ ys) s))

-- A number with a top limb stays one, if what stands below it changes, and a limb more is a multiple of 2 ^ 32 more.
pub longer_lem :
    (xs ys : Limbs)
    → AreLimbs xs
    → AreLimbs ys
    → IsStripped ys
    → length xs < length ys
    → number xs < number ys
longer_lem [] (y ∷ []) a b s h = ground (arith, s)
longer_lem [] (y ∷ z ∷ zs) a b s h =
    let tail = longer_lem [] (z ∷ zs) tt b.1 s (omega arith) in omega (arith, tail)
longer_lem (x ∷ xs) (y ∷ []) a b s h = absurd (omega arith)
longer_lem (x ∷ xs) (y ∷ z ∷ zs) a b s h =
    let tail = longer_lem xs (z ∷ zs) a.1 b.1 s (omega arith) in omega (arith, tail, a.0)
longer_lem xs [] a b s h = absurd (omega arith)

-- The sign of the comparison of two numbers of equally many limbs.
abbrev IsOrder : Order → ℕ → ℕ → Type 0
IsOrder less m n = m < n
IsOrder same m n = m ≡ n
IsOrder more m n = n < m

pub order-IsOrder :
    (xs ys : Limbs)
    → AreLimbs xs
    → AreLimbs ys
    → length xs ≡ length ys
    → IsOrder (order xs ys) (number xs) (number ys)
unfolding order
order-IsOrder [] [] a b e = refl
order-IsOrder [] (y ∷ ys) a b e = absurd (omega arith)
order-IsOrder (x ∷ xs) [] a b e = absurd (omega arith)
order-IsOrder (x ∷ xs) (y ∷ ys) a b e =
    by_tail (order xs ys) (order-IsOrder xs ys a.1 b.1 (omega arith))
  where
    by_tail :
        (o : Order)
        → IsOrder o (number xs) (number ys)
        → IsOrder
            (elim o [
              | same ↦ if ltb x y then less else if ltb y x then more else same
              | less ↦ less
              | more ↦ more
            ])
            (number (x ∷ xs))
            (number (y ∷ ys))
    by_tail less t = omega (arith, t, a.0)
    by_tail more t = omega (arith, t, b.0)
    by_tail same t = ground (arith, t)

pub at_least-exact :
    (xs ys : Limbs)
    → IsBig xs
    → IsBig ys
    → ((at_least xs ys ≡ true) × (number ys ≤ number xs))
      ⊎ ((at_least xs ys ≡ false) × (number xs < number ys))
unfolding at_least
at_least-exact xs ys a b = elim (Bool-cases (length xs == length ys)) [
  | inl equal ↦
      rw (equal, at_least)
        (by_order (order xs ys) (order-IsOrder xs ys a.0 b.0 (ground (arith, equal))))
  | inr differ ↦ rw (differ, at_least) (by_length differ (Bool-cases (ltb (length ys) (length xs))))
]
  where
    by_order :
        (o : Order)
        → IsOrder o (number xs) (number ys)
        → let r : Bool = elim o [ less ↦ false | same ↦ true | more ↦ true ] in
          ((r ≡ true) × (number ys ≤ number xs)) ⊎ ((r ≡ false) × (number xs < number ys))
    by_order less h = inr (refl, h)
    by_order same h = inl (refl, omega (arith, h))
    by_order more h = inl (refl, omega (arith, h))

    by_length :
        (length xs == length ys) ≡ false
        → (ltb (length ys) (length xs) ≡ true) ⊎ (ltb (length ys) (length xs) ≡ false)
        → ((ltb (length ys) (length xs) ≡ true) × (number ys ≤ number xs))
          ⊎ ((ltb (length ys) (length xs) ≡ false) × (number xs < number ys))
    by_length d (inl e) =
        inl (e, let l = longer_lem ys xs b.0 a.0 a.1 (ground (arith, e)) in omega (arith, l))
    by_length d (inr e) = inr (e, longer_lem xs ys a.0 b.0 b.1 (ground (arith, d, e)))

pub subtract_loop_lem :
    (borrow : ℕ) (xs ys : Limbs)
    → borrow ≤ 1
    → AreLimbs xs
    → AreLimbs ys
    → number ys + borrow ≤ number xs
    → AreLimbs (subtract_loop borrow xs ys)
      × (number (subtract_loop borrow xs ys) + number ys + borrow ≡ number xs)
unfolding subtract_loop
subtract_loop_lem borrow [] ys hb a b h = (tt, omega arith)
subtract_loop_lem borrow (x ∷ xs) [] hb a b h =
    let rest =
      subtract_loop_lem (if ltb x borrow then 1 else 0) xs [] (ground arith) a.1 tt
        (ground arith) in
    (ground (arith, rest, a.0), ground (arith, rest, a.0))
subtract_loop_lem borrow (x ∷ xs) (y ∷ ys) hb a b h =
    let rest =
      subtract_loop_lem (if ltb x (y + borrow) then 1 else 0) xs ys (ground arith) a.1 b.1
        (ground (arith, a.0, b.0)) in
    (ground (arith, rest, a.0, b.0), ground (arith, rest, a.0, b.0))

-- What is moved up keeps clear of the carry from below, as 2 ^ rest divides 2 ^ 32.
moved_up :
    (p q x carry : ℕ)
    → 2 ^ 32 ≡ q * p
    → x < 2 ^ 32
    → carry < p
    → (x * p % 2 ^ 32 + carry < 2 ^ 32) × (x * p / 2 ^ 32 < p) × (x * p < 2 ^ 32 * p)
moved_up p q x carry whole hx hc =
    let positive : 0 < p = omega arith in
    let r = x * p % 2 ^ 32 in
    let below : r < q * p = omega (arith, whole) in
    let divides : p ∣ r =
      (dvd-mod_iff p {m = x * p} {n = 2 ^ 32} (rw whole (dvd-mul_left p q))).1 (dvd-mul_left p x) in
    let exact : r ≡ r / p * p = omega (arith, div-add-mod' r p, mod-eq-zero_of_dvd p divides) in
    let fewer : r / p < q = (div-lt_iff_lt-mul positive).1 below in
    let room = mul-le-mul_right {m = r / p + 1} {n = q} p (omega arith) in
    let next : (r / p + 1) * p ≡ r / p * p + p = grind arith in
    let small = mul-lt-mul_of_pos_right {m = x} {n = 2 ^ 32} {k = p} hx positive in
    (
      omega (arith, exact, room, next, whole),
      (div-lt_iff_lt-mul {k = 2 ^ 32} (omega arith)).1 (omega (arith, small, mul_comm p (2 ^ 32))),
      small,
    )

pub split_power : (k d : ℕ) → 2 ^ (d + k) ≡ 2 ^ d * 2 ^ k
split_power k zero = let e : 0 + k ≡ k = omega arith in rw e (omega arith)
split_power k (suc d) =
    let e : suc d + k ≡ suc (d + k) = omega arith in
    let left = pow-suc 2 (d + k) in
    let right = pow-suc 2 d in rw (e, left, right, split_power k d) (grind arith)

whole_power : (rest : ℕ) → rest < 32 → 2 ^ 32 ≡ 2 ^ (32 - rest) * 2 ^ rest
whole_power rest h =
    let e : 32 - rest + rest ≡ 32 = omega arith in
    ap (λ (n : ℕ). 2 ^ n) (sym e) ∙ split_power rest (32 - rest)

pub shift_bits_lem :
    (rest carry : ℕ) (xs : Limbs)
    → rest < 32
    → carry < 2 ^ rest
    → AreLimbs xs
    → AreLimbs (shift_bits rest carry xs)
      × (number (shift_bits rest carry xs) ≡ number xs * 2 ^ rest + carry)
unfolding shift_bits u32 u64
shift_bits_lem rest carry [] hr hc h =
    let le = pow-le-pow_right {n = 2} (omega arith) {i = rest} {j = 31} (omega arith) in
    ((omega (arith, le), tt), omega arith)
shift_bits_lem rest carry (x ∷ xs) hr hc h =
    let p = 2 ^ rest in
    let le = pow-le-pow_right {n = 2} (omega arith) {i = rest} {j = 31} (omega arith) in
    let (fits, up, small) = moved_up p (2 ^ (32 - rest)) x carry (whole_power rest hr) h.0 hc in
    let exact : u64 (x * p) ≡ x * p = omega (arith, small, le) in
    let (are, value) = shift_bits_lem rest (x * p / 2 ^ 32) xs hr up h.1 in
    rw (exact, shift_bits) ((fits, are), grind (arith, value))
