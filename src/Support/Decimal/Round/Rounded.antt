-- ===== src/Support/Decimal/Round/Rounded.antt =====
-- `decimal_to_bits` from the digits to the bits: the exact value, correctly rounded.
use luce_seed.Base.{
  ℕ, zero, suc, ◌+◌, ◌-◌, ◌*◌, ◌^◌, ◌≤◌, ◌<◌, ◌≡◌, ◌⊎◌, inl, inr, refl, sym, ap, arith, Bool, true,
  false, not, ◌||◌, ◌&&◌, Bool-cases, List, length, ◌==◌, leb, ltb, if◌then◌else◌, Option, some,
}
use luce_seed.Base.Int.{ℤ, pos, negsuc, ◌-ℤ◌, pos_part, neg_part, ltb_ℤ}
use luce_seed.Support.Decimal.Big.Length.{HasBits, bits_in-HasBits, pow_le}
use luce_seed.Support.Decimal.Big.{bits_in}
use luce_seed.Support.Decimal.Round.{
  Format, convert, infinity_bits, pack, round_bits, round_tiny, round_to,
}
use luce_seed.Support.Decimal.Round.Given.{AreDigits, digits_value}
use luce_seed.Support.Decimal.Round.Nearest.{IsNearest, round_to-IsNearest}
use luce_seed.Support.Decimal.Round.Total.{convert-IsQuotient}
use native.Mathlib.Nat.{mul-le-mul_right, one-le-pow, pow-suc}

-- The bits that the format keeps of a number whose leading bit has that exponent: fewer for a subnormal, and none
-- or less than none for one below the least.
abbrev pub keep_of : Format → ℤ → ℤ
keep_of f e =
    if ltb_ℤ e f.min_exponent then pos f.precision -ℤ (f.min_exponent -ℤ e) else pos f.precision

-- `o` is n / d, moved by `scale` places, rounded to the format: the leading bit of n / d has the weight `len - 1`,
-- and above the exponents of the format it is the infinity; else the mantissa is the multiple nearest to n / d of
-- the last place that the format keeps, and of two that are equally near the even one.
abbrev pub IsRounded : Format → ℕ → ℕ → ℤ → Option ℕ → Type 0
IsRounded f n d scale o =
    (len : ℕ) × (2 ^ len * d ≤ n)
    × (n < 2 ^ suc len * d)
    × (let e = pos len -ℤ scale in
        ((ltb_ℤ f.max_exponent e ≡ true) × (o ≡ some (infinity_bits f)))
        ⊎ ((m : ℕ) × (o ≡ some (pack f m e))
            × IsNearest n (2 ^ pos_part (pos (suc len) -ℤ keep_of f e) * d) m))

keep_le :
    (f : Format) (e : ℤ)
    → 1 ≤ f.precision
    → (pos_part (keep_of f e) ≤ f.precision)
      × ((1 ≤ pos_part (keep_of f e)) ⊎ (ltb_ℤ e f.min_exponent ≡ true))
unfolding ◌-ℤ◌
keep_le f e p = ground arith

-- A mantissa of a bit at most that is below the least exponent is packed as it is.
pack-tiny :
    (f : Format) (m : ℕ) (e : ℤ)
    → 1 ≤ f.precision
    → m ≤ 1
    → ltb_ℤ e f.min_exponent ≡ true
    → pack f m e ≡ m
unfolding pack
pack-tiny f m e p small below =
    let hidden = one-le-pow (f.precision - 1) 2 (omega arith) in
    let plain : (m == 2 ^ (f.precision - 1) * 2) ≡ false = ground (arith, hidden, small) in
    rw (plain, below, pack) refl

-- Where the quotient's leading bit stands, there stands the leading bit of n / d.
leading_lem :
    (len q n d rest : ℕ)
    → n ≡ q * d + rest
    → rest < d
    → 2 ^ len ≤ q
    → q < 2 ^ suc len
    → (2 ^ len * d ≤ n) × (n < 2 ^ suc len * d)
leading_lem len q n d rest whole less low high =
    let under = mul-le-mul_right {m = 2 ^ len} {n = q} d low in
    let over = mul-le-mul_right {m = q + 1} {n = 2 ^ suc len} d (omega (arith, high)) in
    let next : (q + 1) * d ≡ q * d + d = grind arith in
    (omega (arith, whole, under), omega (arith, whole, less, over, next))

-- At half the least subnormal it goes up but for a tie.
half_choice :
    (half q rest : ℕ)
    → half ≤ q
    → let r : ℕ = if ltb half q || ((q == half) && not (rest == 0)) then 1 else 0 in
      ((r ≡ 1) × ((half < q) ⊎ ((q ≡ half) × (0 < rest)))) ⊎ ((r ≡ 0) × (q ≡ half) × (rest ≡ 0))
half_choice half q rest low = ground arith

half_lem :
    (len q n d rest : ℕ)
    → n ≡ q * d + rest
    → rest < d
    → 2 ^ len ≤ q
    → q < 2 ^ suc len
    → let r : ℕ = if ltb (2 ^ len) q || ((q == 2 ^ len) && not (rest == 0)) then 1 else 0 in
      (r ≤ 1) × IsNearest n (2 ^ suc len * d) r
unfolding IsNearest
half_lem len q n d rest whole less low high =
    let (_, below) = leading_lem len q n d rest whole less low high in
    let unit : 2 ^ suc len * d ≡ 2 * (2 ^ len * d) = rw (pow-suc 2 len) (grind arith) in
    let once : 1 * (2 ^ suc len * d) ≡ 2 ^ suc len * d = omega arith in
    elim (half_choice (2 ^ len) q rest low) [
      | inl (up, inl above) ↦
          let over = mul-le-mul_right {m = 2 ^ len + 1} {n = q} d (omega (arith, above)) in
          let next : (2 ^ len + 1) * d ≡ 2 ^ len * d + d = grind arith in
          rw up (
            omega arith,
            inl (omega (arith, below, once), omega (arith, whole, over, next, unit, once, less)),
          )
      | inl (up, inr (tie, left)) ↦ rw up (
        omega arith,
        inl (
          omega (arith, below, once),
          omega (arith, whole, ap (λ (m : ℕ). m * d) tie, left, unit, once),
        ),
      )
      | inr (down, tie, none_left) ↦ rw down (
        omega arith,
        inr (inl (omega (arith, whole, ap (λ (m : ℕ). m * d) tie, none_left, unit)), refl),
      )
    ]

-- Below half of it.
low_lem : (len j n d : ℕ) → n < 2 ^ suc len * d → IsNearest n (2 ^ (suc len + suc j) * d) 0
unfolding IsNearest
low_lem len j n d below =
    let more = mul-le-mul_right d (pow_le (suc (suc len)) (suc len + suc j) (omega arith)) in
    let twice : 2 ^ suc (suc len) * d ≡ 2 * (2 ^ suc len * d) =
      rw (pow-suc 2 (suc len)) (grind arith) in
    inl (omega (arith, below, more, twice), omega (arith, below, more, twice))

-- Below the least subnormal the result is zero or one, whichever is nearest.
round_tiny-IsNearest :
    (keep : ℤ) (len quotient n d rest : ℕ)
    → n ≡ quotient * d + rest
    → rest < d
    → 2 ^ len ≤ quotient
    → quotient < 2 ^ suc len
    → pos_part keep ≡ 0
    → (round_tiny keep (suc len) quotient (not (rest == 0)) ≤ 1)
      × IsNearest n
          (2 ^ pos_part (pos (suc len) -ℤ keep) * d)
          (round_tiny keep (suc len) quotient (not (rest == 0)))
unfolding round_tiny ◌-ℤ◌
round_tiny-IsNearest (pos (suc k)) len q n d rest whole less low high none_kept =
    absurd (omega arith)
round_tiny-IsNearest (pos zero) len q n d rest whole less low high none_kept =
    let e : suc len - 1 ≡ len = omega arith in
    let places : pos_part (pos (suc len) -ℤ pos zero) ≡ suc len = ground arith in
    rw (e, places) (half_lem len q n d rest whole less low high)
round_tiny-IsNearest (negsuc j) len q n d rest whole less low high none_kept =
    let places : pos_part (pos (suc len) -ℤ negsuc j) ≡ suc len + suc j = ground arith in
    (omega arith, rw places (low_lem len j n d (leading_lem len q n d rest whole less low high).1))

-- What is packed where the exponent is not above the format's.
module _ (f : Format) (q n d rest len : ℕ) (e : ℤ) (fp : 1 ≤ f.precision) (long : f.precision ≤ len)
    (whole : n ≡ q * d + rest) (less : rest < d) (low : 2 ^ len ≤ q) (high : q < 2 ^ suc len) where
  abbrev IsPacked : ℤ → ℕ → Type 0
  IsPacked keep bits =
      (m : ℕ) × (bits ≡ pack f m e) × IsNearest n (2 ^ pos_part (pos (suc len) -ℤ keep) * d) m

  none_kept-IsPacked :
      (keep : ℤ)
      → pos_part keep ≡ 0
      → ltb_ℤ e f.min_exponent ≡ true
      → IsPacked keep (round_tiny keep (suc len) q (not (rest == 0)))
  none_kept-IsPacked keep none_kept below =
      let (small, near) = round_tiny-IsNearest keep len q n d rest whole less low high none_kept in
      (_, sym (pack-tiny f _ e fp small below), near)

  some_kept-IsPacked :
      (c : ℕ)
      → suc c ≤ f.precision
      → IsPacked (pos (suc c)) (round_to f (suc c) (suc len) q (not (rest == 0)) e)
  unfolding ◌-ℤ◌
  some_kept-IsPacked c fits =
      let (m, packed, near) =
        round_to-IsNearest f (suc c) (suc len) q n d rest e whole less
          (omega (arith, fits, long)) in
      let places : pos_part (pos (suc len) -ℤ pos (suc c)) ≡ suc len - suc c = ground arith in
      (m, packed, rw places near)

  by_keep :
      (keep : ℤ)
      → (pos_part keep ≤ f.precision) × ((1 ≤ pos_part keep) ⊎ (ltb_ℤ e f.min_exponent ≡ true))
      → IsPacked keep (
          if ltb_ℤ (pos 0) keep
          then round_to f (pos_part keep) (suc len) q (not (rest == 0)) e
          else round_tiny keep (suc len) q (not (rest == 0)))
  by_keep (pos (suc c)) (fits, _) =
      let some_kept : ltb_ℤ (pos 0) (pos (suc c)) ≡ true = ground arith in
      rw some_kept (some_kept-IsPacked c fits)
  by_keep (pos zero) (fits, inl some_kept) = absurd (omega arith)
  by_keep (pos zero) (fits, inr below) = none_kept-IsPacked (pos zero) refl below
  by_keep (negsuc j) (fits, inl some_kept) = absurd (omega arith)
  by_keep (negsuc j) (fits, inr below) =
      let none_kept : ltb_ℤ (pos 0) (negsuc j) ≡ false = ground arith in
      rw none_kept (none_kept-IsPacked (negsuc j) refl below)

  -- The infinity, or what is packed.
  by_exponent :
      (over : Bool) (bits : ℕ)
      → ltb_ℤ f.max_exponent e ≡ over
      → IsPacked (keep_of f e) bits
      → ((ltb_ℤ f.max_exponent e ≡ true)
          × (some (if over then infinity_bits f else bits) ≡ some (infinity_bits f)))
        ⊎ ((m : ℕ) × (some (if over then infinity_bits f else bits) ≡ some (pack f m e))
            × IsNearest n (2 ^ pos_part (pos (suc len) -ℤ keep_of f e) * d) m)
  by_exponent true bits is_over packed = inl (is_over, refl)
  by_exponent false bits is_over (m, packed, near) = inr (m, ap some packed, near)

round_bits_lem :
    (f : Format) (q n d rest : ℕ) (scale : ℤ)
    → 1 ≤ f.precision
    → f.precision ≤ 60
    → n ≡ q * d + rest
    → rest < d
    → 2 ^ (f.precision + 2) ≤ q
    → q < 2 ^ (f.precision + 4)
    → IsRounded f n d scale (some (round_bits f q (not (rest == 0)) scale))
unfolding round_bits
round_bits_lem f q n d rest scale fp fp_high whole less low high = by_length (bits_in 65 q) refl (
    bits_in-HasBits 65 q (omega (arith, low, one-le-pow (f.precision + 2) 2 (omega arith)))
      (omega (arith, high, pow_le (f.precision + 4) 65 (omega (arith, fp_high)))))
  where
    by_length :
        (b : ℕ)
        → bits_in 65 q ≡ b
        → HasBits q b
        → IsRounded f n d scale (some (round_bits f q (not (rest == 0)) scale))
    by_length zero is_b h = elim h [ ]
    by_length (suc len) is_b (first, last) =
        let e = pos len -ℤ scale in
        let long : f.precision ≤ len = elim (Bool-cases (leb f.precision len)) [
          | inl le ↦ ground (arith, le)
          | inr gt ↦
              absurd
                (omega (arith, last, low, pow_le (suc len) (f.precision + 2) (ground (arith, gt))))
        ] in
        let (lead, next) = leading_lem len q n d rest whole less first last in
        let back : suc len - 1 ≡ len = omega arith in
        (
          len,
          lead,
          next,
          rw (is_b, back, round_bits)
              (by_exponent f q n d rest len e fp long whole less first last _ _ refl (
                by_keep f q n d rest len e fp long whole less first last (keep_of f e)
                  (keep_le f e fp))),
        )

-- For digits that are all kept and not all zero, of which with a positive exponent there are at most 1200 in all,
-- and an exponent of -1200 at least, `convert` gives a result, and the result is the value of the digits times the
-- power of ten, correctly rounded: the infinity if the leading bit is above the exponents of the format, and else
-- the mantissa nearest to the value at the last place that the format keeps for it, of two that are equally near
-- the even one, with fewer places for a subnormal. The value stands there as a fraction, moved by a power of two.
pub convert-IsRounded :
    (f : Format) (digits : List ℕ) (exponent : ℤ)
    → 1 ≤ f.precision
    → f.precision ≤ 60
    → AreDigits digits
    → 0 < digits_value digits
    → length digits + pos_part exponent ≤ 1200
    → neg_part exponent ≤ 1200
    → (scale : ℤ) × IsRounded f
        (digits_value digits * 10 ^ pos_part exponent * 2 ^ pos_part scale)
        (10 ^ neg_part exponent * 2 ^ neg_part scale)
        scale
        (convert f digits exponent false)
convert-IsRounded f digits exponent fp fp_high are some_digit room below =
    let (scale, q, d, rest, result, whole, is_d, less, low, high) =
      convert-IsQuotient f digits exponent false fp_high are some_digit room below in
    let n = digits_value digits * 10 ^ pos_part exponent * 2 ^ pos_part scale in
    let rounded = round_bits_lem f q n d rest scale fp fp_high whole less low high in
    (scale, rw (result, sym is_d) rounded)
