-- ===== src/Interp/Arith/Exact.antt =====
-- The integer operators against exact arithmetic.
use luce_seed.Base.Int.{ℤ, pos, ◌+ℤ◌, ◌-ℤ◌, ◌*ℤ◌}
use luce_seed.Base.Words.{u64, u64_max}
use luce_seed.Base.{
  ℕ, zero, suc, ◌+◌, ◌-◌, ◌*◌, ◌/◌, ◌^◌, ◌≤◌, ◌<◌, ◌≡◌, ◌⊎◌, inl, inr, refl, arith, Bool, true,
  false, Bool-cases, ltb, if◌then◌else◌,
}
use luce_seed.Check.Kind.{TypeKind, int_bits, int_mask, int_max_unsigned, is_int, is_signed_int}
use luce_seed.Interp.Arith.Widths.{
  IsInRange, IsWidth, as_s-v_int, as_u-v_int, int_bits-IsWidth, int_min-unsigned, overflows-exact,
  value_of,
}
use luce_seed.Interp.Arith.{
  Result, arith_s, arith_u, checked_s, checked_u, cut, exact_s, int_arith, product_overflows,
  sum_overflows, value, trap,
}
use luce_seed.Interp.Value.{Value, as_s, as_u, bits_of, masked, to_u64, v_int}
use luce_seed.Lex.Token.{TokenKind}
use native.Mathlib.Nat.{le-div_iff_mul-le}

-- The result has the value of the exact result, or that one is out of range and the operator traps.
abbrev pub IsChecked : TypeKind → ℤ → Result → Type 0
IsChecked t e r =
    ((v : Value) × (r ≡ value v) × (value_of t v ≡ e) × IsInRange t e)
    ⊎ ((r ≡ trap "integer overflow") × ¬ (IsInRange t e))

checked_s-IsChecked :
    (t : TypeKind) → is_signed_int t ≡ true → (e : ℤ) → IsChecked t e (checked_s t e)
unfolding checked_s
checked_s-IsChecked t signed e = elim (overflows-exact t signed e) [
  | inl (fits, range, same) ↦
      rw (fits, checked_s)
        (inl (
          v_int t (to_u64 (cut e).0),
          refl,
          rw (signed, same) (as_s-v_int t signed e range),
          range,
        ))
  | inr (over, out) ↦ rw (over, checked_s) (inr (refl, out))
]

-- What is read at an integer type is at most the type's greatest number.
pub as_u_le : (w u : ℕ) → IsWidth w → masked w u ≤ int_max_unsigned w
unfolding masked int_mask int_max_unsigned
as_u_le w u h = ground (arith, h)

pub int_max_le : (w : ℕ) → IsWidth w → int_max_unsigned w ≤ u64_max
unfolding int_max_unsigned int_mask
int_max_le w h = ground (arith, h)

-- The tests of the unsigned operators are exact, and a result that passes is not cut.
module _ (w a b : ℕ) (h : IsWidth w) (ha : a ≤ int_max_unsigned w)
    (hb : b ≤ int_max_unsigned w) where
  pub sum_test :
      ((sum_overflows w a b ≡ false) × (a + b ≤ int_max_unsigned w) × (u64 (a + b) ≡ a + b))
      ⊎ ((sum_overflows w a b ≡ true) × (int_max_unsigned w < a + b))
  unfolding sum_overflows u64 int_max_unsigned int_mask
  sum_test = ground (arith, h)

  pub product_test :
      ((product_overflows w a b ≡ false) × (a * b ≤ int_max_unsigned w) × (u64 (a * b) ≡ a * b))
      ⊎ ((product_overflows w a b ≡ true) × (int_max_unsigned w < a * b))
  unfolding product_overflows u64
  product_test = by_factor b hb refl
    where
      by_factor :
          (c : ℕ)
          → c ≤ int_max_unsigned w
          → c ≡ b
          → ((product_overflows w a c ≡ false)
              × (a * c ≤ int_max_unsigned w)
              × (u64 (a * c) ≡ a * c))
            ⊎ ((product_overflows w a c ≡ true) × (int_max_unsigned w < a * c))
      by_factor zero hc e = inl (refl, omega arith, omega arith)
      by_factor (suc c) hc e =
          let iff = le-div_iff_mul-le {k = suc c} {x = a} {y = int_max_unsigned w} (omega arith) in
          let small = int_max_le w h in
          elim (Bool-cases (ltb (int_max_unsigned w / suc c) a)) [
            | inl over ↦ inr (ground (arith, over), ground (arith, over, iff))
            | inr fits ↦
                let le = iff.0 (ground (arith, fits)) in inl (ground (arith, fits), le, omega arith)
          ]

-- The operators that trap where their exact result does not fit.
unfoldable pub is_checked : TokenKind → Bool
is_checked TokenKind.plus = true
is_checked TokenKind.plus_question = true
is_checked TokenKind.minus = true
is_checked TokenKind.minus_question = true
is_checked TokenKind.star = true
is_checked TokenKind.star_question = true
is_checked _ = false

module _ (t : TypeKind) (int : is_int t ≡ true) (unsigned : is_signed_int t ≡ false) where
  width : IsWidth (int_bits t)
  width = int_bits-IsWidth t int

  -- A number that fits is stored, one that does not traps.
  stored :
      (e : ℤ) (over : Bool) (n : ℕ)
      → ((over ≡ false) × (n ≤ int_max_unsigned (int_bits t)) × (e ≡ pos n))
        ⊎ ((over ≡ true) × ¬ (IsInRange t e))
      → IsChecked t e (checked_u t over n)
  unfolding checked_u
  stored e over n (inl (fits, le, same)) =
      rw (fits, same, checked_u)
        (inl (
          v_int t n,
          refl,
          rw (unsigned, as_u-v_int t int n le) refl,
          (rw (int_min-unsigned t unsigned) (omega arith), rw unsigned (omega arith)),
        ))
  stored e over n (inr (over', out)) = rw (over', checked_u) (inr (refl, out))

  module _ (a b : ℕ) (ha : a ≤ int_max_unsigned (int_bits t))
      (hb : b ≤ int_max_unsigned (int_bits t)) where
    sum-IsChecked :
        IsChecked t (pos a +ℤ pos b) (checked_u t (sum_overflows (int_bits t) a b) (u64 (a + b)))
    unfolding ◌+ℤ◌
    sum-IsChecked =
        let test = sum_test (int_bits t) a b width ha hb in
        stored _ _ _ (rw (int_min-unsigned t unsigned, unsigned) (ground (arith, test)))

    difference-IsChecked :
        IsChecked t (pos a -ℤ pos b) (checked_u t (ltb a b) (u64 (a + 2 ^ 64 - b)))
    unfolding ◌-ℤ◌ u64
    difference-IsChecked =
        let small = int_max_le (int_bits t) width in
        stored _ _ _ (rw (int_min-unsigned t unsigned, unsigned) (ground (arith, small, ha, hb)))

    product-IsChecked :
        IsChecked t
          (pos a *ℤ pos b)
          (checked_u t (product_overflows (int_bits t) a b) (u64 (a * b)))
    unfolding ◌*ℤ◌
    product-IsChecked =
        let test = product_test (int_bits t) a b width ha hb in
        stored _ _ _ (rw (int_min-unsigned t unsigned, unsigned) (ground (arith, test)))

-- At a given operator, both kinds of type.
module _ (t : TypeKind) (int : is_int t ≡ true) (l r : Value) where
  pub as_u_fits : (v : Value) → as_u v t ≤ int_max_unsigned (int_bits t)
  unfolding as_u bits_of
  as_u_fits v =
      let w = int_bits-IsWidth t int in
      let same : bits_of t ≡ int_bits t = ground arith in rw same (as_u_le (int_bits t) v.u w)

  pub by_sign :
      (P : ℤ → Result → Type 0) (op : TokenKind) (e : ℤ → ℤ → ℤ)
      → (is_signed_int t ≡ true → P (e (as_s l t) (as_s r t)) (arith_s t op (as_s l t) (as_s r t)))
      → ((a b : ℕ)
          → is_signed_int t ≡ false
          → a ≤ int_max_unsigned (int_bits t)
          → b ≤ int_max_unsigned (int_bits t)
          → P (e (pos a) (pos b)) (arith_u t op a b))
      → P (e (value_of t l) (value_of t r)) (
          if is_signed_int t
          then arith_s t op (as_s l t) (as_s r t)
          else arith_u t op (as_u l t) (as_u r t))
  by_sign P op e s u = elim (Bool-cases (is_signed_int t)) [
    | inl signed ↦ rw signed (s signed)
    | inr unsigned ↦ rw unsigned (u (as_u l t) (as_u r t) unsigned (as_u_fits l) (as_u_fits r))
  ]

-- `+`, `-` and `*`, and their optional forms before the result is wrapped, are exact at every integer
-- type: where the exact result is a value of the type, the operator gives that value, and else it
-- traps with an integer overflow.
pub int_arith-IsChecked :
    (t : TypeKind) (l r : Value) (op : TokenKind)
    → is_int t ≡ true
    → is_checked op ≡ true
    → IsChecked t (exact_s op (value_of t l) (value_of t r)) (int_arith t l r op)
unfolding int_arith arith_s arith_u exact_s is_checked
int_arith-IsChecked t l r TokenKind.plus int h =
    by_sign t int l r (IsChecked t) TokenKind.plus ◌+ℤ◌ (λ s. checked_s-IsChecked t s _)
      (λ a b u. sum-IsChecked t int u a b)
int_arith-IsChecked t l r TokenKind.plus_question int h =
    by_sign t int l r (IsChecked t) TokenKind.plus_question ◌+ℤ◌ (λ s. checked_s-IsChecked t s _)
      (λ a b u. sum-IsChecked t int u a b)
int_arith-IsChecked t l r TokenKind.minus int h =
    by_sign t int l r (IsChecked t) TokenKind.minus ◌-ℤ◌ (λ s. checked_s-IsChecked t s _)
      (λ a b u. difference-IsChecked t int u a b)
int_arith-IsChecked t l r TokenKind.minus_question int h =
    by_sign t int l r (IsChecked t) TokenKind.minus_question ◌-ℤ◌ (λ s. checked_s-IsChecked t s _)
      (λ a b u. difference-IsChecked t int u a b)
int_arith-IsChecked t l r TokenKind.star int h =
    by_sign t int l r (IsChecked t) TokenKind.star ◌*ℤ◌ (λ s. checked_s-IsChecked t s _)
      (λ a b u. product-IsChecked t int u a b)
int_arith-IsChecked t l r TokenKind.star_question int h =
    by_sign t int l r (IsChecked t) TokenKind.star_question ◌*ℤ◌ (λ s. checked_s-IsChecked t s _)
      (λ a b u. product-IsChecked t int u a b)
int_arith-IsChecked t l r _ int h = absurd (ground arith)
