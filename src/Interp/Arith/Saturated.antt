-- ===== src/Interp/Arith/Saturated.antt =====
-- The saturating operators, the wrapping sums and differences, and conversions, against exact arithmetic.
use luce_seed.Base.Int.{ℤ, pos, negsuc, ◌+ℤ◌, ◌-ℤ◌, ◌*ℤ◌, ◌≤ℤ◌, ltb_ℤ, is_negative}
use luce_seed.Base.Words.{u64}
use luce_seed.Base.{ℕ, ◌≤◌, ◌≡◌, inl, inr, refl, sym, ◌∙◌, arith, Bool, true, false, if◌then◌else◌}
use luce_seed.Check.Kind.{
  TypeKind, int_bits, int_max_signed, int_max_unsigned, int_min, is_int, is_signed_int,
}
use luce_seed.Interp.Arith.Exact.{by_sign, int_max_le, product_test, sum_test}
use luce_seed.Interp.Arith.Widths.{
  IsInRange, as_s-IsInRange, as_s-v_int, as_u-v_int, int_bits-IsWidth, int_min-signed,
  int_min-unsigned, max_of, overflows-exact, value_of,
}
use luce_seed.Interp.Arith.{
  Result, arith_s, arith_u, cut, differ, exact_s, int_arith, overflows, saturated_s, value,
}
use luce_seed.Interp.Value.{Value, to_u64, v_int}
use luce_seed.Lex.Token.{TokenKind}

-- The value nearest to `e` among those of the type.
abbrev pub clamp : TypeKind → ℤ → ℤ
clamp t e =
    if ltb_ℤ e (int_min t)
    then int_min t
    else if ltb_ℤ (pos (max_of t)) e
    then pos (max_of t)
    else e

abbrev pub IsSaturated : TypeKind → ℤ → Result → Type 0
IsSaturated t e r = (v : Value) × (r ≡ value v) × (value_of t v ≡ clamp t e)

-- Where the flag says so, the result cannot be too great, and else not too small.
abbrev IsDirected : TypeKind → Bool → ℤ → Type 0
IsDirected t true e = e ≤ℤ pos (max_of t)
IsDirected t false e = int_min t ≤ℤ e

module _ (t : TypeKind) (signed : is_signed_int t ≡ true) where
  least : IsInRange t (int_min t)
  least = rw (int_min-signed t signed, signed) (omega arith, omega arith)

  greatest : IsInRange t (pos (int_max_signed (int_bits t)))
  greatest = rw (int_min-signed t signed, signed) (omega arith, omega arith)

  saturated_s-IsSaturated :
      (low : Bool) (e : ℤ) → IsDirected t low e → IsSaturated t e (saturated_s t low e)
  unfolding saturated_s
  saturated_s-IsSaturated low e d = elim (overflows-exact t signed e) [
    | inl (fits, range, same) ↦
        rw (fits, saturated_s) (v_int t (to_u64 (cut e).0), refl, within fits range same)
    | inr (over, out) ↦ rw (over, saturated_s) (beyond low d out)
  ]
    where
      within :
          overflows t (cut e) ≡ false
          → IsInRange t e
          → (cut e).0 ≡ e
          → value_of t (v_int t (to_u64 (cut e).0)) ≡ clamp t e
      within fits range same =
          rw (signed, same, as_s-v_int t signed e range) (ground (arith, range, signed))

      beyond :
          (low : Bool)
          → IsDirected t low e
          → ¬ (IsInRange t e)
          → IsSaturated t e (
              value
                (v_int t (to_u64 (if low then int_min t else pos (int_max_signed (int_bits t))))))
      beyond true d out = (
        v_int t (to_u64 (int_min t)),
        refl,
        rw (signed, as_s-v_int t signed (int_min t) least) (ground (arith, out, d, signed)),
      )
      beyond false d out = (
        v_int t (to_u64 (pos (int_max_signed (int_bits t)))),
        refl,
        rw (signed, as_s-v_int t signed (pos (int_max_signed (int_bits t))) greatest)
            (ground (arith, out, d, signed)),
      )

-- The sums, differences and products of what a signed type holds lie on the side that the flag names.
module _ (t : TypeKind) (a b : ℤ) (ha : IsInRange t a) (hb : IsInRange t b) where
  sum-IsDirected : (lo : int_min t ≤ℤ pos 0) → IsDirected t (is_negative a) (a +ℤ b)
  unfolding ◌+ℤ◌
  sum-IsDirected lo = ground (arith, ha, hb, lo)

  difference-IsDirected :
      (lo : int_min t ≤ℤ negsuc (max_of t))
      → negsuc (max_of t) ≤ℤ int_min t
      → IsDirected t (is_negative a) (a -ℤ b)
  unfolding ◌-ℤ◌
  difference-IsDirected lo hi = ground (arith, ha, hb, lo, hi)

product-IsDirected :
    (t : TypeKind) (a b : ℤ)
    → int_min t ≤ℤ pos 0
    → IsDirected t (differ (is_negative a) (is_negative b)) (a *ℤ b)
unfolding ◌*ℤ◌ differ
product-IsDirected t (pos a) (pos b) lo = ground (arith, lo)
product-IsDirected t (pos a) (negsuc b) lo = ground (arith, lo)
product-IsDirected t (negsuc a) (pos b) lo = ground (arith, lo)
product-IsDirected t (negsuc a) (negsuc b) lo = ground (arith, lo)

module _ (t : TypeKind) (int : is_int t ≡ true) (unsigned : is_signed_int t ≡ false) where
  -- A number that is at most the greatest of the type is stored as it is.
  stored_u :
      (e : ℤ) (n : ℕ)
      → (n ≤ int_max_unsigned (int_bits t)) × (clamp t e ≡ pos n)
      → IsSaturated t e (value (v_int t n))
  stored_u e n h = (v_int t n, refl, read ∙ sym h.1)
    where
      read : value_of t (v_int t n) ≡ pos n
      read = rw (unsigned, as_u-v_int t int n h.0) refl

  clamp-u :
      (e : ℤ)
      → clamp t e ≡ (
          if ltb_ℤ e (pos 0)
          then pos 0
          else if ltb_ℤ (pos (int_max_unsigned (int_bits t))) e
          then pos (int_max_unsigned (int_bits t))
          else e)
  clamp-u e = rw (int_min-unsigned t unsigned, unsigned) refl

  module _ (a b : ℕ) (ha : a ≤ int_max_unsigned (int_bits t))
      (hb : b ≤ int_max_unsigned (int_bits t)) where
    sum-IsSaturated : IsSaturated t (pos a +ℤ pos b) (arith_u t TokenKind.plus_pipe a b)
    unfolding ◌+ℤ◌ arith_u
    sum-IsSaturated =
        let test = sum_test (int_bits t) a b (int_bits-IsWidth t int) ha hb in
        stored_u (pos a +ℤ pos b) _ (ground (arith, test, clamp-u (pos a +ℤ pos b)))

    difference-IsSaturated : IsSaturated t (pos a -ℤ pos b) (arith_u t TokenKind.minus_pipe a b)
    unfolding ◌-ℤ◌ arith_u u64
    difference-IsSaturated =
        let small = int_max_le (int_bits t) (int_bits-IsWidth t int) in
        stored_u (pos a -ℤ pos b) _ (ground (arith, small, ha, hb, clamp-u (pos a -ℤ pos b)))

    product-IsSaturated : IsSaturated t (pos a *ℤ pos b) (arith_u t TokenKind.star_pipe a b)
    unfolding ◌*ℤ◌ arith_u
    product-IsSaturated =
        let test = product_test (int_bits t) a b (int_bits-IsWidth t int) ha hb in
        stored_u (pos a *ℤ pos b) _ (ground (arith, test, clamp-u (pos a *ℤ pos b)))

unfoldable pub is_saturating : TokenKind → Bool
is_saturating TokenKind.plus_pipe = true
is_saturating TokenKind.minus_pipe = true
is_saturating TokenKind.star_pipe = true
is_saturating _ = false

-- `+|`, `-|` and `*|` give at every integer type the value nearest to the exact result, and never trap.
pub int_arith-IsSaturated :
    (t : TypeKind) (l r : Value) (op : TokenKind)
    → is_int t ≡ true
    → is_saturating op ≡ true
    → IsSaturated t (exact_s op (value_of t l) (value_of t r)) (int_arith t l r op)
unfolding int_arith arith_s exact_s is_saturating
int_arith-IsSaturated t l r TokenKind.plus_pipe int h =
    by_sign t int l r (IsSaturated t) TokenKind.plus_pipe ◌+ℤ◌
      (λ s. saturated_s-IsSaturated t s _ _ (
        sum-IsDirected t _ _ (as_s-IsInRange t s l) (as_s-IsInRange t s r)
          (rw (int_min-signed t s) (omega arith))))
      (λ a b u. sum-IsSaturated t int u a b)
int_arith-IsSaturated t l r TokenKind.minus_pipe int h =
    by_sign t int l r (IsSaturated t) TokenKind.minus_pipe ◌-ℤ◌
      (λ s. saturated_s-IsSaturated t s _ _ (
        difference-IsDirected t _ _ (as_s-IsInRange t s l) (as_s-IsInRange t s r)
          (rw (int_min-signed t s, s) (omega arith)) (rw (int_min-signed t s, s) (omega arith))))
      (λ a b u. difference-IsSaturated t int u a b)
int_arith-IsSaturated t l r TokenKind.star_pipe int h =
    by_sign t int l r (IsSaturated t) TokenKind.star_pipe ◌*ℤ◌
      (λ s.
        saturated_s-IsSaturated t s _ _
          (product-IsDirected t _ _ (rw (int_min-signed t s) (omega arith))))
      (λ a b u. product-IsSaturated t int u a b)
int_arith-IsSaturated t l r _ int h = absurd (ground arith)
