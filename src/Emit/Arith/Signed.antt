-- ===== src/Emit/Arith/Signed.antt =====
-- The helpers of src/runtime at a signed type against the operators of src/interp/ops.cpp.
use luce_seed.Base.Int.{ℤ, pos, negsuc, ◌≤ℤ◌, eqb_ℤ, tdiv, tmod}
use luce_seed.Base.{ℕ, ◌≡◌, inl, inr, refl, arith, Bool, true, false, ◌&&◌, Bool-cases, some, ap}
use luce_seed.Check.Kind.{
  TypeKind, int_bits, int_mask, int_max_signed, int_min, is_int, is_signed_int,
}
use luce_seed.Emit.Arith.{Helper, as_i64, cast_to, helper_of, helper_s}
use luce_seed.Interp.Arith.Widths.{IsInRange, IsWidth, int_bits-IsWidth, int_min-signed, value_of}
use luce_seed.Interp.Arith.{
  Result, arith_s, checked_s, cut, divide_s, exact_s, overflows, saturated_s, trap, value,
}
use luce_seed.Interp.Value.{as_s, bits_of, masked, sign_extended, to_i64, to_u64, v_int}
use luce_seed.Lex.Token.{TokenKind}
use luce_seed.Runtime.Arith.{
  add_s, adds_s, addw_s, checked, div_s, mod_s, mul_s, muls_s, mulw_s, saturated, sub_s, subs_s,
  subw_s, wrapped,
}
use luce_seed.Runtime.Word.{
  Outcome, done, ◌>>=◌, is_outside, mask_bits, sext, smax, smin, stop, zext,
}

-- What the interpreter's result is in a compiled program.
abbrev pub observed : TypeKind → Result → Outcome ℤ
observed t (value v) = done (value_of t v)
observed t (trap message) = stop message

abbrev pub as_type : TypeKind → Outcome ℤ → Outcome ℤ
as_type t o = o >>= λ e. done (cast_to t e)

pub sext_lem :
    (w : ℕ) (e : ℤ)
    → IsWidth w
    → negsuc (int_max_signed w) ≤ℤ e
    → e ≤ℤ pos (int_max_signed w)
    → sext e w ≡ e
unfolding sext zext mask_bits to_u64 to_i64 int_max_signed
sext_lem w e (inl i) lo hi = rw i (ground (arith, rw i at lo, rw i at hi))
sext_lem w e (inr (inl i)) lo hi = rw i (ground (arith, rw i at lo, rw i at hi))
sext_lem w e (inr (inr (inl i))) lo hi = rw i (ground (arith, rw i at lo, rw i at hi))
sext_lem w e (inr (inr (inr i))) lo hi = rw i (ground (arith, rw i at lo, rw i at hi))

as_i64_lem :
    (w : ℕ) (e : ℤ)
    → IsWidth w
    → negsuc (int_max_signed w) ≤ℤ e
    → e ≤ℤ pos (int_max_signed w)
    → to_i64 (to_u64 e) ≡ e
unfolding to_u64 to_i64 int_max_signed
as_i64_lem w e (inl i) lo hi = ground (arith, rw i at lo, rw i at hi)
as_i64_lem w e (inr (inl i)) lo hi = ground (arith, rw i at lo, rw i at hi)
as_i64_lem w e (inr (inr (inl i))) lo hi = ground (arith, rw i at lo, rw i at hi)
as_i64_lem w e (inr (inr (inr i))) lo hi = ground (arith, rw i at lo, rw i at hi)

pub bounds_lem :
    (w : ℕ) → IsWidth w → (smin w ≡ negsuc (int_max_signed w)) × (smax w ≡ pos (int_max_signed w))
unfolding smin smax int_max_signed
bounds_lem w h = ground (arith, h)

-- A stored word is cut to its width once more when it is read.
pub masked_twice : (w n : ℕ) → IsWidth w → masked w (masked w n) ≡ masked w n
unfolding masked int_mask
masked_twice w n h = ground (arith, h)

pub wrapped_lem : (w n : ℕ) → IsWidth w → masked w (to_u64 (wrapped n w)) ≡ masked w n
unfolding wrapped sext zext mask_bits masked int_mask to_u64 to_i64
wrapped_lem w n (inl i) = rw i (ground arith)
wrapped_lem w n (inr (inl i)) = rw i (ground arith)
wrapped_lem w n (inr (inr (inl i))) = rw i (ground arith)
wrapped_lem w n (inr (inr (inr i))) = rw i (ground arith)

-- The operators that a helper computes, the shifts apart.
unfoldable pub is_helper_arith : TokenKind → Bool
is_helper_arith TokenKind.plus = true
is_helper_arith TokenKind.minus = true
is_helper_arith TokenKind.star = true
is_helper_arith TokenKind.slash_slash = true
is_helper_arith TokenKind.percent = true
is_helper_arith TokenKind.plus_percent = true
is_helper_arith TokenKind.minus_percent = true
is_helper_arith TokenKind.star_percent = true
is_helper_arith TokenKind.plus_pipe = true
is_helper_arith TokenKind.minus_pipe = true
is_helper_arith TokenKind.star_pipe = true
is_helper_arith _ = false

module _ (t : TypeKind) (signed : is_signed_int t ≡ true) where
  int : is_int t ≡ true
  unfolding is_int is_signed_int
  int = ground (arith, signed)

  width : IsWidth (int_bits t)
  width = int_bits-IsWidth t int

  same_width : bits_of t ≡ int_bits t
  unfolding bits_of
  same_width = let w = width in ground arith

  -- A word is read back as the C cast reads it.
  pub read_back :
      (n : ℕ) → value_of t (v_int t n) ≡ sign_extended (int_bits t) (masked (int_bits t) n)
  unfolding as_s v_int
  read_back n = rw (signed, int, same_width, v_int, masked_twice (int_bits t) n width) refl

  pub result_lem : (e : ℤ) → cast_to t e ≡ value_of t (v_int t (to_u64 e))
  unfolding cast_to
  result_lem e = rw (read_back (to_u64 e), signed) refl

  pub wrap_lem : (n : ℕ) → cast_to t (wrapped n (int_bits t)) ≡ value_of t (v_int t n)
  unfolding cast_to
  wrap_lem n = rw (read_back n, signed, wrapped_lem (int_bits t) n width) refl

  pub least : smin (int_bits t) ≡ int_min t
  least = rw (int_min-signed t signed) (bounds_lem (int_bits t) width).0

  greatest : smax (int_bits t) ≡ pos (int_max_signed (int_bits t))
  greatest = (bounds_lem (int_bits t) width).1

  outside_lem : (x : ℤ × Bool) → is_outside x (int_bits t) ≡ overflows t x
  unfolding is_outside overflows
  outside_lem x = rw (least, greatest) refl

  checked_lem : (e : ℤ) → as_type t (checked e (int_bits t)) ≡ observed t (checked_s t e)
  unfolding checked checked_s
  checked_lem e =
      rw (checked, checked_s, outside_lem (cut e))
        (elim (Bool-cases (overflows t (cut e))) [
          | inl over ↦ rw over refl
          | inr fits ↦ rw fits (ap done (result_lem (cut e).0))
        ])

  saturated_lem :
      (low : Bool) (e : ℤ)
      → done (cast_to t (saturated low e (int_bits t))) ≡ observed t (saturated_s t low e)
  unfolding saturated saturated_s
  saturated_lem low e =
      rw (saturated, saturated_s, outside_lem (cut e), least, greatest) (ap done (result_lem _))

  in_width :
      (e : ℤ)
      → IsInRange t e
      → (negsuc (int_max_signed (int_bits t)) ≤ℤ e) × (e ≤ℤ pos (int_max_signed (int_bits t)))
  in_width e h = (rw (int_min-signed t signed) at h.0, rw signed at h.1)

  pub word_lem : (e : ℤ) → IsInRange t e → to_i64 (to_u64 e) ≡ e
  word_lem e h = as_i64_lem (int_bits t) e width (in_width e h).0 (in_width e h).1

  pub extended_lem : (e : ℤ) → IsInRange t e → sext e (int_bits t) ≡ e
  extended_lem e h = sext_lem (int_bits t) e width (in_width e h).0 (in_width e h).1

  module _ (a b : ℤ) (ha : IsInRange t a) (hb : IsInRange t b) where
    quotient_lem : as_type t (div_s a b (int_bits t)) ≡ observed t (divide_s t true a b)
    unfolding div_s divide_s
    quotient_lem =
        rw (div_s, divide_s, extended_lem a ha, extended_lem b hb, least)
          (elim (Bool-cases (eqb_ℤ b (pos 0))) [
            | inl by_zero ↦ rw by_zero refl
            | inr other ↦ rw other (elim (Bool-cases (eqb_ℤ a (int_min t) && eqb_ℤ b (negsuc 0))) [
              | inl over ↦ rw over refl
              | inr fits ↦ rw fits (ap done (result_lem (tdiv a b)))
            ])
          ])

    remainder_lem : as_type t (mod_s a b (int_bits t)) ≡ observed t (divide_s t false a b)
    unfolding mod_s divide_s
    remainder_lem =
        rw (mod_s, divide_s, extended_lem a ha, extended_lem b hb, least)
          (elim (Bool-cases (eqb_ℤ b (pos 0))) [
            | inl by_zero ↦ rw by_zero refl
            | inr other ↦ rw other (elim (Bool-cases (eqb_ℤ a (int_min t) && eqb_ℤ b (negsuc 0))) [
              | inl over ↦ rw over refl
              | inr fits ↦ rw fits (ap done (result_lem (tmod a b)))
            ])
          ])

    -- The helper that is called for an operator computes what the interpreter does.
    pub helper_s_lem :
        (op : TokenKind)
        → is_helper_arith op ≡ true
        → (name : Helper) × (helper_of op ≡ some name)
          × (as_type t (helper_s name (as_i64 a) (as_i64 b) (int_bits t))
              ≡ observed t (arith_s t op a b))
    unfolding helper_of helper_s arith_s is_helper_arith exact_s
    helper_s_lem TokenKind.plus h = (
      Helper.add,
      refl,
      rw (word_lem a ha, word_lem b hb)
          (unfold add_s in rw (extended_lem a ha, extended_lem b hb) (checked_lem _)),
    )
    helper_s_lem TokenKind.minus h = (
      Helper.sub,
      refl,
      rw (word_lem a ha, word_lem b hb)
          (unfold sub_s in rw (extended_lem a ha, extended_lem b hb) (checked_lem _)),
    )
    helper_s_lem TokenKind.star h = (
      Helper.mul,
      refl,
      rw (word_lem a ha, word_lem b hb)
          (unfold mul_s in rw (extended_lem a ha, extended_lem b hb) (checked_lem _)),
    )
    helper_s_lem TokenKind.slash_slash h =
        (Helper.div, refl, rw (word_lem a ha, word_lem b hb) quotient_lem)
    helper_s_lem TokenKind.percent h =
        (Helper.modulo, refl, rw (word_lem a ha, word_lem b hb) remainder_lem)
    helper_s_lem TokenKind.plus_percent h = (
      Helper.addw,
      refl,
      rw (word_lem a ha, word_lem b hb)
          (unfold addw_s in rw (extended_lem a ha, extended_lem b hb) (ap done (wrap_lem _))),
    )
    helper_s_lem TokenKind.minus_percent h = (
      Helper.subw,
      refl,
      rw (word_lem a ha, word_lem b hb)
          (unfold subw_s in rw (extended_lem a ha, extended_lem b hb) (ap done (wrap_lem _))),
    )
    helper_s_lem TokenKind.star_percent h = (
      Helper.mulw,
      refl,
      rw (word_lem a ha, word_lem b hb)
          (unfold mulw_s in rw (extended_lem a ha, extended_lem b hb) (ap done (wrap_lem _))),
    )
    helper_s_lem TokenKind.plus_pipe h = (
      Helper.adds,
      refl,
      rw (word_lem a ha, word_lem b hb)
          (unfold adds_s in rw (extended_lem a ha, extended_lem b hb) (saturated_lem _ _)),
    )
    helper_s_lem TokenKind.minus_pipe h = (
      Helper.subs,
      refl,
      rw (word_lem a ha, word_lem b hb)
          (unfold subs_s in rw (extended_lem a ha, extended_lem b hb) (saturated_lem _ _)),
    )
    helper_s_lem TokenKind.star_pipe h = (
      Helper.muls,
      refl,
      rw (word_lem a ha, word_lem b hb)
          (unfold muls_s in rw (extended_lem a ha, extended_lem b hb) (saturated_lem _ _)),
    )
    helper_s_lem _ h = absurd (ground arith)
