-- ===== src/Emit/Arith/Unsigned.antt =====
-- The helpers of src/runtime at an unsigned type against the operators of src/interp/ops.cpp.
use luce_seed.Base.Int.{ℤ, pos}
use luce_seed.Base.Words.{u64, u64_max}
use luce_seed.Base.{
  ℕ, ◌+◌, ◌-◌, ◌*◌, ◌%◌, ◌^◌, ◌≤◌, ◌≡◌, inl, inr, refl, sym, ap, arith, Bool, true, false,
  Bool-cases, some, ltb, leb, ◌==◌, if◌then◌else◌,
}
use luce_seed.Check.Kind.{TypeKind, int_bits, int_mask, int_max_unsigned, is_int, is_signed_int}
use luce_seed.Emit.Arith.Signed.{as_type, is_helper_arith, masked_twice, observed}
use luce_seed.Emit.Arith.{Helper, cast_to, helper_of, helper_u}
use luce_seed.Interp.Arith.Exact.{int_max_le}
use luce_seed.Interp.Arith.Widths.{IsWidth, int_bits-IsWidth, value_of}
use luce_seed.Interp.Arith.{Result, arith_u, checked_u, product_overflows, sum_overflows}
use luce_seed.Interp.Value.{as_u, bits_of, masked, to_u64, v_int}
use luce_seed.Lex.Token.{TokenKind}
use luce_seed.Runtime.Arith.{
  add_u, adds_u, addw_u, div_u, mod_u, mul_u, muls_u, mulw_u, product_is_outside, sub_u, subs_u,
  subw_u,
}
use luce_seed.Runtime.Word.{Outcome, done, ◌>>=◌, mask_bits, stop, zext}

pub zext_lem : (w n : ℕ) → IsWidth w → n ≤ int_max_unsigned w → zext n w ≡ n
unfolding zext mask_bits int_max_unsigned int_mask
zext_lem w n h le = ground (arith, h, le)

pub mask_lem : (w : ℕ) → IsWidth w → mask_bits w ≡ int_max_unsigned w
unfolding mask_bits int_max_unsigned int_mask
mask_lem w h = ground (arith, h)

zext-masked : (w n : ℕ) → IsWidth w → zext n w ≡ masked w n
unfolding zext mask_bits masked int_mask
zext-masked w n h = ground (arith, h)

pub masked_word : (w n : ℕ) → IsWidth w → masked w (n % 2 ^ 64) ≡ masked w n
unfolding masked int_mask
masked_word w n (inl i) = rw i (ground arith)
masked_word w n (inr (inl i)) = rw i (ground arith)
masked_word w n (inr (inr (inl i))) = rw i (ground arith)
masked_word w n (inr (inr (inr i))) = rw i (ground arith)

full_mask : (w : ℕ) → leb 64 w ≡ true → int_max_unsigned w ≡ u64_max
unfolding int_max_unsigned int_mask
full_mask w h = rw h refl

-- A result that is an unsigned word.
abbrev pub unsigned_outcome : Outcome ℕ → Outcome ℤ
unsigned_outcome o = o >>= λ n. done (pos n)

module _ (t : TypeKind) (int : is_int t ≡ true) (unsigned : is_signed_int t ≡ false) where
  width : IsWidth (int_bits t)
  width = int_bits-IsWidth t int

  same_width : bits_of t ≡ int_bits t
  unfolding bits_of
  same_width = let w = width in ground arith

  pub read_back_u : (n : ℕ) → value_of t (v_int t n) ≡ pos (masked (int_bits t) n)
  unfolding as_u v_int
  read_back_u n = rw (unsigned, int, same_width, v_int, masked_twice (int_bits t) n width) refl

  pub cast_lem : (n : ℕ) → cast_to t (pos n) ≡ pos (masked (int_bits t) n)
  unfolding cast_to to_u64
  cast_lem n = rw (unsigned, masked_word (int_bits t) n width) refl

  pub result_u_lem : (n : ℕ) → cast_to t (pos n) ≡ value_of t (v_int t n)
  result_u_lem n = rw (cast_lem n, read_back_u n) refl

  pub wrap_u_lem : (n : ℕ) → cast_to t (pos (zext n (int_bits t))) ≡ value_of t (v_int t n)
  wrap_u_lem n =
      rw
        (
          cast_lem (zext n (int_bits t)),
          read_back_u n,
          zext-masked (int_bits t) n width,
          masked_twice (int_bits t) n width,
        )
        refl

  module _ (a b : ℕ) (ha : a ≤ int_max_unsigned (int_bits t))
      (hb : b ≤ int_max_unsigned (int_bits t)) where
    abbrev IsSame : Outcome ℕ → Result → Type 0
    IsSame o r = as_type t (unsigned_outcome o) ≡ observed t r

    za : zext a (int_bits t) ≡ a
    za = zext_lem (int_bits t) a width ha

    zb : zext b (int_bits t) ≡ b
    zb = zext_lem (int_bits t) b width hb

    checked_case :
        (over : Bool) (n m : ℕ)
        → (over ≡ false → cast_to t (pos n) ≡ value_of t (v_int t m))
        → IsSame (if over then stop "integer overflow" else done n) (checked_u t over m)
    unfolding checked_u
    checked_case true n m h = refl
    checked_case false n m h = ap done (h refl)

    sum_lem :
        IsSame (add_u a b (int_bits t)) (checked_u t (sum_overflows (int_bits t) a b) (u64 (a + b)))
    unfolding add_u sum_overflows
    sum_lem =
        rw (za, zb, mask_lem (int_bits t) width)
          (elim (Bool-cases (leb 64 (int_bits t))) [
            | inl wide ↦ rw wide (checked_case _ _ _ (λ h. result_u_lem _))
            | inr narrow ↦ rw narrow (checked_case _ _ _ (λ h. result_u_lem _))
          ])

    small : int_max_unsigned (int_bits t) ≤ u64_max
    small = int_max_le (int_bits t) width

    difference : ltb a b ≡ false → a - b ≡ u64 (a + 2 ^ 64 - b)
    unfolding u64
    difference h = ground (arith, h, small, ha, hb)

    difference_lem : IsSame (sub_u a b (int_bits t)) (checked_u t (ltb a b) (u64 (a + 2 ^ 64 - b)))
    unfolding sub_u
    difference_lem = rw (za, zb) (checked_case _ _ _ (λ h. rw (difference h) (result_u_lem _)))

    product_outside : product_is_outside a b (int_bits t) ≡ product_overflows (int_bits t) a b
    unfolding product_is_outside product_overflows
    product_outside = rw (mask_lem (int_bits t) width) refl

    product_lem :
        IsSame
          (mul_u a b (int_bits t))
          (checked_u t (product_overflows (int_bits t) a b) (u64 (a * b)))
    unfolding mul_u
    product_lem = rw (za, zb, product_outside) (checked_case _ _ _ (λ h. wrap_u_lem _))

    quotient_lem : IsSame (div_u a b (int_bits t)) (arith_u t TokenKind.slash_slash a b)
    unfolding div_u arith_u
    quotient_lem =
        rw (za, zb)
          (elim (Bool-cases (b == 0)) [
            | inl by_zero ↦ rw by_zero refl
            | inr other ↦ rw other (ap done (result_u_lem _))
          ])

    remainder_lem : IsSame (mod_u a b (int_bits t)) (arith_u t TokenKind.percent a b)
    unfolding mod_u arith_u
    remainder_lem =
        rw (za, zb)
          (elim (Bool-cases (b == 0)) [
            | inl by_zero ↦ rw by_zero refl
            | inr other ↦ rw other (ap done (result_u_lem _))
          ])

    sum_saturated_lem : IsSame (done (adds_u a b (int_bits t))) (arith_u t TokenKind.plus_pipe a b)
    unfolding adds_u arith_u sum_overflows
    sum_saturated_lem =
        rw (za, zb, mask_lem (int_bits t) width)
          (elim (Bool-cases (leb 64 (int_bits t))) [
            | inl wide ↦ rw (wide, full wide) (ap done (result_u_lem _))
            | inr narrow ↦ rw narrow (ap done (result_u_lem _))
          ])
      where
        full : leb 64 (int_bits t) ≡ true → u64_max ≡ int_max_unsigned (int_bits t)
        full h = sym (full_mask (int_bits t) h)

    difference_saturated_lem :
        IsSame (done (subs_u a b (int_bits t))) (arith_u t TokenKind.minus_pipe a b)
    unfolding subs_u arith_u
    difference_saturated_lem =
        rw (za, zb)
          (elim (Bool-cases (ltb a b)) [
            | inl below ↦ rw below (ap done (result_u_lem 0))
            | inr fits ↦ rw (fits, difference fits) (ap done (result_u_lem _))
          ])

    product_saturated_lem :
        IsSame (done (muls_u a b (int_bits t))) (arith_u t TokenKind.star_pipe a b)
    unfolding muls_u arith_u
    product_saturated_lem =
        rw (za, zb, product_outside, mask_lem (int_bits t) width)
          (elim (Bool-cases (product_overflows (int_bits t) a b)) [
            | inl over ↦ rw over (ap done (result_u_lem _))
            | inr fits ↦ rw fits (ap done (wrap_u_lem _))
          ])

    -- The helper that is called for an operator computes what the interpreter does.
    pub helper_u_lem :
        (op : TokenKind)
        → is_helper_arith op ≡ true
        → (name : Helper) × (helper_of op ≡ some name)
          × IsSame (helper_u name a b (int_bits t)) (arith_u t op a b)
    unfolding helper_of helper_u arith_u is_helper_arith
    helper_u_lem TokenKind.plus h = (Helper.add, refl, sum_lem)
    helper_u_lem TokenKind.minus h = (Helper.sub, refl, difference_lem)
    helper_u_lem TokenKind.star h = (Helper.mul, refl, product_lem)
    helper_u_lem TokenKind.slash_slash h = (Helper.div, refl, quotient_lem)
    helper_u_lem TokenKind.percent h = (Helper.modulo, refl, remainder_lem)
    helper_u_lem TokenKind.plus_percent h =
        (Helper.addw, refl, unfold addw_u in ap done (wrap_u_lem _))
    helper_u_lem TokenKind.minus_percent h =
        (Helper.subw, refl, unfold subw_u in ap done (wrap_u_lem _))
    helper_u_lem TokenKind.star_percent h =
        (Helper.mulw, refl, unfold mulw_u in ap done (wrap_u_lem _))
    helper_u_lem TokenKind.plus_pipe h = (Helper.adds, refl, sum_saturated_lem)
    helper_u_lem TokenKind.minus_pipe h = (Helper.subs, refl, difference_saturated_lem)
    helper_u_lem TokenKind.star_pipe h = (Helper.muls, refl, product_saturated_lem)
    helper_u_lem _ h = absurd (ground arith)
