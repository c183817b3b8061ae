-- ===== src/Interp/Arith/Widths.antt =====
-- The widths of the integer types, and what is read back from a stored integer.
use luce_seed.Base.Int.{ℤ, pos, negsuc, ◌≤ℤ◌, ltb_ℤ}
use luce_seed.Base.{ℕ, ◌≤◌, ◌≡◌, ◌⊎◌, inl, inr, arith, true, false, ◌||◌, if◌then◌else◌}
use luce_seed.Check.Kind.{
  TypeKind, int_bits, int_mask, int_max_signed, int_max_unsigned, int_min, is_int, is_signed_int,
}
use luce_seed.Interp.Arith.{cut, overflows}
use luce_seed.Interp.Value.{
  Value, as_s, as_u, bits_of, masked, sign_extended, to_i64, to_u64, v_int,
}

abbrev pub IsWidth : ℕ → Type 0
IsWidth w = (w ≡ 8) ⊎ ((w ≡ 16) ⊎ ((w ≡ 32) ⊎ (w ≡ 64)))

pub int_bits-IsWidth : (t : TypeKind) → is_int t ≡ true → IsWidth (int_bits t)
unfolding int_bits is_int
int_bits-IsWidth t h = ground arith

pub is_signed_int-is_int : (t : TypeKind) → is_signed_int t ≡ true → is_int t ≡ true
unfolding is_int is_signed_int
is_signed_int-is_int t h = ground arith

-- The greatest and the least value of a type.
abbrev pub max_of : TypeKind → ℕ
max_of t = if is_signed_int t then int_max_signed (int_bits t) else int_max_unsigned (int_bits t)

abbrev pub IsInRange : TypeKind → ℤ → Type 0
IsInRange t e = (int_min t ≤ℤ e) × (e ≤ℤ pos (max_of t))

-- The number that a value of an integer type stands for.
abbrev pub value_of : TypeKind → Value → ℤ
value_of t v = if is_signed_int t then as_s v t else pos (as_u v t)

read_back_s :
    (w : ℕ) (e : ℤ)
    → IsWidth w
    → negsuc (int_max_signed w) ≤ℤ e
    → e ≤ℤ pos (int_max_signed w)
    → sign_extended w (masked w (masked w (to_u64 e))) ≡ e
unfolding sign_extended masked to_u64 to_i64 int_mask int_max_signed
read_back_s w e (inl i) lo hi = rw i (ground (arith, rw i at lo, rw i at hi))
read_back_s w e (inr (inl i)) lo hi = rw i (ground (arith, rw i at lo, rw i at hi))
read_back_s w e (inr (inr (inl i))) lo hi = rw i (ground (arith, rw i at lo, rw i at hi))
read_back_s w e (inr (inr (inr i))) lo hi = rw i (ground (arith, rw i at lo, rw i at hi))

read_back_u : (w n : ℕ) → IsWidth w → n ≤ int_max_unsigned w → masked w (masked w n) ≡ n
unfolding masked int_mask int_max_unsigned
read_back_u w n (inl i) h = rw i (ground (arith, rw i at h))
read_back_u w n (inr (inl i)) h = rw i (ground (arith, rw i at h))
read_back_u w n (inr (inr (inl i))) h = rw i (ground (arith, rw i at h))
read_back_u w n (inr (inr (inr i))) h = rw i (ground (arith, rw i at h))

-- The test of the signed operators is exact, and a result that passes it is not cut.
test_at :
    (w : ℕ) (e : ℤ)
    → IsWidth w
    → let test =
        (cut e).1
        || ltb_ℤ (cut e).0 (negsuc (int_max_signed w))
        || ltb_ℤ (pos (int_max_signed w)) (cut e).0 in
      ((test ≡ false)
        × (negsuc (int_max_signed w) ≤ℤ e)
        × (e ≤ℤ pos (int_max_signed w))
        × ((cut e).0 ≡ e))
      ⊎ ((test ≡ true)
          × ((ltb_ℤ e (negsuc (int_max_signed w)) ≡ true)
              ⊎ (ltb_ℤ (pos (int_max_signed w)) e ≡ true)))
unfolding cut to_i64 to_u64 int_max_signed
test_at w e (inl i) = rw i (ground arith)
test_at w e (inr (inl i)) = rw i (ground arith)
test_at w e (inr (inr (inl i))) = rw i (ground arith)
test_at w e (inr (inr (inr i))) = rw i (ground arith)

pub int_min-signed :
    (t : TypeKind) → is_signed_int t ≡ true → int_min t ≡ negsuc (int_max_signed (int_bits t))
unfolding int_min int_max_signed int_bits is_signed_int
int_min-signed t h = ground arith

pub int_min-unsigned : (t : TypeKind) → is_signed_int t ≡ false → int_min t ≡ pos 0
unfolding int_min
int_min-unsigned t h = ground arith

module _ (t : TypeKind) (signed : is_signed_int t ≡ true) where
  width : IsWidth (int_bits t)
  width = int_bits-IsWidth t (is_signed_int-is_int t signed)

  bits_of_width : bits_of t ≡ int_bits t
  unfolding bits_of
  bits_of_width = let w = width in ground arith

  -- A number in the range of a signed type is read back as it was stored.
  pub as_s-v_int : (e : ℤ) → IsInRange t e → as_s (v_int t (to_u64 e)) t ≡ e
  unfolding as_s v_int
  as_s-v_int e h =
      rw (is_signed_int-is_int t signed, v_int, bits_of_width)
        (read_back_s (int_bits t) e width (rw (int_min-signed t signed) at h.0) (rw signed at h.1))

  pub overflows-exact :
      (e : ℤ)
      → ((overflows t (cut e) ≡ false) × IsInRange t e × ((cut e).0 ≡ e))
        ⊎ ((overflows t (cut e) ≡ true) × ¬ (IsInRange t e))
  unfolding overflows
  overflows-exact e =
      rw (int_min-signed t signed, signed, overflows)
        (let r = test_at (int_bits t) e width in ground (arith, r))

-- A number in the range of an unsigned type is read back as it was stored.
pub as_u-v_int :
    (t : TypeKind)
    → is_int t ≡ true
    → (n : ℕ) → n ≤ int_max_unsigned (int_bits t)
    → as_u (v_int t n) t ≡ n
unfolding as_u v_int bits_of
as_u-v_int t int n h =
    let w = int_bits-IsWidth t int in
    let same : bits_of t ≡ int_bits t = ground arith in
    rw (int, v_int, same) (read_back_u (int_bits t) n w h)

extended_range :
    (w u : ℕ)
    → IsWidth w
    → (negsuc (int_max_signed w) ≤ℤ sign_extended w (masked w u))
      × (sign_extended w (masked w u) ≤ℤ pos (int_max_signed w))
unfolding sign_extended masked to_i64 int_mask int_max_signed
extended_range w u (inl i) = rw i (ground arith)
extended_range w u (inr (inl i)) = rw i (ground arith)
extended_range w u (inr (inr (inl i))) = rw i (ground arith)
extended_range w u (inr (inr (inr i))) = rw i (ground arith)

-- What is read at a signed type is in its range.
pub as_s-IsInRange : (t : TypeKind) → is_signed_int t ≡ true → (v : Value) → IsInRange t (as_s v t)
unfolding as_s
as_s-IsInRange t signed v =
    rw (bits_of_width t signed, int_min-signed t signed, signed)
      (extended_range (int_bits t) v.u (width t signed))
