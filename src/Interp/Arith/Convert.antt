-- ===== src/Interp/Arith/Convert.antt =====
-- Conversions between integer types, and the wrapping sums and differences, against exact arithmetic.
use luce_seed.Base.Int.{ℤ, pos, negsuc, ◌+ℤ◌, ◌-ℤ◌, ◌≤ℤ◌, ltb_ℤ, is_negative}
use luce_seed.Base.Words.{u64}
use luce_seed.Base.{
  ℕ, ◌+◌, ◌-◌, ◌%◌, ◌^◌, ◌≤◌, ◌≡◌, ◌⊎◌, inl, inr, refl, arith, true, false, not, ◌&&◌, Bool-cases,
  leb, if◌then◌else◌,
}
use luce_seed.Check.Kind.{
  TypeKind, int_bits, int_mask, int_max_signed, int_max_unsigned, int_min, is_int, is_signed_int,
}
use luce_seed.Interp.Arith.Exact.{as_u_fits, by_sign, int_max_le}
use luce_seed.Interp.Arith.Widths.{
  IsInRange, IsWidth, as_s-IsInRange, as_s-v_int, as_u-v_int, int_bits-IsWidth, int_min-signed,
  int_min-unsigned, value_of,
}
use luce_seed.Interp.Arith.{
  Result, arith_s, arith_u, convert_int, fits_destination, int_arith, stored_bits, value, trap,
}
use luce_seed.Interp.Value.{Value, as_s, as_u, masked, to_i64, to_u64, v_int}
use luce_seed.Lex.Token.{TokenKind}

-- The bits of the number in two's complement at a width.
abbrev pub residue : ℕ → ℤ → ℕ
residue w (pos n) = n % 2 ^ w
residue w (negsuc n) = 2 ^ w - 1 - n % 2 ^ w

-- The numbers of all integer types together.
abbrev pub IsWide : ℤ → Type 0
IsWide e = (negsuc (2 ^ 63 - 1) ≤ℤ e) × (e ≤ℤ pos (2 ^ 64 - 1))

masked-to_u64 : (w : ℕ) (e : ℤ) → IsWidth w → masked w (to_u64 e) ≡ residue w e
unfolding masked to_u64 int_mask
masked-to_u64 w e (inl i) = rw i (ground arith)
masked-to_u64 w e (inr (inl i)) = rw i (ground arith)
masked-to_u64 w e (inr (inr (inl i))) = rw i (ground arith)
masked-to_u64 w e (inr (inr (inr i))) = rw i (ground arith)

max_signed_le : (w : ℕ) → IsWidth w → int_max_signed w ≤ 2 ^ 63 - 1
unfolding int_max_signed
max_signed_le w h = ground (arith, h)

-- A value of an integer type, as a sign and the bits of a 64-bit word.
module _ (src : TypeKind) (int : is_int src ≡ true) (x : Value) where
  pub source_parts :
      ((is_signed_int src && is_negative (as_s x src)) ≡ is_negative (value_of src x))
      × ((if is_signed_int src then to_u64 (as_s x src) else as_u x src) ≡ to_u64 (value_of src x))
      × IsWide (value_of src x)
  source_parts = elim (Bool-cases (is_signed_int src)) [
    | inl signed ↦
        let r = as_s-IsInRange src signed x in
        let small = max_signed_le (int_bits src) (int_bits-IsWidth src int) in
        rw signed (
          refl,
          refl,
          (
            omega (arith, small, rw (int_min-signed src signed) at r.0),
            omega (arith, small, rw signed at r.1),
          ),
        )
    | inr unsigned ↦
        let le = as_u_fits src int x x x in
        let small = int_max_le (int_bits src) (int_bits-IsWidth src int) in
        rw unsigned
          (refl, unfold to_u64 in omega (arith, le, small), (omega arith, omega (arith, le, small)))
  ]

pub fits-plain :
    (e : ℤ) (t : TypeKind)
    → is_int t ≡ true
    → fits_destination (is_negative e) (to_u64 e) t ≡ (
        if is_signed_int t
        then (if is_negative e
            then not (ltb_ℤ (to_i64 (to_u64 e)) (int_min t))
            else leb (to_u64 e) (int_max_signed (int_bits t)))
        else not (is_negative e) && leb (to_u64 e) (int_max_unsigned (int_bits t)))
unfolding fits_destination is_int
fits-plain e t h = ground (arith, h)

module _ (dest : TypeKind) (int : is_int dest ≡ true) (e : ℤ) where
  fits-exact :
      IsWide e
      → ((fits_destination (is_negative e) (to_u64 e) dest ≡ true) × IsInRange dest e)
        ⊎ ((fits_destination (is_negative e) (to_u64 e) dest ≡ false) × ¬ (IsInRange dest e))
  unfolding to_u64 to_i64
  fits-exact wide = elim (Bool-cases (is_signed_int dest)) [
    | inl signed ↦
        rw (fits-plain e dest int, signed, int_min-signed dest signed) (ground (arith, wide))
    | inr unsigned ↦
        rw (fits-plain e dest int, unsigned, int_min-unsigned dest unsigned) (ground (arith, wide))
  ]

  -- A number in range is read back as it was stored.
  stored-exact : IsInRange dest e → value_of dest (v_int dest (to_u64 e)) ≡ e
  stored-exact range = elim (Bool-cases (is_signed_int dest)) [
    | inl signed ↦ rw signed (as_s-v_int dest signed e range)
    | inr unsigned ↦ unsigned_case unsigned (rw (int_min-unsigned dest unsigned, unsigned) at range)
  ]
    where
      unsigned_case :
          is_signed_int dest ≡ false
          → (pos 0 ≤ℤ e) × (e ≤ℤ pos (int_max_unsigned (int_bits dest)))
          → value_of dest (v_int dest (to_u64 e)) ≡ e
      unsigned_case unsigned r =
          let small = int_max_le (int_bits dest) (int_bits-IsWidth dest int) in
          let same : pos (to_u64 e) ≡ e = unfold to_u64 in ground (arith, r, small) in
          let read = as_u-v_int dest int (to_u64 e) (ground (arith, same, r)) in
          rw (unsigned, read) same

v_int-residue :
    (t : TypeKind) (e : ℤ) → is_int t ≡ true → (v_int t (to_u64 e)).u ≡ residue (int_bits t) e
unfolding v_int
v_int-residue t e int = rw int (masked-to_u64 (int_bits t) e (int_bits-IsWidth t int))

pub stored_bits-is_int : (t : TypeKind) (n : ℕ) → is_int t ≡ true → stored_bits t n ≡ n
unfolding stored_bits is_int
stored_bits-is_int t n h = ground (arith, h)

-- A checked conversion gives the number that it was given, or traps where the type has no such number.
abbrev pub IsConverted : TypeKind → ℤ → Result → Type 0
IsConverted dest e r =
    ((v : Value) × (r ≡ value v) × (value_of dest v ≡ e) × IsInRange dest e)
    ⊎ ((r ≡ trap "integer conversion out of range") × ¬ (IsInRange dest e))

-- A checked conversion between two integer types gives the same number where the type that it goes to
-- has it, and traps where it has not; an unchecked one keeps the low bits of the number in two's
-- complement.
pub convert_int-exact :
    (x : Value) (src dest : TypeKind)
    → is_int src ≡ true
    → is_int dest ≡ true
    → IsConverted dest (value_of src x) (convert_int x src dest true)
      × ((v : Value) × (convert_int x src dest false ≡ value v)
          × (v.u ≡ residue (int_bits dest) (value_of src x)))
unfolding convert_int
convert_int-exact x src dest int int' =
    let e = value_of src x in
    let (negative, bits, wide) = source_parts src int x in
    rw (convert_int, negative, bits, stored_bits-is_int dest (to_u64 e) int')
      (
        elim (fits-exact dest int' e wide) [
          | inl (fits, range) ↦
              rw fits (inl (v_int dest (to_u64 e), refl, stored-exact dest int' e range, range))
          | inr (out, missing) ↦ rw out (inr (refl, missing))
        ],
        (v_int dest (to_u64 e), refl, v_int-residue dest e int'),
      )

wraps :
    (w : ℕ) (a b : ℤ)
    → IsWidth w
    → (masked w (u64 (to_u64 a + to_u64 b)) ≡ residue w (a +ℤ b))
      × (masked w (u64 (to_u64 a + 2 ^ 64 - to_u64 b)) ≡ residue w (a -ℤ b))
unfolding masked to_u64 int_mask u64 ◌+ℤ◌ ◌-ℤ◌
wraps w a b (inl i) = rw i (ground arith)
wraps w a b (inr (inl i)) = rw i (ground arith)
wraps w a b (inr (inr (inl i))) = rw i (ground arith)
wraps w a b (inr (inr (inr i))) = rw i (ground arith)

-- `+%` and `-%` give at every integer type the low bits of the exact result in two's complement.
pub int_arith-wraps :
    (t : TypeKind) (l r : Value)
    → is_int t ≡ true
    → ((v : Value) × (int_arith t l r TokenKind.plus_percent ≡ value v)
        × (v.u ≡ residue (int_bits t) (value_of t l +ℤ value_of t r)))
      × ((v : Value) × (int_arith t l r TokenKind.minus_percent ≡ value v)
          × (v.u ≡ residue (int_bits t) (value_of t l -ℤ value_of t r)))
unfolding int_arith
int_arith-wraps t l r int = (
  by_sign t int l r Wrapped TokenKind.plus_percent ◌+ℤ◌ (λ s. unfold arith_s in kept _ _ (at _ _).0)
      (λ a b u ha hb. unfold arith_u in kept _ _ (unsigned_case a b ha hb).0),
  by_sign t int l r Wrapped TokenKind.minus_percent ◌-ℤ◌
      (λ s. unfold arith_s in kept _ _ (at _ _).1)
      (λ a b u ha hb. unfold arith_u in kept _ _ (unsigned_case a b ha hb).1),
)
  where
    Wrapped : ℤ → Result → Type 0
    Wrapped e o = (v : Value) × (o ≡ value v) × (v.u ≡ residue (int_bits t) e)

    at :
        (a b : ℤ)
        → (masked (int_bits t) (u64 (to_u64 a + to_u64 b)) ≡ residue (int_bits t) (a +ℤ b))
          × (masked (int_bits t) (u64 (to_u64 a + 2 ^ 64 - to_u64 b))
              ≡ residue (int_bits t) (a -ℤ b))
    at a b = wraps (int_bits t) a b (int_bits-IsWidth t int)

    kept :
        (e : ℤ) (n : ℕ)
        → masked (int_bits t) n ≡ residue (int_bits t) e
        → Wrapped e (value (v_int t n))
    kept e n h = (v_int t n, refl, unfold v_int in rw int h)

    unsigned_case :
        (a b : ℕ)
        → a ≤ int_max_unsigned (int_bits t)
        → b ≤ int_max_unsigned (int_bits t)
        → (masked (int_bits t) (u64 (a + b)) ≡ residue (int_bits t) (pos a +ℤ pos b))
          × (masked (int_bits t) (u64 (a + 2 ^ 64 - b)) ≡ residue (int_bits t) (pos a -ℤ pos b))
    unsigned_case a b ha hb =
        let small = int_max_le (int_bits t) (int_bits-IsWidth t int) in
        let pa : to_u64 (pos a) ≡ a = unfold to_u64 in omega (arith, small, ha) in
        let pb : to_u64 (pos b) ≡ b = unfold to_u64 in omega (arith, small, hb) in
        rw (pa, pb) at (at (pos a) (pos b))
