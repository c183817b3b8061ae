-- ===== src/Emit/Arith/Words.antt =====
-- The bit operators and the shifts of a compiled program against those of src/interp/ops.cpp.
use Prim.Native.Nat.{bit_and, bit_or, bit_xor, differ, max, min}
use luce_seed.Base.Bits.{bit_and_digit, bit_or_digit, bit_xor_digit, digitwise_low}
use luce_seed.Base.Int.{ℤ, pos, negsuc}
use luce_seed.Base.{
  ℕ, zero, suc, ◌%◌, ◌^◌, ◌<◌, ◌≡◌, inl, inr, refl, sym, ◌∙◌, ap, arith, true, Bool-cases,
  if◌then◌else◌,
}
use luce_seed.Check.Kind.{TypeKind, int_bits, int_mask, is_int, is_signed_int}
use luce_seed.Emit.Arith.{BitOperator, bit_operation, bits_infix, cast_to}
use luce_seed.Emit.Arith.Signed.{masked_twice, read_back}
use luce_seed.Emit.Arith.Unsigned.{masked_word, read_back_u}
use luce_seed.Interp.Arith.Widths.{IsWidth, int_bits-IsWidth, value_of}
use luce_seed.Interp.Value.{
  Value, as_s, as_u, bits_of, masked, sign_extended, to_i64, to_u64, v_int,
}
use native.Mathlib.Nat.{mod-mod}

differ_small : (a b : ℕ) → a < 2 → b < 2 → differ a b < 2
differ_small zero b p q = q
differ_small (suc zero) zero p q = omega arith
differ_small (suc zero) (suc zero) p q = omega arith
differ_small (suc zero) (suc (suc b)) p q = absurd (omega arith)
differ_small (suc (suc a)) b p q = absurd (omega arith)

pub bit_operation-low :
    (op : BitOperator) (k x y : ℕ)
    → bit_operation op (x % 2 ^ k) (y % 2 ^ k) ≡ bit_operation op x y % 2 ^ k
unfolding bit_operation
bit_operation-low BitOperator.ampersand k x y =
    digitwise_low bit_and min bit_and_digit (λ a b p q. ground arith) refl k x y
bit_operation-low BitOperator.bar k x y =
    digitwise_low bit_or max bit_or_digit (λ a b p q. ground arith) refl k x y
bit_operation-low BitOperator.hat k x y =
    digitwise_low bit_xor differ bit_xor_digit differ_small refl k x y

pub masked-power : (w n : ℕ) → IsWidth w → masked w n ≡ n % 2 ^ w
unfolding masked int_mask
masked-power w n (inl i) = rw i refl
masked-power w n (inr (inl i)) = rw i refl
masked-power w n (inr (inr (inl i))) = rw i refl
masked-power w n (inr (inr (inr i))) = rw i refl

there_and_back : (n : ℕ) → to_u64 (to_i64 (n % 2 ^ 64)) ≡ n % 2 ^ 64
unfolding to_u64 to_i64
there_and_back n = ground arith

word-low : (e : ℤ) → to_u64 e ≡ to_u64 e % 2 ^ 64
unfolding to_u64
word-low (pos n) = omega arith
word-low (negsuc n) = omega arith

operation-low :
    (op : BitOperator) (a b : ℤ)
    → bit_operation op (to_u64 a) (to_u64 b) ≡ bit_operation op (to_u64 a) (to_u64 b) % 2 ^ 64
operation-low op a b =
    ap (λ n. bit_operation op n (to_u64 b)) (word-low a)
    ∙ ap (λ n. bit_operation op (to_u64 a % 2 ^ 64) n) (word-low b)
    ∙ bit_operation-low op 64 (to_u64 a) (to_u64 b)

through :
    (op : BitOperator) (a b : ℤ)
    → to_u64 (to_i64 (bit_operation op (to_u64 a) (to_u64 b)))
      ≡ bit_operation op (to_u64 a) (to_u64 b)
through op a b = rw (operation-low op a b) (there_and_back (bit_operation op (to_u64 a) (to_u64 b)))

-- The word of a bit operator's result.
to_u64-bits_infix :
    (op : BitOperator) (a b : ℤ)
    → to_u64 (bits_infix op a b) ≡ bit_operation op (to_u64 a) (to_u64 b)
unfolding bits_infix
to_u64-bits_infix op (pos a) (pos b) = unfold to_u64 in sym (bit_operation-low op 64 a b)
to_u64-bits_infix op (pos a) (negsuc b) = through op (pos a) (negsuc b)
to_u64-bits_infix op (negsuc a) b = through op (negsuc a) b

abbrev extend : TypeKind → ℕ → ℤ
extend t n = if is_signed_int t then sign_extended (int_bits t) n else pos n

extended_word :
    (w u : ℕ) → IsWidth w → masked w (to_u64 (sign_extended w (masked w u))) ≡ masked w u
unfolding sign_extended masked int_mask to_u64 to_i64
extended_word w u (inl i) = rw i (ground arith)
extended_word w u (inr (inl i)) = rw i (ground arith)
extended_word w u (inr (inr (inl i))) = rw i (ground arith)
extended_word w u (inr (inr (inr i))) = rw i (ground arith)

module _ (t : TypeKind) (int : is_int t ≡ true) where
  width : IsWidth (int_bits t)
  width = int_bits-IsWidth t int

  same_width : bits_of t ≡ int_bits t
  unfolding bits_of
  same_width = let w = width in ground arith

  -- A stored word, as a number.
  stored_lem : (n : ℕ) → value_of t (v_int t n) ≡ extend t (masked (int_bits t) n)
  stored_lem n = elim (Bool-cases (is_signed_int t)) [
    | inl signed ↦ read_back t signed n ∙ rw signed refl
    | inr unsigned ↦ read_back_u t int unsigned n ∙ rw unsigned refl
  ]

  cast_lem : (e : ℤ) → cast_to t e ≡ extend t (masked (int_bits t) (to_u64 e))
  unfolding cast_to
  cast_lem e = refl

  pub low_word : (v : Value) → masked (int_bits t) (to_u64 (value_of t v)) ≡ as_u v t
  unfolding as_s as_u
  low_word v = elim (Bool-cases (is_signed_int t)) [
    | inl signed ↦ rw (signed, same_width) (extended_word (int_bits t) v.u width)
    | inr unsigned ↦
        rw (unsigned, same_width)
          (unfold to_u64 in
            masked_word (int_bits t) (masked (int_bits t) v.u) width
            ∙ masked_twice (int_bits t) v.u width)
  ]

  -- Numbers of the same low digits are the same in the type.
  pub same_result :
      (e : ℤ) (n : ℕ)
      → masked (int_bits t) (to_u64 e) ≡ masked (int_bits t) n
      → cast_to t e ≡ value_of t (v_int t n)
  same_result e n h = cast_lem e ∙ rw h (sym (stored_lem n))

  operation_cut :
      (op : BitOperator) (x y : ℕ)
      → masked (int_bits t) (bit_operation op x y)
        ≡ masked (int_bits t) (bit_operation op (masked (int_bits t) x) (masked (int_bits t) y))
  operation_cut op x y =
      rw
        (
          masked-power (int_bits t) x width,
          masked-power (int_bits t) y width,
          bit_operation-low op (int_bits t) x y,
          masked-power (int_bits t) (bit_operation op x y) width,
          masked-power (int_bits t) (bit_operation op x y % 2 ^ int_bits t) width,
        )
        (sym (mod-mod (bit_operation op x y) (2 ^ int_bits t)))

  operation_word :
      (op : BitOperator) (a b : ℤ) (x y : ℕ)
      → masked (int_bits t) (to_u64 a) ≡ x
      → masked (int_bits t) (to_u64 b) ≡ y
      → masked (int_bits t) (to_u64 (bits_infix op a b))
        ≡ masked (int_bits t) (bit_operation op x y)
  operation_word op a b x y hx hy =
      ap (masked (int_bits t)) (to_u64-bits_infix op a b)
      ∙ operation_cut op (to_u64 a) (to_u64 b)
      ∙ rw (hx, hy) refl

  pub bits_lem :
      (op : BitOperator) (l r : Value)
      → cast_to t (bits_infix op (value_of t l) (value_of t r))
        ≡ value_of t (v_int t (bit_operation op (as_u l t) (as_u r t)))
  bits_lem op l r = same_result _ _ (
      operation_word op (value_of t l) (value_of t r) (as_u l t) (as_u r t) (low_word l)
        (low_word r))
