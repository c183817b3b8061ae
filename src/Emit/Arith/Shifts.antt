-- ===== src/Emit/Arith/Shifts.antt =====
-- The shifts of a compiled program against those of src/interp/ops.cpp.
use luce_seed.Base.Int.{ℤ, pos}
use luce_seed.Base.Words.{u64}
use luce_seed.Base.{
  ℕ, ◌+◌, ◌*◌, ◌/◌, ◌%◌, ◌^◌, ◌≤◌, ◌≡◌, ◌⊎◌, inl, inr, refl, sym, ◌∙◌, ap, arith, Bool, true, false,
  Bool-cases, leb, if◌then◌else◌,
}
use luce_seed.Check.Kind.{TypeKind, int_bits, int_mask, is_int, is_signed_int}
use luce_seed.Emit.Arith.Signed.{as_type, extended_lem, observed, result_lem, wrapped_lem}
use luce_seed.Emit.Arith.Unsigned.{
  masked_word, result_u_lem, unsigned_outcome, wrap_u_lem, zext_lem,
}
use luce_seed.Emit.Arith.Words.{low_word, masked-power, same_result}
use luce_seed.Emit.Arith.{cast_to}
use luce_seed.Interp.Arith.Exact.{as_u_fits}
use luce_seed.Interp.Arith.Widths.{IsWidth, as_s-IsInRange, int_bits-IsWidth, value_of}
use luce_seed.Interp.Arith.{shifted_right, trap, value}
use luce_seed.Interp.Value.{
  Value, as_s, as_u, bits_of, masked, sign_extended, to_i64, to_u64, v_int,
}
use luce_seed.Runtime.Arith.{shl_s, shl_u, shr_s, shr_u, wrapped}
use luce_seed.Runtime.Word.{done, stop, zext}
use native.Mathlib.Nat.{add-mul, add-mul-mod_self_right, div-add-mod', mul_right_comm}

-- A factor's digits above the modulus do not count.
mod-factor : (x k m : ℕ) → x * k % m ≡ x % m * k % m
mod-factor x k m =
    let q = x / m in
    let r = x % m in
    let whole : r + q * m ≡ x = omega (arith, div-add-mod' x m) in
    let split : r * k + q * k * m ≡ x * k =
      ap (λ n. r * k + n) (mul_right_comm q k m)
      ∙ sym (add-mul r (q * m) k)
      ∙ ap (λ n. n * k) whole in
    ap (λ n. n % m) (sym split) ∙ add-mul-mod_self_right (r * k) (q * k) m

-- A count as the program passes it and as the interpreter reads it: the same, or both too great.
same_at :
    (w bits u : ℕ)
    → IsWidth bits
    → w ≤ 64
    → let n = to_u64 (sign_extended bits (masked bits u)) in
      ((leb w n ≡ true) × (leb w (masked bits u) ≡ true)) ⊎ (n ≡ masked bits u)
unfolding sign_extended masked int_mask to_i64 to_u64
same_at w bits u (inl i) h = rw i (ground (arith, h))
same_at w bits u (inr (inl i)) h = rw i (ground (arith, h))
same_at w bits u (inr (inr (inl i))) h = rw i (ground (arith, h))
same_at w bits u (inr (inr (inr i))) h = rw i (ground (arith, h))

word_of : (w n : ℕ) → IsWidth w → to_u64 (pos (masked w n)) ≡ masked w n
unfolding to_u64 masked int_mask
word_of w n h = ground (arith, h)

pub count_lem :
    (w : ℕ) (u : TypeKind) (r : Value)
    → w ≤ 64
    → is_int u ≡ true
    → let n = to_u64 (value_of u r) in
      ((leb w n ≡ true) × (leb w (as_u r u) ≡ true)) ⊎ (n ≡ as_u r u)
unfolding as_s as_u bits_of
count_lem w u r h int =
    let width = int_bits-IsWidth u int in
    let same : bits_of u ≡ int_bits u = unfold bits_of in ground (arith, width) in
    elim (Bool-cases (is_signed_int u)) [
      | inl signed ↦ rw (signed, same) (same_at w (int_bits u) r.u width h)
      | inr unsigned ↦ rw (unsigned, same) (inr (word_of (int_bits u) r.u width))
    ]

pushed :
    (c : Bool) (x : ℕ)
    → unsigned_outcome (if c then stop "shift count out of range" else done x)
      ≡ (if c then stop "shift count out of range" else done (pos x))
pushed true x = refl
pushed false x = refl

-- The count as the program passes it to the helper.
abbrev pub IsCount : ℕ → ℕ → ℕ → Type 0
IsCount w m n = ((leb w m ≡ true) × (leb w n ≡ true)) ⊎ (m ≡ n)

module _ (t : TypeKind) (int : is_int t ≡ true) (l : Value) (m n : ℕ)
    (h : IsCount (int_bits t) m n) where
  width : IsWidth (int_bits t)
  width = int_bits-IsWidth t int

  -- Where both counts are too great, the helper stops the program and the operator traps.
  counted :
      (f : ℕ → ℤ) (v : ℕ → Value)
      → ((k : ℕ) → leb (int_bits t) k ≡ false → cast_to t (f k) ≡ value_of t (v k))
      → as_type t (if leb (int_bits t) m then stop "shift count out of range" else done (f m))
        ≡ observed t (if leb (int_bits t) n then trap "shift count out of range" else value (v n))
  counted f v same = elim h [
    | inl (high, high') ↦ rw (high, high') refl
    | inr equal ↦ rw equal (elim (Bool-cases (leb (int_bits t) n)) [
      | inl high ↦ rw high refl
      | inr fits ↦ rw fits (ap done (same n fits))
    ])
  ]

  left_word :
      (k : ℕ) → masked (int_bits t) (to_u64 (value_of t l) * k) ≡ masked (int_bits t) (as_u l t * k)
  left_word k =
      let w = int_bits t in
      masked-power w (to_u64 (value_of t l) * k) width
      ∙ mod-factor (to_u64 (value_of t l)) k (2 ^ w)
      ∙ ap (λ n. n * k % 2 ^ w) (sym (masked-power w _ width) ∙ low_word t int l)
      ∙ sym (masked-power w (as_u l t * k) width)

  module _ (signed : is_signed_int t ≡ true) where
    pub left_s :
        as_type t (shl_s (as_s l t) m (int_bits t))
        ≡ observed t (
            if leb (int_bits t) n
            then trap "shift count out of range"
            else value (v_int t (u64 (as_u l t * 2 ^ n))))
    unfolding shl_s
    left_s = rw (extended_lem t signed (as_s l t) (as_s-IsInRange t signed l)) (
        counted (λ k. wrapped (u64 (to_u64 (as_s l t) * 2 ^ k)) (int_bits t))
          (λ k. v_int t (u64 (as_u l t * 2 ^ k)))
          (λ k fits. same_result t int _ _ (
            wrapped_lem (int_bits t) (u64 (to_u64 (as_s l t) * 2 ^ k)) width
            ∙ unfold u64 in
              masked_word (int_bits t) (to_u64 (as_s l t) * 2 ^ k) width
              ∙ rw signed at (left_word (2 ^ k))
              ∙ sym (masked_word (int_bits t) (as_u l t * 2 ^ k) width))))

    pub right_s :
        as_type t (shr_s (as_s l t) m (int_bits t))
        ≡ observed t (
            if leb (int_bits t) n
            then trap "shift count out of range"
            else value (v_int t (to_u64 (shifted_right (as_s l t) n))))
    unfolding shr_s
    right_s = rw (extended_lem t signed (as_s l t) (as_s-IsInRange t signed l)) (
        counted (λ k. shifted_right (as_s l t) k)
          (λ k. v_int t (to_u64 (shifted_right (as_s l t) k))) (λ k fits. result_lem t signed _))

  module _ (unsigned : is_signed_int t ≡ false) where
    fits : zext (as_u l t) (int_bits t) ≡ as_u l t
    fits = zext_lem (int_bits t) (as_u l t) width (as_u_fits t int l l l)

    pub left_u :
        as_type t (unsigned_outcome (shl_u (as_u l t) m (int_bits t)))
        ≡ observed t (
            if leb (int_bits t) n
            then trap "shift count out of range"
            else value (v_int t (u64 (as_u l t * 2 ^ n))))
    unfolding shl_u
    left_u = rw fits (
        ap (as_type t) (pushed _ _)
        ∙ counted (λ k. pos (zext (u64 (as_u l t * 2 ^ k)) (int_bits t)))
            (λ k. v_int t (u64 (as_u l t * 2 ^ k))) (λ k small. wrap_u_lem t int unsigned _))

    pub right_u :
        as_type t (unsigned_outcome (shr_u (as_u l t) m (int_bits t)))
        ≡ observed t (
            if leb (int_bits t) n
            then trap "shift count out of range"
            else value (v_int t (as_u l t / 2 ^ n)))
    unfolding shr_u
    right_u = rw fits (
        ap (as_type t) (pushed _ _)
        ∙ counted (λ k. pos (as_u l t / 2 ^ k)) (λ k. v_int t (as_u l t / 2 ^ k))
            (λ k small. result_u_lem t int unsigned _))
