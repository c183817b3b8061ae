-- ===== src/Emit/Arith/Unary.antt =====
-- The operators of one operand, in a compiled program and in the interpreter.
use luce_seed.Base.Int.{ℤ, pos, negsuc, eqb_ℤ}
use luce_seed.Base.Words.{u64, u64_max}
use luce_seed.Base.{ℕ, ◌-◌, ◌≤◌, ◌≡◌, ◌⊎◌, inl, inr, refl, ap, arith, true, false, Bool-cases}
use luce_seed.Check.Kind.{
  TypeKind, int_bits, int_mask, int_min, is_int, is_signed_int, is_unsigned_int,
}
use luce_seed.Emit.Arith.Agrees.{there_and_back, twice, word_of}
use luce_seed.Emit.Arith.Signed.{extended_lem, least, observed, result_lem, word_lem, wrap_lem}
use luce_seed.Emit.Arith.Unsigned.{wrap_u_lem, zext_lem}
use luce_seed.Emit.Arith.Words.{low_word, same_result}
use luce_seed.Emit.Arith.{CExpr, complement_of, down_cast, emit_unary_scalar, run, word_cast}
use luce_seed.Interp.Arith.Exact.{as_u_fits, int_max_le}
use luce_seed.Interp.Arith.Widths.{IsWidth, as_s-IsInRange, int_bits-IsWidth, value_of}
use luce_seed.Interp.Arith.{complement, unary_scalar}
use luce_seed.Interp.Value.{Value, as_s, as_u, masked, to_u64}
use luce_seed.Lex.Token.{TokenKind}
use luce_seed.Runtime.Arith.{neg_s, negw_s, negw_u, not_u}
use luce_seed.Runtime.Word.{done, mask_bits, zext}

-- The complement of a number, cut to a width, is that of what the width keeps of it.
complement-low :
    (w n : ℕ) (e : ℤ)
    → IsWidth w
    → masked w (to_u64 e) ≡ n
    → masked w (to_u64 (complement_of e)) ≡ masked w (u64_max - n)
unfolding masked int_mask complement_of to_u64
complement-low w n (pos k) (inl i) h = rw i (ground (arith, rw i at h))
complement-low w n (pos k) (inr (inl i)) h = rw i (ground (arith, rw i at h))
complement-low w n (pos k) (inr (inr (inl i))) h = rw i (ground (arith, rw i at h))
complement-low w n (pos k) (inr (inr (inr i))) h = rw i (ground (arith, rw i at h))
complement-low w n (negsuc k) (inl i) h = rw i (ground (arith, rw i at h))
complement-low w n (negsuc k) (inr (inl i)) h = rw i (ground (arith, rw i at h))
complement-low w n (negsuc k) (inr (inr (inl i))) h = rw i (ground (arith, rw i at h))
complement-low w n (negsuc k) (inr (inr (inr i))) h = rw i (ground (arith, rw i at h))

abbrev pub IsUnary : TypeKind → TokenKind → Type 0
IsUnary t op =
    (op ≡ TokenKind.tilde)
    ⊎ ((op ≡ TokenKind.minus_percent) ⊎ ((op ≡ TokenKind.minus) × (is_signed_int t ≡ true)))

not_u_lem :
    (w n : ℕ)
    → IsWidth w
    → n ≤ u64_max
    → masked w (to_u64 (pos (not_u n w))) ≡ masked w (u64_max - n)
unfolding not_u masked int_mask mask_bits zext to_u64 u64
not_u_lem w n (inl i) h = rw i (ground (arith, h))
not_u_lem w n (inr (inl i)) h = rw i (ground (arith, h))
not_u_lem w n (inr (inr (inl i))) h = rw i (ground (arith, h))
not_u_lem w n (inr (inr (inr i))) h = rw i (ground (arith, h))

module _ (env : ℕ → ℤ) (t : TypeKind) (int : is_int t ≡ true) (x : CExpr) (v : Value)
    (hx : run env x ≡ done (value_of t v)) where
  width : IsWidth (int_bits t)
  width = int_bits-IsWidth t int

  minus_agrees :
      is_signed_int t ≡ true
      → run env (emit_unary_scalar false t TokenKind.minus x)
        ≡ observed t (unary_scalar t v TokenKind.minus)
  unfolding run emit_unary_scalar down_cast word_cast is_unsigned_int unary_scalar neg_s
  minus_agrees signed =
      let range = as_s-IsInRange t signed v in
      rw
        (
          signed,
          int,
          rw signed at hx,
          there_and_back (as_s v t),
          word_lem t signed (as_s v t) range,
          extended_lem t signed (as_s v t) range,
          least t signed,
        )
        (elim (Bool-cases (eqb_ℤ (as_s v t) (int_min t))) [
          | inl over ↦ rw over refl
          | inr fits ↦ rw fits (ap done (result_lem t signed _))
        ])

  wrapping_agrees :
      run env (emit_unary_scalar false t TokenKind.minus_percent x)
      ≡ observed t (unary_scalar t v TokenKind.minus_percent)
  unfolding run emit_unary_scalar down_cast word_cast is_unsigned_int unary_scalar negw_s negw_u
  wrapping_agrees = elim (Bool-cases (is_signed_int t)) [
    | inl signed ↦
        let range = as_s-IsInRange t signed v in
        rw
          (
            signed,
            int,
            rw signed at hx,
            there_and_back (as_s v t),
            word_lem t signed (as_s v t) range,
            extended_lem t signed (as_s v t) range,
          )
          (ap done (wrap_lem t signed _))
    | inr unsigned ↦
        let fits = as_u_fits t int v v v in
        rw
          (
            unsigned,
            int,
            rw unsigned at hx,
            twice (pos (as_u v t)),
            unsigned_word v,
            zext_lem (int_bits t) (as_u v t) width fits,
          )
          (ap done (wrap_u_lem t int unsigned _))
  ]
    where
      unsigned_word : (v : Value) → to_u64 (pos (as_u v t)) ≡ as_u v t
      unsigned_word v = word_of t (as_u v t) int (as_u_fits t int v v v)

  tilde_agrees :
      run env (emit_unary_scalar false t TokenKind.tilde x)
      ≡ observed t (unary_scalar t v TokenKind.tilde)
  unfolding run emit_unary_scalar down_cast word_cast is_unsigned_int unary_scalar complement
  tilde_agrees = elim (Bool-cases (is_signed_int t)) [
    | inl signed ↦
        rw (signed, int, rw signed at hx)
          (ap done (
            rw signed at (
              same_result t int _ _ (
                complement-low (int_bits t) (as_u v t) (as_s v t) width
                  (rw signed at (low_word t int v))))))
    | inr unsigned ↦
        let fits = as_u_fits t int v v v in
        rw (unsigned, int, rw unsigned at hx, twice (pos (as_u v t)), word_of t (as_u v t) int fits)
          (ap done (
            rw unsigned at (
              same_result t int _ _ (
                not_u_lem (int_bits t) (as_u v t) width
                  (omega (arith, fits, int_max_le (int_bits t) width))))))
  ]

-- On one operand too, inside a function (not in the initialiser of a file-scope variable): `~` and `-%` at every integer type, and `-` at a signed one, give in a compiled
-- program the number, or the trap, that they give in the interpreter.
pub emit_unary_scalar-agrees :
    (env : ℕ → ℤ) (t : TypeKind) (op : TokenKind) (x : CExpr) (v : Value)
    → is_int t ≡ true
    → IsUnary t op
    → run env x ≡ done (value_of t v)
    → run env (emit_unary_scalar false t op x) ≡ observed t (unary_scalar t v op)
emit_unary_scalar-agrees env t op x v int (inl e) hx = rw e (tilde_agrees env t int x v hx)
emit_unary_scalar-agrees env t op x v int (inr (inl e)) hx = rw e (wrapping_agrees env t int x v hx)
emit_unary_scalar-agrees env t op x v int (inr (inr (e, signed))) hx =
    rw e (minus_agrees env t int x v hx signed)
