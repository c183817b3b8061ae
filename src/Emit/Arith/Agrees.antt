-- ===== src/Emit/Arith/Agrees.antt =====
-- Arithmetic in a compiled program against arithmetic in the interpreter.
use luce_seed.Base.Int.{ℤ, pos, negsuc}
use luce_seed.Base.{
  ℕ, ◌≤◌, ◌≡◌, inl, inr, refl, sym, ◌∙◌, ap, arith, Bool, true, false, Bool-cases, some,
  if◌then◌else◌,
}
use luce_seed.Check.Kind.{
  TypeKind, int_bits, int_max_unsigned, is_int, is_signed_int, is_unsigned_int,
}
use luce_seed.Emit.Arith.Signed.{as_type, word_lem, helper_s_lem, is_helper_arith, observed}
use luce_seed.Emit.Arith.Unsigned.{unsigned_outcome, helper_u_lem}
use luce_seed.Emit.Arith.Shifts.{count_lem, left_s, left_u, right_s, right_u}
use luce_seed.Emit.Arith.Words.{bits_lem}
use luce_seed.Emit.Arith.{
  BitOperator, ampersand, bar, hat, CExpr, Helper, infix_bits, shl, shr, bit_operation, down_cast,
  word_cast, as_i64, emit_arith, emit_helper, helper_of, helper_s, helper_u, run,
}
use luce_seed.Interp.Arith.Exact.{as_u_fits, int_max_le}
use luce_seed.Interp.Arith.Widths.{as_s-IsInRange, int_bits-IsWidth, value_of}
use luce_seed.Interp.Arith.{shift, value, arith_s, arith_u, int_arith}
use luce_seed.Interp.Value.{Value, v_int, as_s, as_u, to_u64, to_i64}
use luce_seed.Lex.Token.{TokenKind}
use luce_seed.Runtime.Word.{done}

pub int_arith-plain :
    (t : TypeKind) (l r : Value) (op : TokenKind)
    → is_helper_arith op ≡ true
    → int_arith t l r op ≡ (
        if is_signed_int t
        then arith_s t op (as_s l t) (as_s r t)
        else arith_u t op (as_u l t) (as_u r t))
unfolding int_arith is_helper_arith
int_arith-plain t l r op h = ground (arith, h)

unfoldable pub is_shift : TokenKind → Bool
is_shift TokenKind.lt_lt = true
is_shift TokenKind.gt_gt = true
is_shift _ = false

-- The type of the right operand: a shift's count has its own, else it is the type of the operator.
abbrev pub IsRightType : TypeKind → TokenKind → Value → TypeKind → Type 0
IsRightType t op r u = if is_shift op then r.type ≡ some u else (u ≡ t)

unfoldable pub is_binary : TokenKind → Bool
unfolding is_helper_arith
is_binary TokenKind.amp = true
is_binary TokenKind.pipe = true
is_binary TokenKind.caret = true
is_binary TokenKind.lt_lt = true
is_binary TokenKind.gt_gt = true
is_binary op = is_helper_arith op

emit_arith-plain :
    (t : TypeKind) (x y : CExpr) (op : TokenKind) (name : Helper)
    → is_helper_arith op ≡ true
    → helper_of op ≡ some name
    → emit_arith false t op x y ≡ emit_helper name t x y
unfolding emit_arith is_helper_arith helper_of
emit_arith-plain t x y op name h e = ground (arith, h, e)

-- The casts to a word change nothing.
pub word_of :
    (t : TypeKind) (n : ℕ)
    → is_int t ≡ true
    → n ≤ int_max_unsigned (int_bits t)
    → to_u64 (pos n) ≡ n
unfolding to_u64
word_of t n int h =
    let small = int_max_le (int_bits t) (int_bits-IsWidth t int) in omega (arith, h, small)

pub twice : (e : ℤ) → to_u64 (pos (to_u64 e)) ≡ to_u64 e
unfolding to_u64
twice (pos n) = omega arith
twice (negsuc n) = omega arith

pub there_and_back : (e : ℤ) → to_u64 (to_i64 (to_u64 e)) ≡ to_u64 e
unfolding to_u64 to_i64
there_and_back (pos n) = ground arith
there_and_back (negsuc n) = ground arith

module _ (env : ℕ → ℤ) (t : TypeKind) (int : is_int t ≡ true) (x y : CExpr) (a b : ℤ)
    (hx : run env x ≡ done a) (hy : run env y ≡ done b) (name : Helper) where
  signed_call :
      is_signed_int t ≡ true
      → run env (emit_helper name t x y)
        ≡ as_type t (helper_s name (as_i64 a) (as_i64 b) (int_bits t))
  unfolding run emit_helper down_cast word_cast is_unsigned_int
  signed_call signed = rw (signed, int, hx, hy, there_and_back a, there_and_back b) refl

  unsigned_call :
      is_signed_int t ≡ false
      → run env (emit_helper name t x y)
        ≡ as_type t (unsigned_outcome (helper_u name (to_u64 a) (to_u64 b) (int_bits t)))
  unfolding run emit_helper down_cast word_cast is_unsigned_int
  unsigned_call unsigned = rw (unsigned, int, hx, hy, twice a, twice b) refl

module _ (env : ℕ → ℤ) (t : TypeKind) (int : is_int t ≡ true) (x y : CExpr) (l r : Value)
    (hx : run env x ≡ done (value_of t l)) where
  plain_agrees :
      (op : TokenKind)
      → is_helper_arith op ≡ true
      → run env y ≡ done (value_of t r)
      → run env (emit_arith false t op x y) ≡ observed t (int_arith t l r op)
  plain_agrees op h hy = elim (Bool-cases (is_signed_int t)) [
    | inl signed ↦
        let la = as_s-IsInRange t signed l in
        let lb = as_s-IsInRange t signed r in
        let (name, named, same) = helper_s_lem t signed (as_s l t) (as_s r t) la lb op h in
        ap (run env) (emit_arith-plain t x y op name h named)
        ∙ signed_call env t int x y (as_s l t) (as_s r t) (rw signed at hx) (rw signed at hy) name
            signed
        ∙ same
        ∙ ap (observed t) (sym (rw signed at (int_arith-plain t l r op h)))
    | inr unsigned ↦
        let la = as_u_fits t int l l l in
        let lb = as_u_fits t int r r r in
        let (name, named, same) = helper_u_lem t int unsigned (as_u l t) (as_u r t) la lb op h in
        ap (run env) (emit_arith-plain t x y op name h named)
        ∙ unsigned_call env t int x y (pos (as_u l t)) (pos (as_u r t)) (rw unsigned at hx)
            (rw unsigned at hy) name unsigned
        ∙ rw (word_of t (as_u l t) int la, word_of t (as_u r t) int lb) same
        ∙ ap (observed t) (sym (rw unsigned at (int_arith-plain t l r op h)))
  ]

  bits_agrees :
      (op : BitOperator)
      → run env y ≡ done (value_of t r)
      → run env (down_cast t (infix_bits op x y))
        ≡ observed t (value (v_int t (bit_operation op (as_u l t) (as_u r t))))
  unfolding run down_cast
  bits_agrees op hy = rw (hx, hy) (ap done (bits_lem t int op l r))

  shift_agrees :
      (u : TypeKind)
      → r.type ≡ some u
      → is_int u ≡ true
      → run env y ≡ done (value_of u r)
      → (run env (emit_helper shl t x y) ≡ observed t (shift t true l r))
        × (run env (emit_helper shr t x y) ≡ observed t (shift t false l r))
  unfolding shift helper_s helper_u as_u
  shift_agrees u own int' hy =
      let w = int_bits-IsWidth t int in
      let count = count_lem (int_bits t) u r (ground (arith, w)) int' in
      elim (Bool-cases (is_signed_int t)) [
        | inl signed ↦
            let range = as_s-IsInRange t signed l in
            let call = λ (name : Helper).
              signed_call env t int x y (as_s l t) (value_of u r) (rw signed at hx) hy name
                signed in
            rw
              (
                own,
                signed,
                call shl,
                call shr,
                word_lem t signed (as_s l t) range,
                there_and_back (value_of u r),
              )
              (left_s t int l _ _ count signed, right_s t int l _ _ count signed)
        | inr unsigned ↦
            let fits = as_u_fits t int l l l in
            let call = λ (name : Helper).
              unsigned_call env t int x y (pos (as_u l t)) (value_of u r) (rw unsigned at hx) hy
                name unsigned in
            rw (own, unsigned, call shl, call shr, word_of t (as_u l t) int fits)
              (left_u t int l _ _ count unsigned, right_u t int l _ _ count unsigned)
      ]

-- Compiled arithmetic agrees with interpreted arithmetic, inside a function (not in the initialiser of a
-- file-scope variable). For every binary operator on integers that is not optional, where the two operands are expressions of the compiled program with the values
-- that the interpreter has, the C that the emitter writes gives the number that the interpreter's
-- result stands for, and stops the program with the message that the interpreter traps with.
pub emit_arith-agrees :
    (env : ℕ → ℤ) (t u : TypeKind) (op : TokenKind) (x y : CExpr) (l r : Value)
    → is_int t ≡ true
    → is_int u ≡ true
    → is_binary op ≡ true
    → IsRightType t op r u
    → run env x ≡ done (value_of t l)
    → run env y ≡ done (value_of u r)
    → run env (emit_arith false t op x y) ≡ observed t (int_arith t l r op)
unfolding is_binary is_shift emit_arith int_arith helper_of is_helper_arith as_u bit_operation
emit_arith-agrees env t u TokenKind.amp x y l r int int' h own hx hy =
    bits_agrees env t int x y l r hx ampersand (rw own at hy)
emit_arith-agrees env t u TokenKind.pipe x y l r int int' h own hx hy =
    bits_agrees env t int x y l r hx bar (rw own at hy)
emit_arith-agrees env t u TokenKind.caret x y l r int int' h own hx hy =
    bits_agrees env t int x y l r hx hat (rw own at hy)
emit_arith-agrees env t u TokenKind.lt_lt x y l r int int' h own hx hy =
    (shift_agrees env t int x y l r hx u own int' hy).0
emit_arith-agrees env t u TokenKind.gt_gt x y l r int int' h own hx hy =
    (shift_agrees env t int x y l r hx u own int' hy).1
emit_arith-agrees env t u op x y l r int int' h own hx hy =
    plain_agrees env t int x y l r hx op h (rw own at hy)
