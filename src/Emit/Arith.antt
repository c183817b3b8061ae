-- ===== src/Emit/Arith.antt =====
-- The C that src/emit/expr.cpp writes for an operator on integers, as a tree in place of the text, and
-- what a C compiler makes of that tree with the helpers of src/runtime.
pub mod Signed
pub mod Unsigned
pub mod Words
pub mod Shifts
pub mod Agrees
pub mod Unary
use Prim.Native.Nat.{bit_and, bit_or, bit_xor}
use luce_seed.Base.Int.{ℤ, pos, negsuc, ◌+ℤ◌, ◌-ℤ◌, ◌*ℤ◌, eqb_ℤ, tdiv, tmod}
use luce_seed.Base.{ℕ, ◌^◌, Bool, true, false, not, ◌&&◌, Option, none, some, if◌then◌else◌}
use luce_seed.Check.Kind.{TypeKind, int_bits, is_signed_int, is_unsigned_int}
use luce_seed.Interp.Arith.{shifted_right}
use luce_seed.Interp.Value.{masked, sign_extended, to_i64, to_u64}
use luce_seed.Lex.Token.{TokenKind}
use luce_seed.Runtime.Arith.{
  add_s, add_u, adds_s, adds_u, addw_s, addw_u, div_s, div_u, mod_s, mod_u, mul_s, mul_u, muls_s,
  muls_u, mulw_s, mulw_u, neg_s, negw_s, negw_u, not_u, qadd_s, qadd_u, qmul_s, qmul_u, qsub_s,
  qsub_u, shl_s, shl_u, shr_s, shr_u, sub_s, sub_u, subs_s, subs_u, subw_s, subw_u,
}
use luce_seed.Runtime.Word.{Outcome, done, stop, ◌>>=◌}

-- The part of a helper's name between `lb_` and `_s` or `_u`.
pub data Helper : Type 0 where
  add sub mul div modulo addw subw mulw adds subs muls shl shr : Helper

pub data BitOperator : Type 0 where
  ampersand bar hat : BitOperator

-- The operators of C that a file-scope initialiser is written with.
pub data COperator : Type 0 where
  c_plus c_minus c_star c_slash c_percent c_left c_right : COperator

-- The flag of a call is true for the `_s` form, the number is the literal of the width.
pub data CExpr : Type 0 where
  operand : ℕ → CExpr
  word : Bool → CExpr → CExpr
  cast : TypeKind → CExpr → CExpr
  call : Helper → Bool → CExpr → CExpr → ℕ → CExpr
  call_not : CExpr → ℕ → CExpr
  call_neg : CExpr → ℕ → CExpr
  call_negw : Bool → CExpr → ℕ → CExpr
  tilde : CExpr → CExpr
  infix_bits : BitOperator → CExpr → CExpr → CExpr
  infix_c : COperator → CExpr → CExpr → CExpr
  negated : CExpr → CExpr
  nought : CExpr

-- `word_cast`: to `uint64_t` for an unsigned type, else to `int64_t`.
unfoldable pub word_cast : TypeKind → CExpr → CExpr
unfolding is_unsigned_int
word_cast t e = if is_unsigned_int t then word false e else word true e

unfoldable pub down_cast : TypeKind → CExpr → CExpr
down_cast t e = cast t e

unfoldable pub emit_helper : Helper → TypeKind → CExpr → CExpr → CExpr
emit_helper name t l r =
    down_cast t (call name (is_signed_int t) (word_cast t l) (word_cast t r) (int_bits t))

unfoldable pub helper_of : TokenKind → Option Helper
helper_of TokenKind.plus = some add
helper_of TokenKind.minus = some sub
helper_of TokenKind.star = some mul
helper_of TokenKind.slash_slash = some div
helper_of TokenKind.percent = some modulo
helper_of TokenKind.plus_percent = some addw
helper_of TokenKind.minus_percent = some subw
helper_of TokenKind.star_percent = some mulw
helper_of TokenKind.plus_pipe = some adds
helper_of TokenKind.minus_pipe = some subs
helper_of TokenKind.star_pipe = some muls
helper_of TokenKind.lt_lt = some shl
helper_of TokenKind.gt_gt = some shr
helper_of _ = none

unfoldable pub c_operator : TokenKind → Option COperator
c_operator TokenKind.plus = some c_plus
c_operator TokenKind.plus_percent = some c_plus
c_operator TokenKind.plus_pipe = some c_plus
c_operator TokenKind.minus = some c_minus
c_operator TokenKind.minus_percent = some c_minus
c_operator TokenKind.minus_pipe = some c_minus
c_operator TokenKind.star = some c_star
c_operator TokenKind.star_percent = some c_star
c_operator TokenKind.star_pipe = some c_star
c_operator TokenKind.slash_slash = some c_slash
c_operator TokenKind.percent = some c_percent
c_operator TokenKind.lt_lt = some c_left
c_operator TokenKind.gt_gt = some c_right
c_operator _ = none

-- `emit_arith` at a type that is no float. The flag is the emitter's `at_file_scope`.
unfoldable pub emit_arith : Bool → TypeKind → TokenKind → CExpr → CExpr → CExpr
emit_arith at_file_scope t TokenKind.amp l r = down_cast t (infix_bits ampersand l r)
emit_arith at_file_scope t TokenKind.pipe l r = down_cast t (infix_bits bar l r)
emit_arith at_file_scope t TokenKind.caret l r = down_cast t (infix_bits hat l r)
emit_arith at_file_scope t op l r = elim (if at_file_scope then c_operator op else none) [
  | some cop ↦ cast t (infix_c cop l r)
  | none ↦ elim (helper_of op) [ some name ↦ emit_helper name t l r | none ↦ nought ]
]

-- `emit_unary_scalar` at a type that is no float. The flag is the emitter's `at_file_scope`.
unfoldable pub emit_unary_scalar : Bool → TypeKind → TokenKind → CExpr → CExpr
unfolding is_unsigned_int
emit_unary_scalar at_file_scope t TokenKind.tilde x =
    if is_unsigned_int t && not at_file_scope
    then down_cast t (call_not (word_cast t x) (int_bits t))
    else down_cast t (tilde x)
emit_unary_scalar at_file_scope t TokenKind.minus_percent x =
    if at_file_scope
    then down_cast t (negated x)
    else down_cast t (call_negw (is_signed_int t) (word_cast t x) (int_bits t))
emit_unary_scalar at_file_scope t TokenKind.minus x =
    if at_file_scope
    then down_cast t (negated x)
    else down_cast t (call_neg (word_cast t x) (int_bits t))
emit_unary_scalar at_file_scope t _ x = nought

-- What a helper computes on arguments of its own parameter types.
unfoldable pub helper_s : Helper → ℤ → ℤ → ℕ → Outcome ℤ
helper_s add a b bits = add_s a b bits
helper_s sub a b bits = sub_s a b bits
helper_s mul a b bits = mul_s a b bits
helper_s div a b bits = div_s a b bits
helper_s modulo a b bits = mod_s a b bits
helper_s addw a b bits = done (addw_s a b bits)
helper_s subw a b bits = done (subw_s a b bits)
helper_s mulw a b bits = done (mulw_s a b bits)
helper_s adds a b bits = done (adds_s a b bits)
helper_s subs a b bits = done (subs_s a b bits)
helper_s muls a b bits = done (muls_s a b bits)
helper_s shl a b bits = shl_s a (to_u64 b) bits
helper_s shr a b bits = shr_s a (to_u64 b) bits

unfoldable pub helper_u : Helper → ℕ → ℕ → ℕ → Outcome ℕ
helper_u add a b bits = add_u a b bits
helper_u sub a b bits = sub_u a b bits
helper_u mul a b bits = mul_u a b bits
helper_u div a b bits = div_u a b bits
helper_u modulo a b bits = mod_u a b bits
helper_u addw a b bits = done (addw_u a b bits)
helper_u subw a b bits = done (subw_u a b bits)
helper_u mulw a b bits = done (mulw_u a b bits)
helper_u adds a b bits = done (adds_u a b bits)
helper_u subs a b bits = done (subs_u a b bits)
helper_u muls a b bits = done (muls_u a b bits)
helper_u shl a b bits = shl_u a b bits
helper_u shr a b bits = shr_u a b bits

-- Conversion to `int64_t`, and to the C type of an integer type.
abbrev pub as_i64 : ℤ → ℤ
as_i64 e = to_i64 (to_u64 e)

unfoldable pub cast_to : TypeKind → ℤ → ℤ
cast_to t e =
    if is_signed_int t
    then sign_extended (int_bits t) (masked (int_bits t) (to_u64 e))
    else pos (masked (int_bits t) (to_u64 e))

unfoldable pub bit_operation : BitOperator → ℕ → ℕ → ℕ
bit_operation ampersand a b = bit_and a b
bit_operation bar a b = bit_or a b
bit_operation hat a b = bit_xor a b

-- The operands are promoted to a common type, in which a number below zero is in two's complement.
unfoldable pub bits_infix : BitOperator → ℤ → ℤ → ℤ
bits_infix op (pos a) (pos b) = pos (bit_operation op a b)
bits_infix op a b = to_i64 (bit_operation op (to_u64 a) (to_u64 b))

-- `~x` on a promoted operand is -x - 1.
unfoldable pub complement_of : ℤ → ℤ
complement_of (pos n) = negsuc n
complement_of (negsuc n) = pos n

-- What C leaves undefined gives no number.
abbrev undefined : Outcome ℤ
undefined = stop "undefined"

-- An operator of C, without the width of its operands' type: the emitter casts what it gives to the type
-- of the expression, which is right for the unsigned types too; and where the type is signed, a result
-- beyond its bounds, like a shift count beyond its width, is undefined in C.
unfoldable pub c_operation : COperator → ℤ → ℤ → Outcome ℤ
c_operation c_plus a b = done (a +ℤ b)
c_operation c_minus a b = done (a -ℤ b)
c_operation c_star a b = done (a *ℤ b)
c_operation c_slash a b = if eqb_ℤ b (pos 0) then undefined else done (tdiv a b)
c_operation c_percent a b = if eqb_ℤ b (pos 0) then undefined else done (tmod a b)
c_operation c_left a (pos n) = done (a *ℤ pos (2 ^ n))
c_operation c_right a (pos n) = done (shifted_right a n)
c_operation _ a b = undefined

-- The value of a tree, where the operands have the given values.
unfoldable pub run : (ℕ → ℤ) → CExpr → Outcome ℤ
run env (operand i) = done (env i)
run env (word signed e) = run env e >>= λ a. done (if signed then as_i64 a else pos (to_u64 a))
run env (cast t e) = run env e >>= λ a. done (cast_to t a)
run env (call name signed x y bits) = run env x >>= λ a. run env y >>= λ b.
    if signed
    then helper_s name (as_i64 a) (as_i64 b) bits
    else (helper_u name (to_u64 a) (to_u64 b) bits >>= λ n. done (pos n))
run env (call_not x bits) = run env x >>= λ a. done (pos (not_u (to_u64 a) bits))
run env (call_neg x bits) = run env x >>= λ a. neg_s (as_i64 a) bits
run env (call_negw signed x bits) = run env x >>= λ a.
    done (if signed then negw_s (as_i64 a) bits else pos (negw_u (to_u64 a) bits))
run env (tilde x) = run env x >>= λ a. done (complement_of a)
run env (infix_bits op x y) = run env x >>= λ a. run env y >>= λ b. done (bits_infix op a b)
run env (infix_c op x y) = run env x >>= λ a. run env y >>= λ b. c_operation op a b
run env (negated x) = run env x >>= λ a. done (pos 0 -ℤ a)
run env nought = done (pos 0)
