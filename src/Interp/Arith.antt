-- ===== src/Interp/Arith.antt =====
-- The integer operators of `Interp::arith` and their callers, from src/interp/ops.cpp.
pub mod Widths
pub mod Exact
pub mod Saturated
pub mod Convert
use Prim.Native.Nat.{bit_and, bit_or, bit_xor}
use luce_seed.Base.Int.{ℤ, pos, negsuc, ◌+ℤ◌, ◌-ℤ◌, ◌*ℤ◌, ltb_ℤ, eqb_ℤ, is_negative, tdiv, tmod}
use luce_seed.Base.{
  ℕ, ◌+◌, ◌-◌, ◌*◌, ◌/◌, ◌%◌, ◌^◌, Bool, true, false, not, ◌&&◌, ◌||◌, Option, none, some, String,
  ltb, leb, ◌==◌, if◌then◌else◌,
}
use luce_seed.Base.Words.{u64, u64_max}
use luce_seed.Check.Kind.{
  TypeKind, int_bits, int_max_signed, int_max_unsigned, int_min, is_signed_int, is_unsigned_int,
}
use luce_seed.Interp.Value.{Value, as_s, as_u, to_i64, to_u64, v_bool, v_int, v_unit}
use luce_seed.Lex.Token.{TokenKind}

-- A value, or a trap with its message.
pub data Result : Type 0 where
  value : Value → Result
  trap : String → Result

-- `__builtin_add_overflow` and its kin: the result cut to 64 bits, and whether that changed it.
unfoldable pub cut : ℤ → ℤ × Bool
cut exact =
    (to_i64 (to_u64 exact), ltb_ℤ exact (negsuc (2 ^ 63 - 1)) || ltb_ℤ (pos (2 ^ 63 - 1)) exact)

-- The exact result of the operator, without its suffix.
unfoldable pub exact_s : TokenKind → ℤ → ℤ → ℤ
exact_s TokenKind.plus a b = a +ℤ b
exact_s TokenKind.plus_question a b = a +ℤ b
exact_s TokenKind.plus_pipe a b = a +ℤ b
exact_s TokenKind.minus a b = a -ℤ b
exact_s TokenKind.minus_question a b = a -ℤ b
exact_s TokenKind.minus_pipe a b = a -ℤ b
exact_s _ a b = a *ℤ b

-- `ov || r < int_min(t) || r > int_max_signed(bits)`
unfoldable pub overflows : TypeKind → ℤ × Bool → Bool
overflows t (r, ov) = ov || ltb_ℤ r (int_min t) || ltb_ℤ (pos (int_max_signed (int_bits t))) r

unfoldable pub checked_s : TypeKind → ℤ → Result
checked_s t exact =
    if overflows t (cut exact)
    then trap "integer overflow"
    else value (v_int t (to_u64 (cut exact).0))

-- The saturated result is the least or the greatest value of the type.
unfoldable pub saturated_s : TypeKind → Bool → ℤ → Result
saturated_s t low exact =
    let bound = if low then int_min t else pos (int_max_signed (int_bits t)) in
    let r = if overflows t (cut exact) then bound else (cut exact).0 in value (v_int t (to_u64 r))

unfoldable pub divide_s : TypeKind → Bool → ℤ → ℤ → Result
divide_s t quotient a b =
    if eqb_ℤ b (pos 0)
    then trap "division by zero"
    else if eqb_ℤ a (int_min t) && eqb_ℤ b (negsuc 0)
    then trap "integer overflow"
    else value (v_int t (to_u64 (if quotient then tdiv a b else tmod a b)))

unfoldable pub differ : Bool → Bool → Bool
differ true b = not b
differ false b = b

unfoldable pub arith_s : TypeKind → TokenKind → ℤ → ℤ → Result
arith_s t TokenKind.plus a b = checked_s t (exact_s TokenKind.plus a b)
arith_s t TokenKind.plus_question a b = checked_s t (exact_s TokenKind.plus_question a b)
arith_s t TokenKind.minus a b = checked_s t (exact_s TokenKind.minus a b)
arith_s t TokenKind.minus_question a b = checked_s t (exact_s TokenKind.minus_question a b)
arith_s t TokenKind.star a b = checked_s t (exact_s TokenKind.star a b)
arith_s t TokenKind.star_question a b = checked_s t (exact_s TokenKind.star_question a b)
arith_s t TokenKind.plus_percent a b = value (v_int t (u64 (to_u64 a + to_u64 b)))
arith_s t TokenKind.minus_percent a b = value (v_int t (u64 (to_u64 a + 2 ^ 64 - to_u64 b)))
arith_s t TokenKind.star_percent a b = value (v_int t (u64 (to_u64 a * to_u64 b)))
arith_s t TokenKind.plus_pipe a b = saturated_s t (is_negative a) (exact_s TokenKind.plus_pipe a b)
arith_s t TokenKind.minus_pipe a b =
    saturated_s t (is_negative a) (exact_s TokenKind.minus_pipe a b)
arith_s t TokenKind.star_pipe a b =
    saturated_s t (differ (is_negative a) (is_negative b)) (exact_s TokenKind.star_pipe a b)
arith_s t TokenKind.slash_slash a b = divide_s t true a b
arith_s t TokenKind.percent a b = divide_s t false a b
arith_s t _ a b = trap "unsupported binary operator"

-- `bits >= 64 ? a > UINT64_MAX - b : a + b > maxv`
unfoldable pub sum_overflows : ℕ → ℕ → ℕ → Bool
sum_overflows bits a b =
    if leb 64 bits then ltb (u64_max - b) a else ltb (int_max_unsigned bits) (u64 (a + b))

-- `b != 0 && a > maxv / b`
unfoldable pub product_overflows : ℕ → ℕ → ℕ → Bool
product_overflows bits a b = not (b == 0) && ltb (int_max_unsigned bits / b) a

unfoldable pub checked_u : TypeKind → Bool → ℕ → Result
checked_u t overflow r = if overflow then trap "integer overflow" else value (v_int t r)

unfoldable pub arith_u : TypeKind → TokenKind → ℕ → ℕ → Result
arith_u t TokenKind.plus a b = checked_u t (sum_overflows (int_bits t) a b) (u64 (a + b))
arith_u t TokenKind.plus_question a b = checked_u t (sum_overflows (int_bits t) a b) (u64 (a + b))
arith_u t TokenKind.minus a b = checked_u t (ltb a b) (u64 (a + 2 ^ 64 - b))
arith_u t TokenKind.minus_question a b = checked_u t (ltb a b) (u64 (a + 2 ^ 64 - b))
arith_u t TokenKind.star a b = checked_u t (product_overflows (int_bits t) a b) (u64 (a * b))
arith_u t TokenKind.star_question a b =
    checked_u t (product_overflows (int_bits t) a b) (u64 (a * b))
arith_u t TokenKind.plus_percent a b = value (v_int t (u64 (a + b)))
arith_u t TokenKind.minus_percent a b = value (v_int t (u64 (a + 2 ^ 64 - b)))
arith_u t TokenKind.star_percent a b = value (v_int t (u64 (a * b)))
arith_u t TokenKind.plus_pipe a b = value (
    v_int t (if sum_overflows (int_bits t) a b then int_max_unsigned (int_bits t) else u64 (a + b)))
arith_u t TokenKind.minus_pipe a b = value (v_int t (if ltb a b then 0 else u64 (a + 2 ^ 64 - b)))
arith_u t TokenKind.star_pipe a b = value (
    v_int t
      (if product_overflows (int_bits t) a b then int_max_unsigned (int_bits t) else u64 (a * b)))
arith_u t TokenKind.slash_slash a b =
    if b == 0 then trap "division by zero" else value (v_int t (a / b))
arith_u t TokenKind.percent a b =
    if b == 0 then trap "division by zero" else value (v_int t (a % b))
arith_u t _ a b = trap "unsupported binary operator"

-- `a >> n` on a negative number rounds down.
unfoldable pub shifted_right : ℤ → ℕ → ℤ
shifted_right (pos a) n = pos (a / 2 ^ n)
shifted_right (negsuc a) n = negsuc (a / 2 ^ n)

-- The count is read at its own type.
unfoldable pub shift : TypeKind → Bool → Value → Value → Result
shift t left l r =
    let n = as_u r (elim r.type [ none ↦ t | some own ↦ own ]) in
    if leb (int_bits t) n
    then trap "shift count out of range"
    else if left
    then value (v_int t (u64 (as_u l t * 2 ^ n)))
    else if is_signed_int t
    then value (v_int t (to_u64 (shifted_right (as_s l t) n)))
    else value (v_int t (as_u l t / 2 ^ n))

-- `arith` at a type that is no float.
unfoldable pub int_arith : TypeKind → Value → Value → TokenKind → Result
int_arith t l r TokenKind.amp = value (v_int t (bit_and (as_u l t) (as_u r t)))
int_arith t l r TokenKind.pipe = value (v_int t (bit_or (as_u l t) (as_u r t)))
int_arith t l r TokenKind.caret = value (v_int t (bit_xor (as_u l t) (as_u r t)))
int_arith t l r TokenKind.lt_lt = shift t true l r
int_arith t l r TokenKind.gt_gt = shift t false l r
int_arith t l r op =
    if is_signed_int t
    then arith_s t op (as_s l t) (as_s r t)
    else arith_u t op (as_u l t) (as_u r t)

-- The end of `eval_binary`: `+?`, `-?` and `*?` give an optional, absent where the operator traps.
unfoldable pub as_optional : Result → Value
as_optional (trap message) = record v_unit {
  kind = TypeKind.optional;
  type = some TypeKind.optional;
  present = false;
}
as_optional (value r) = record r {
  present = true;
  kind = TypeKind.optional;
  type = some TypeKind.optional;
}

unfoldable pub binary_result : TypeKind → Value → Value → TokenKind → Result
binary_result t l r TokenKind.plus_question =
    value (as_optional (int_arith t l r TokenKind.plus_question))
binary_result t l r TokenKind.minus_question =
    value (as_optional (int_arith t l r TokenKind.minus_question))
binary_result t l r TokenKind.star_question =
    value (as_optional (int_arith t l r TokenKind.star_question))
binary_result t l r op = int_arith t l r op

-- `~as_u(x, t)`
unfoldable pub complement : Value → TypeKind → ℕ
complement x t = u64_max - as_u x t

-- `-x`, `-%x` and `~x` on an integer.
unfoldable pub unary_scalar : TypeKind → Value → TokenKind → Result
unary_scalar t x TokenKind.tilde = value (v_int t (complement x t))
unary_scalar t x TokenKind.minus_percent =
    if is_signed_int t
    then value (v_int t (u64 (2 ^ 64 - to_u64 (as_s x t))))
    else value (v_int t (u64 (2 ^ 64 - as_u x t)))
unary_scalar t x TokenKind.minus =
    if eqb_ℤ (as_s x t) (int_min t)
    then trap "integer overflow"
    else value (v_int t (to_u64 (pos 0 -ℤ as_s x t)))
unary_scalar t x _ = trap "unsupported unary operator"

-- Whether a sign and a magnitude is a value of the integer or `char` type.
unfoldable pub fits_destination : Bool → ℕ → TypeKind → Bool
fits_destination negative bits TypeKind.character =
    not negative && leb bits 0x10FFFF && not (leb 0xD800 bits && leb bits 0xDFFF)
fits_destination negative bits dest =
    if is_signed_int dest
    then (if negative
        then not (ltb_ℤ (to_i64 bits) (int_min dest))
        else leb bits (int_max_signed (int_bits dest)))
    else not negative && leb bits (int_max_unsigned (int_bits dest))

-- `dest->kind == TypeKind::Char ? bits & 0xFFFFFFFFu : bits`
unfoldable pub stored_bits : TypeKind → ℕ → ℕ
stored_bits TypeKind.character bits = bits % 2 ^ 32
stored_bits _ bits = bits

-- `eval_conv` from an integer type to an integer type or `char`.
unfoldable pub convert_int : Value → TypeKind → TypeKind → Bool → Result
convert_int x src dest checked =
    let negative = is_signed_int src && is_negative (as_s x src) in
    let bits = if is_signed_int src then to_u64 (as_s x src) else as_u x src in
    if checked && not (fits_destination negative bits dest)
    then trap "integer conversion out of range"
    else value (v_int dest (stored_bits dest bits))
