-- ===== src/Emit/Optional.antt =====
-- The C that `Emitter::emit_binary` of src/emit/expr.cpp writes for `+?`, `-?` and `*?` on integers.
pub mod Agrees
use luce_seed.Base.Int.{ℤ, pos}
use luce_seed.Base.{ℕ, Bool, true, false, Option, none, some, map, if◌then◌else◌}
use luce_seed.Check.Kind.{TypeKind, int_bits, is_signed_int}
use luce_seed.Emit.Arith.{CExpr, as_i64, cast_to, run, word_cast}
use luce_seed.Interp.Value.{to_u64}
use luce_seed.Lex.Token.{TokenKind}
use luce_seed.Runtime.Arith.{qadd_s, qadd_u, qmul_s, qmul_u, qsub_s, qsub_u}
use luce_seed.Runtime.Word.{Outcome, done, ◌>>=◌}

pub data QuietHelper : Type 0 where
  qadd qsub qmul : QuietHelper

-- `{ r.present = lb_<helper>(x, y, bits, &o); r.value = (T)(o); r }`: the type of the value, the
-- helper, its form, the operands, and the literal of the width.
pub record COptional : Type 0 where
  pub payload : TypeKind
  pub helper : QuietHelper
  pub signed : Bool
  pub left : CExpr
  pub right : CExpr
  pub bits : ℕ

unfoldable pub quiet_helper_of : TokenKind → QuietHelper
quiet_helper_of TokenKind.plus_question = QuietHelper.qadd
quiet_helper_of TokenKind.minus_question = QuietHelper.qsub
quiet_helper_of _ = QuietHelper.qmul

unfoldable pub emit_optional : TypeKind → TokenKind → CExpr → CExpr → COptional
emit_optional t op l r = record {
  payload = t;
  helper = quiet_helper_of op;
  signed = is_signed_int t;
  left = word_cast t l;
  right = word_cast t r;
  bits = int_bits t;
}

-- What is left in `o`, where the helper answers that it is there.
unfoldable pub quiet_s : QuietHelper → ℤ → ℤ → ℕ → Option ℤ
quiet_s QuietHelper.qadd a b bits = qadd_s a b bits
quiet_s QuietHelper.qsub a b bits = qsub_s a b bits
quiet_s QuietHelper.qmul a b bits = qmul_s a b bits

unfoldable pub quiet_u : QuietHelper → ℕ → ℕ → ℕ → Option ℕ
quiet_u QuietHelper.qadd a b bits = qadd_u a b bits
quiet_u QuietHelper.qsub a b bits = qsub_u a b bits
quiet_u QuietHelper.qmul a b bits = qmul_u a b bits

abbrev pub map_option : (ℤ → ℤ) → Option ℤ → Option ℤ
map_option f none = none
map_option f (some x) = some (f x)

abbrev pub of_word : Option ℕ → Option ℤ
of_word none = none
of_word (some n) = some (pos n)

unfoldable pub run_optional : (ℕ → ℤ) → COptional → Outcome (Option ℤ)
run_optional env c = run env c.left >>= λ a. run env c.right >>= λ b.
    let out =
      if c.signed
      then quiet_s c.helper (as_i64 a) (as_i64 b) c.bits
      else of_word (quiet_u c.helper (to_u64 a) (to_u64 b) c.bits) in
    done (map_option (cast_to c.payload) out)
