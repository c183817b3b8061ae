-- ===== src/Emit/Convert.antt =====
-- The C that `Emitter::emit_conv` of src/emit/expr.cpp writes for a conversion from an integer type or
-- `char` to an integer type or `char`, inside a function.
pub mod Agrees
pub mod Character
use luce_seed.Base.Int.{ℤ, pos}
use luce_seed.Base.{ℕ, Bool, true, false, if◌then◌else◌}
use luce_seed.Check.Kind.{TypeKind, int_bits, is_signed_int}
use luce_seed.Emit.Arith.{CExpr, as_i64, cast_to, run, word_cast}
use luce_seed.Interp.Value.{to_u64}
use luce_seed.Runtime.Convert.{conv_s, conv_u, to_char}
use luce_seed.Runtime.Word.{Outcome, done, ◌>>=◌}

abbrev pub is_char : TypeKind → Bool
is_char TypeKind.character = true
is_char _ = false

-- The arguments of `lb_conv_s` or `lb_conv_u`, and the type that the result goes to. The mode is 0
-- for a checked conversion.
pub record CConversion : Type 0 where
  pub word : CExpr
  pub from_bits : ℕ
  pub from_signed : Bool
  pub to_bits : ℕ
  pub to_signed : Bool
  pub checked : Bool
  pub dest : TypeKind

unfoldable pub emit_conversion : TypeKind → TypeKind → Bool → CExpr → CConversion
emit_conversion st dest checked e = record {
  word = word_cast st e;
  from_bits = if is_char st then 32 else int_bits st;
  from_signed = if is_char st then false else is_signed_int st;
  to_bits = if is_char dest then 32 else int_bits dest;
  to_signed = if is_char dest then false else is_signed_int dest;
  checked = checked;
  dest = dest;
}

-- The call of the helper that the source's sign chooses.
unfoldable pub run_call : CConversion → ℤ → Outcome ℤ
run_call c a =
    if c.from_signed
    then conv_s (as_i64 a) c.from_bits true c.to_bits c.to_signed c.checked
    else (conv_u (to_u64 a) c.from_bits false c.to_bits c.to_signed c.checked >>= λ n. done (pos n))

-- `lb_to_char` of the call for `char`, else its cast.
unfoldable pub run_conversion : (ℕ → ℤ) → CConversion → Outcome ℤ
run_conversion env c = run env c.word >>= λ a. run_call c a >>= λ r.
    if is_char c.dest
    then (to_char (to_u64 r) c.checked >>= λ n. done (pos n))
    else done (cast_to c.dest r)
