-- ===== src/Tests/Compiled.antt =====
-- The theorems on compiled programs and on custom `init`s, at concrete values, and runs of the checks.
use luce_seed.Base.Bits.{all_below}
use luce_seed.Base.Int.{ℤ, pos, ◌+ℤ◌}
use luce_seed.Base.Words.{u64}
use luce_seed.Base.{
  ◌-◌, ◌^◌, ℕ, zero, suc, ◌≡◌, ◌↔◌, inl, inr, refl, arith, true, false, List, [], ◌∷◌, Bytes,
  bytes_eq, codes,
}
use luce_seed.Check.Init.Parts.{field_of_self, first}
use luce_seed.Check.Init.Paths.{
  Exec, exec_block, exec_then, normal, quiet, run_end, run_next, stores, stores_field,
}
use luce_seed.Check.Init.Returns.{always_returns, never_ends}
use luce_seed.Check.Init.Tree.{
  Expr, ExprKind, SimpleKind, Stmt, ◌⨾◌, assign, block, end, if_stmt, node, null, nothing, simple,
}
use luce_seed.Check.Init.{
  after_if, all_fields, assigned_field, check_init, count, expression, field_number,
  field_number_from, mentions_self, missing_from, same_set, statement, walk_assign,
}
use luce_seed.Check.Kind.{TypeKind, int_bits, int_mask, is_int, is_signed_int}
use luce_seed.Emit.Arith.Agrees.{emit_arith-agrees, is_binary, is_shift}
use luce_seed.Emit.Arith.Signed.{is_helper_arith, observed}
use luce_seed.Emit.Arith.Unary.{emit_unary_scalar-agrees}
use luce_seed.Emit.Arith.{
  c_operation, c_operator, cast_to, emit_arith, emit_unary_scalar, operand, run,
}
use luce_seed.Emit.Convert.Character.{emit_conversion-agrees}
use luce_seed.Emit.Convert.{emit_conversion, run_conversion}
use luce_seed.Emit.Optional.Agrees.{emit_optional-agrees, held, is_optional}
use luce_seed.Emit.Optional.{emit_optional, run_optional}
use luce_seed.Interp.Arith.Widths.{value_of}
use luce_seed.Interp.Arith.{as_optional, convert_int, int_arith, unary_scalar}
use luce_seed.Interp.Value.{Value, masked, to_u64, v_int}
use luce_seed.Lex.Token.{TokenKind}
use luce_seed.Runtime.Fixed.Packed.{
  IsPacked, Request, allocate, resize_newest, serve_all, serve_all-IsPacked,
}
use luce_seed.Runtime.Fixed.{Fixed, align_up, alloc_bytes, given}
use luce_seed.Runtime.Text.Scalar.{Decodes, utf8_ok-Decodes}
use luce_seed.Runtime.Text.Valid.{Walks, utf8_ok_iff}
use luce_seed.Runtime.Text.{ok_from, ok_round, ok_width, tail, utf8_ok}
use luce_seed.Runtime.Word.{done}

-- Two variables of type `i8`, which hold 100 and -28.
abbrev left : Value
left = v_int TypeKind.i8 100

abbrev right : Value
right = v_int TypeKind.i8 228

abbrev env : ℕ → ℤ
env zero = value_of TypeKind.i8 left
env (suc i) = value_of TypeKind.i8 right

emit_arith-agrees_example :
    run env (emit_arith false TypeKind.i8 TokenKind.minus (operand 0) (operand 1))
    ≡ observed TypeKind.i8 (int_arith TypeKind.i8 left right TokenKind.minus)
emit_arith-agrees_example =
    emit_arith-agrees env TypeKind.i8 TypeKind.i8 TokenKind.minus (operand 0) (operand 1) left right
      (unfold is_int in refl) (unfold is_int in refl) (unfold is_binary is_helper_arith in refl)
      (unfold is_shift in refl) (unfold run in refl) (unfold run in refl)

emit_unary_scalar-agrees_example :
    run env (emit_unary_scalar false TypeKind.i8 TokenKind.minus (operand 1))
    ≡ observed TypeKind.i8 (unary_scalar TypeKind.i8 right TokenKind.minus)
emit_unary_scalar-agrees_example =
    emit_unary_scalar-agrees env TypeKind.i8 TokenKind.minus (operand 1) right
      (unfold is_int in refl) (inr (inr (refl, unfold is_signed_int in refl))) (unfold run in refl)

-- In the initialiser of a file-scope variable a saturating operator wraps around.
abbrev near_top : ℕ → ℤ
near_top zero = pos 250
near_top (suc i) = pos 10

file_scope_wraps :
    run near_top (emit_arith true TypeKind.u8 TokenKind.plus_pipe (operand 0) (operand 1))
    ≡ done (pos 4)
unfolding emit_arith c_operator run c_operation cast_to is_signed_int int_bits masked int_mask
    to_u64 ◌+ℤ◌
file_scope_wraps = refl

emit_optional-agrees_example :
    run_optional env (emit_optional TypeKind.i8 TokenKind.minus_question (operand 0) (operand 1))
    ≡ done
        (held TypeKind.i8 (as_optional (int_arith TypeKind.i8 left right TokenKind.minus_question)))
emit_optional-agrees_example =
    emit_optional-agrees env TypeKind.i8 TokenKind.minus_question (operand 0) (operand 1) left right
      (unfold is_int in refl) (unfold is_optional in refl) (unfold run in refl) (unfold run in refl)

emit_conversion-agrees_example :
    run_conversion env (emit_conversion TypeKind.i8 TypeKind.u16 true (operand 1))
    ≡ observed TypeKind.u16 (convert_int right TypeKind.i8 TypeKind.u16 true)
emit_conversion-agrees_example =
    emit_conversion-agrees env TypeKind.i8 TypeKind.u16 (operand 1) right true
      (unfold is_int in refl) (inl (unfold is_int in refl)) (unfold run in refl)

-- An e with an acute accent.
abbrev accented : Bytes
accented = 0xC3 ∷ 0xA9 ∷ []

utf8_ok_iff_example : (utf8_ok accented ≡ true) ↔ Walks accented 0
utf8_ok_iff_example = utf8_ok_iff accented

utf8_ok-Decodes_example : Decodes accented 0
utf8_ok-Decodes_example =
    utf8_ok-Decodes accented (omega arith, (omega arith, tt))
      (unfold utf8_ok ok_from ok_round ok_width tail in refl)

-- A struct with the field `x`, whose `init` stores it in both branches of an `if`.
abbrev fields : List Bytes
fields = codes "x" ∷ []

abbrev leaf : ExprKind → Bytes → Expr → Expr
leaf kind text left = node kind TokenKind.end_of_file text false left null null null null

abbrev place : Expr
place = leaf ExprKind.member (codes "x") (leaf ExprKind.self (codes "self") null)

abbrev number : Expr
number = leaf ExprKind.literal (codes "1") null

abbrev store : Stmt
store = block (assign place TokenKind.eq number ⨾ end)

abbrev both : Stmt
both = block (if_stmt (leaf ExprKind.name (codes "c") null) store store ⨾ end)

abbrev run_of_both : Exec fields both normal (stores 0 ∷ [])
run_of_both = exec_block (
    run_next
      (exec_then quiet (
        exec_block
          (run_next (stores_field {place = place} 0 refl (field_of_self first) quiet) run_end)))
      run_end)

-- `init` may be left before a field is stored.
abbrev leaves : Stmt
leaves = block (simple SimpleKind.return null null ⨾ end)

-- That is not reported, nor is a field that is stored in one branch and once more behind the `if`.
leaves_early : check_init fields true leaves ≡ []
unfolding check_init statement expression mentions_self same_set all_below all_fields count
    always_returns
leaves_early = refl

stored_twice :
    check_init fields true
      (block (if_stmt number store nothing ⨾ assign place TokenKind.eq number ⨾ end))
    ≡ []
unfolding check_init statement walk_assign expression assigned_field field_number field_number_from
    bytes_eq mentions_self same_set all_below all_fields count after_if always_returns missing_from
    never_ends
stored_twice = refl

abbrev buffer : Fixed
buffer = record { cap = 64; used = 0 }

abbrev asked : List Request
asked = allocate 10 3 ∷ resize_newest 12 0 ∷ allocate 8 4 ∷ []

serve_all-IsPacked_example : IsPacked (serve_all asked buffer []).0 (serve_all asked buffer []).1
serve_all-IsPacked_example =
    serve_all-IsPacked asked buffer [] (omega arith)
      ((omega arith, omega arith), (tt, ((omega arith, omega arith), tt))) (omega arith, tt)

-- The sum of the offset and the size wraps around, and a block of 2^64 - 8 bytes is given.
wraps_around :
    alloc_bytes (record { cap = 16; used = 8 }) (2 ^ 64 - 8) 1
    ≡ (record { cap = 16; used = 0 }, given (record { start = 8; length = 2 ^ 64 - 8 }))
unfolding alloc_bytes align_up u64
wraps_around = refl
