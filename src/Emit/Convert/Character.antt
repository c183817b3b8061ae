-- ===== src/Emit/Convert/Character.antt =====
-- All conversions from an integer type, those to `char` included, of a compiled program against those of the interpreter.
use luce_seed.Base.Int.{ℤ, pos, negsuc, is_negative}
use luce_seed.Base.Words.{u64_max}
use luce_seed.Base.{
  ℕ, ◌%◌, ◌^◌, ◌≤◌, ◌≡◌, ◌⊎◌, inl, inr, arith, refl, sym, ◌∙◌, ap, Bool, true, false, not, ◌&&◌,
  Bool-cases, if◌then◌else◌,
}
use luce_seed.Check.Kind.{TypeKind, int_bits, int_mask, is_int, is_signed_int, is_unsigned_int}
use luce_seed.Emit.Arith.Agrees.{there_and_back, twice, word_of}
use luce_seed.Emit.Arith.Signed.{observed}
use luce_seed.Emit.Arith.{CExpr, run, word_cast}
use luce_seed.Emit.Convert.Agrees.{source_int, source_s, source_u, to_int}
use luce_seed.Emit.Convert.{emit_conversion, run_call, run_conversion}
use luce_seed.Interp.Arith.Convert.{source_parts}
use luce_seed.Interp.Arith.Exact.{as_u_fits}
use luce_seed.Interp.Arith.Widths.{value_of}
use luce_seed.Interp.Arith.{convert_int, fits_destination, stored_bits}
use luce_seed.Interp.Value.{Value, as_s, as_u, bits_of, masked, to_i64, to_u64, v_int}
use luce_seed.Runtime.Convert.{checked_bits, conv_s, conv_u, fits_u, to_char}
use luce_seed.Runtime.Word.{Outcome, done, ◌>>=◌, mask_bits, stop, zext}

-- The outcome for `char` of a sign and a word.
abbrev char_outcome : Bool → ℕ → Bool → Outcome ℤ
char_outcome negative n c =
    if c && not (fits_destination negative n TypeKind.character)
    then stop "integer conversion out of range"
    else done (pos (n % 2 ^ 32))

char_s :
    (negative : Bool) (n : ℕ) (c : Bool)
    → n ≤ u64_max
    → ((if c
          then (checked_bits (record { negative = negative; bits = n }) 32 false >>= λ r.
              done (to_i64 r))
          else done (to_i64 (zext n 32)))
        >>= λ r. to_char (to_u64 r) c >>= λ k. done (pos k))
      ≡ char_outcome negative n c
unfolding checked_bits fits_u mask_bits zext to_char fits_destination to_i64 to_u64
char_s negative n c h = ground (arith, h)

char_u :
    (n : ℕ) (c : Bool)
    → n ≤ u64_max
    → (((if c
            then checked_bits (record { negative = false; bits = n }) 32 false
            else done (zext n 32))
          >>= λ r. done (pos r))
        >>= λ r. to_char (to_u64 r) c >>= λ k. done (pos k))
      ≡ char_outcome false n c
unfolding checked_bits fits_u mask_bits zext to_char fits_destination to_u64
char_u n c h = ground (arith, h)

to_u64_le : (e : ℤ) → to_u64 e ≤ u64_max
unfolding to_u64
to_u64_le (pos n) = omega arith
to_u64_le (negsuc n) = omega arith

interpreted_char :
    (src : TypeKind) (v : Value) (c : Bool)
    → is_int src ≡ true
    → observed TypeKind.character (convert_int v src TypeKind.character c)
      ≡ char_outcome (is_negative (value_of src v)) (to_u64 (value_of src v)) c
unfolding convert_int stored_bits as_u v_int masked is_signed_int is_int to_u64 int_mask bits_of
    int_bits
interpreted_char src v c int' =
    let e = value_of src v in
    let (negative, bits, wide) = source_parts src int' v in
    let word : to_u64 e % 2 ^ 32 % 2 ^ 64 ≡ to_u64 e % 2 ^ 32 = omega arith in
    rw (convert_int, negative, bits)
      (elim (Bool-cases
        (c && not (fits_destination (is_negative e) (to_u64 e) TypeKind.character))) [
          | inl out ↦ rw out refl
          | inr fits ↦ rw fits (ap (λ n. done (pos n)) word)
        ])

module _ (env : ℕ → ℤ) (src : TypeKind) (int' : is_int src ≡ true) (x : CExpr) (v : Value)
    (c : Bool) (hx : run env x ≡ done (value_of src v)) where
  to_character :
      run_conversion env (emit_conversion src TypeKind.character c x)
      ≡ observed TypeKind.character (convert_int v src TypeKind.character c)
  unfolding run_conversion emit_conversion run_call run word_cast is_unsigned_int conv_s conv_u
  to_character = elim (Bool-cases (is_signed_int src)) [
    | inl signed ↦
        rw
          (
            source_int src int',
            signed,
            int',
            rw signed at hx,
            there_and_back (as_s v src),
            there_and_back (as_s v src),
            source_s src int' v signed,
          )
          (char_s (is_negative (as_s v src)) (to_u64 (as_s v src)) c (to_u64_le (as_s v src))
            ∙ sym (rw signed at (interpreted_char src v c int')))
    | inr unsigned ↦
        let word = word_of src (as_u v src) int' (as_u_fits src int' v v v) in
        rw
          (
            source_int src int',
            unsigned,
            int',
            rw unsigned at hx,
            twice (pos (as_u v src)),
            word,
            source_u src int' v unsigned,
          )
          (char_u (to_u64 (pos (as_u v src))) c (to_u64_le (pos (as_u v src)))
            ∙ sym (rw unsigned at (interpreted_char src v c int')))
  ]

-- A conversion from an integer type to an integer type or `char`, checked or not, gives in a compiled
-- program the number that it gives in the interpreter, and stops the program with the message that
-- the interpreter traps with.
pub emit_conversion-agrees :
    (env : ℕ → ℤ) (src dest : TypeKind) (x : CExpr) (v : Value) (c : Bool)
    → is_int src ≡ true
    → (is_int dest ≡ true) ⊎ (dest ≡ TypeKind.character)
    → run env x ≡ done (value_of src v)
    → run_conversion env (emit_conversion src dest c x) ≡ observed dest (convert_int v src dest c)
emit_conversion-agrees env src dest x v c int' (inl int) hx = to_int dest int env src int' x v c hx
emit_conversion-agrees env src dest x v c int' (inr e) hx =
    rw e (to_character env src int' x v c hx)
