-- ===== src/Emit/Optional/Agrees.antt =====
-- The optional operators of a compiled program against those of the interpreter.
use luce_seed.Base.Int.{ℤ, pos}
use luce_seed.Base.{
  ℕ, ◌≡◌, ◌⊎◌, inl, inr, arith, refl, sym, ◌∙◌, ap, Bool, true, false, Bool-cases, Option, none,
  some, if◌then◌else◌,
}
use luce_seed.Check.Kind.{TypeKind, int_bits, is_int, is_signed_int, is_unsigned_int}
use luce_seed.Emit.Arith.Agrees.{there_and_back, twice, word_of, int_arith-plain}
use luce_seed.Emit.Arith.Signed.{as_type, is_helper_arith, helper_s_lem, observed}
use luce_seed.Emit.Arith.Unsigned.{helper_u_lem, unsigned_outcome}
use luce_seed.Emit.Arith.{
  CExpr, Helper, as_i64, cast_to, helper_of, helper_s, helper_u, run, word_cast,
}
use luce_seed.Emit.Optional.{
  emit_optional, map_option, of_word, quiet_helper_of, quiet_s, quiet_u, run_optional,
}
use luce_seed.Interp.Arith.Exact.{as_u_fits}
use luce_seed.Interp.Arith.Widths.{as_s-IsInRange, value_of}
use luce_seed.Interp.Arith.{Result, arith_s, arith_u, as_optional, exact_s, int_arith, trap, value}
use luce_seed.Interp.Value.{Value, as_s, as_u}
use luce_seed.Lex.Token.{TokenKind}
use luce_seed.Runtime.Arith.{
  add_s, add_u, checked, mul_s, mul_u, qadd_s, qadd_u, qmul_s, qmul_u, qsub_s, qsub_u, quiet, sub_s,
  sub_u,
}
use luce_seed.Runtime.Word.{Outcome, done, stop}

-- An outcome without its message.
abbrev to_option {ℓ} : {A : Type ℓ} → Outcome A → Option A
to_option (done x) = some x
to_option (stop message) = none

-- The number that the interpreter's optional holds.
abbrev pub held : TypeKind → Value → Option ℤ
held t v = if v.present then some (value_of t v) else none

one_test {ℓ} :
    {A : Type ℓ} (c : Bool) (x : A)
    → (if c then none else some x) ≡ to_option (if c then stop "integer overflow" else done x)
one_test true x = refl
one_test false x = refl

two_tests {ℓ} :
    {A : Type ℓ} (wide c d : Bool) (x : A)
    → (if wide then (if c then none else some x) else if d then none else some x)
      ≡ to_option (
          if wide
          then (if c then stop "integer overflow" else done x)
          else if d
          then stop "integer overflow"
          else done x)
two_tests true c d x = one_test c x
two_tests false c d x = one_test d x

map_option-to_option :
    (t : TypeKind) (o : Outcome ℤ) → map_option (cast_to t) (to_option o) ≡ to_option (as_type t o)
map_option-to_option t (done x) = refl
map_option-to_option t (stop message) = refl

of_word-to_option : (o : Outcome ℕ) → of_word (to_option o) ≡ to_option (unsigned_outcome o)
of_word-to_option (done x) = refl
of_word-to_option (stop message) = refl

held-as_optional : (t : TypeKind) (r : Result) → held t (as_optional r) ≡ to_option (observed t r)
unfolding as_optional as_s as_u
held-as_optional t (value v) = refl
held-as_optional t (trap message) = refl

-- An optional operator, the one that traps where it is absent, and the helper of that one.
abbrev pub IsOptional : TokenKind → TokenKind → Helper → Type 0
IsOptional op p h =
    ((op ≡ TokenKind.plus_question) × (p ≡ TokenKind.plus) × (h ≡ Helper.add))
    ⊎ (((op ≡ TokenKind.minus_question) × (p ≡ TokenKind.minus) × (h ≡ Helper.sub))
        ⊎ ((op ≡ TokenKind.star_question) × (p ≡ TokenKind.star) × (h ≡ Helper.mul)))

quiet-checked : (e : ℤ) (bits : ℕ) → quiet e bits ≡ to_option (checked e bits)
unfolding quiet checked
quiet-checked e bits = one_test _ _

quiet_s_lem :
    (op p : TokenKind) (h : Helper) (a b : ℤ) (bits : ℕ)
    → IsOptional op p h
    → quiet_s (quiet_helper_of op) a b bits ≡ to_option (helper_s h a b bits)
unfolding quiet_s quiet_helper_of helper_s qadd_s qsub_s qmul_s add_s sub_s mul_s
quiet_s_lem op p h a b bits (inl (o, q, k)) = rw (o, k) (quiet-checked _ _)
quiet_s_lem op p h a b bits (inr (inl (o, q, k))) = rw (o, k) (quiet-checked _ _)
quiet_s_lem op p h a b bits (inr (inr (o, q, k))) = rw (o, k) (quiet-checked _ _)

quiet_u_lem :
    (op p : TokenKind) (h : Helper) (a b bits : ℕ)
    → IsOptional op p h
    → quiet_u (quiet_helper_of op) a b bits ≡ to_option (helper_u h a b bits)
unfolding quiet_u quiet_helper_of helper_u qadd_u qsub_u qmul_u add_u sub_u mul_u
quiet_u_lem op p h a b bits (inl (o, q, k)) = rw (o, k) (two_tests _ _ _ _)
quiet_u_lem op p h a b bits (inr (inl (o, q, k))) = rw (o, k) (one_test _ _)
quiet_u_lem op p h a b bits (inr (inr (o, q, k))) = rw (o, k) (one_test _ _)

module _ (t : TypeKind) (op p : TokenKind) (h : Helper) (known : IsOptional op p h) where
  plain : is_helper_arith p ≡ true
  unfolding is_helper_arith
  plain = ground (arith, known)

  is_helper : (name : Helper) → helper_of p ≡ some name → name ≡ h
  unfolding helper_of
  is_helper name e = ground (arith, known, e)

  same_arith : (l r : Value) → int_arith t l r op ≡ int_arith t l r p
  unfolding int_arith arith_s arith_u exact_s
  same_arith l r = elim known as (λ k. int_arith t l r op ≡ int_arith t l r p) [
    | inl (o, q, k) ↦ rw (o, q) refl
    | inr (inl (o, q, k)) ↦ rw (o, q) refl
    | inr (inr (o, q, k)) ↦ rw (o, q) refl
  ]

  module _ (env : ℕ → ℤ) (int : is_int t ≡ true) (x y : CExpr) (l r : Value)
      (hx : run env x ≡ done (value_of t l)) (hy : run env y ≡ done (value_of t r)) where
    agrees_as :
        run_optional env (emit_optional t op x y)
        ≡ done (to_option (observed t (int_arith t l r p)))
    unfolding run_optional emit_optional run word_cast is_unsigned_int
    agrees_as = elim (Bool-cases (is_signed_int t)) [
      | inl signed ↦
          let la = as_s-IsInRange t signed l in
          let lb = as_s-IsInRange t signed r in
          let (name, named, same) = helper_s_lem t signed (as_s l t) (as_s r t) la lb p plain in
          let fixed = rw (is_helper name named) at same in
          rw
            (
              signed,
              int,
              rw signed at hx,
              rw signed at hy,
              there_and_back (as_s l t),
              there_and_back (as_s r t),
              quiet_s_lem op p h (as_i64 (as_s l t)) (as_i64 (as_s r t)) (int_bits t) known,
              map_option-to_option t
                  (helper_s h (as_i64 (as_s l t)) (as_i64 (as_s r t)) (int_bits t)),
            )
            (ap done (
              ap to_option
                (fixed ∙ ap (observed t) (sym (rw signed at (int_arith-plain t l r p plain))))))
      | inr unsigned ↦
          let la = as_u_fits t int l l l in
          let lb = as_u_fits t int r r r in
          let (name, named, same) =
            helper_u_lem t int unsigned (as_u l t) (as_u r t) la lb p plain in
          let fixed = rw (is_helper name named) at same in
          rw
            (
              unsigned,
              int,
              rw unsigned at hx,
              rw unsigned at hy,
              twice (pos (as_u l t)),
              twice (pos (as_u r t)),
              word_of t (as_u l t) int la,
              word_of t (as_u r t) int lb,
              quiet_u_lem op p h (as_u l t) (as_u r t) (int_bits t) known,
              of_word-to_option (helper_u h (as_u l t) (as_u r t) (int_bits t)),
              map_option-to_option t
                  (unsigned_outcome (helper_u h (as_u l t) (as_u r t) (int_bits t))),
            )
            (ap done (
              ap to_option
                (fixed ∙ ap (observed t) (sym (rw unsigned at (int_arith-plain t l r p plain))))))
    ]

    agrees :
        run_optional env (emit_optional t op x y) ≡ done (held t (as_optional (int_arith t l r op)))
    agrees =
        agrees_as
        ∙ ap done (sym (held-as_optional t (int_arith t l r p)))
        ∙ ap (λ o. done (held t (as_optional o))) (sym (same_arith l r))

unfoldable pub is_optional : TokenKind → Bool
is_optional TokenKind.plus_question = true
is_optional TokenKind.minus_question = true
is_optional TokenKind.star_question = true
is_optional _ = false

known-IsOptional :
    (op : TokenKind) → is_optional op ≡ true → (p : TokenKind) × (h : Helper) × IsOptional op p h
unfolding is_optional
known-IsOptional TokenKind.plus_question e = (TokenKind.plus, Helper.add, inl (refl, refl, refl))
known-IsOptional TokenKind.minus_question e =
    (TokenKind.minus, Helper.sub, inr (inl (refl, refl, refl)))
known-IsOptional TokenKind.star_question e =
    (TokenKind.star, Helper.mul, inr (inr (refl, refl, refl)))
known-IsOptional _ e = absurd (ground arith)

-- `+?`, `-?` and `*?` on an integer type never stop a compiled program, and hold there the number that
-- they hold in the interpreter, or are absent where they are absent in the interpreter.
pub emit_optional-agrees :
    (env : ℕ → ℤ) (t : TypeKind) (op : TokenKind) (x y : CExpr) (l r : Value)
    → is_int t ≡ true
    → is_optional op ≡ true
    → run env x ≡ done (value_of t l)
    → run env y ≡ done (value_of t r)
    → run_optional env (emit_optional t op x y) ≡ done (held t (as_optional (int_arith t l r op)))
emit_optional-agrees env t op x y l r int e hx hy =
    let (p, h, known) = known-IsOptional op e in agrees t op p h known env int x y l r hx hy
