-- ===== src/Check/Init/Recognised.antt =====
-- The tests of src/check on an expression find what the expression is.
use luce_seed.Base.{
  ℕ, suc, ◌+◌, ◌≡◌, inl, inr, refl, ◌∙◌, ap, arith, Bool, true, false, ◌||◌, Bool-cases,
  Option-cases, none, some, List, [], ◌∷◌, Bytes, bytes_eq, bytes_eq_iff, codes,
}
use luce_seed.Check.Init.Parts.{
  Breaks, IsField, IsFieldPlace, IsTrueLiteral, NeverEnds, break_body, break_here, break_left,
  break_next, break_right, break_type, field_of_self, first, gives_up, later, literal_true,
  of_never,
}
use luce_seed.Check.Init.Returns.{expr_contains_break, is_true, never_ends}
use luce_seed.Check.Init.Tree.{Expr, ExprKind, break, call, literal, member, name, node, null, self}
use luce_seed.Check.Init.{assigned_field, field_number, field_number_from, is_eq}
use luce_seed.Lex.Token.{TokenKind}

-- A link in which a `break` stands makes its node one in which it stands.
node_breaks :
    (k : ExprKind) (op : TokenKind) (text : Bytes) (never : Bool) (l r b t n : Expr)
    → (expr_contains_break l
        || expr_contains_break r
        || expr_contains_break b
        || expr_contains_break t
        || expr_contains_break n)
      ≡ true
    → expr_contains_break (node k op text never l r b t n) ≡ true
unfolding expr_contains_break
node_breaks break op text never l r b t n h = refl
node_breaks _ op text never l r b t n h = h

pub expr_contains_break_lem : {e : Expr} → Breaks e → expr_contains_break e ≡ true
unfolding expr_contains_break
expr_contains_break_lem break_here = refl
expr_contains_break_lem (break_left {l = l} {r = r} {b = b} {t = t} {n = n} k m) =
    node_breaks _ _ _ _ l r b t n (ground (arith, expr_contains_break_lem m))
expr_contains_break_lem (break_right {l = l} {r = r} {b = b} {t = t} {n = n} k m) =
    node_breaks _ _ _ _ l r b t n (ground (arith, expr_contains_break_lem m))
expr_contains_break_lem (break_body {l = l} {r = r} {b = b} {t = t} {n = n} k m) =
    node_breaks _ _ _ _ l r b t n (ground (arith, expr_contains_break_lem m))
expr_contains_break_lem (break_type {l = l} {r = r} {b = b} {t = t} {n = n} k m) =
    node_breaks _ _ _ _ l r b t n (ground (arith, expr_contains_break_lem m))
expr_contains_break_lem (break_next {l = l} {r = r} {b = b} {t = t} {n = n} k m) =
    node_breaks _ _ _ _ l r b t n (ground (arith, expr_contains_break_lem m))

true_literal : (e : Expr) → is_true e ≡ true → IsTrueLiteral e
true_literal (node literal TokenKind.kw_true text never l r b t n) h = literal_true
true_literal _ h = absurd cc

-- A literal that is not true, as the checker tests it.
pub is_true-IsTrueLiteral : (e : Expr) → (IsTrueLiteral e → ⊥) → is_true e ≡ false
is_true-IsTrueLiteral e never_so = elim (Bool-cases (is_true e)) [
  | inl holds ↦ absurd (never_so (true_literal e holds))
  | inr h ↦ h
]

-- No `break` stands in the literal `true`.
pub is_true-Breaks : {e : Expr} → Breaks e → is_true e ≡ false
is_true-Breaks break_here = refl
is_true-Breaks (break_left {k = literal} k m) = absurd (k refl)
is_true-Breaks (break_right {k = literal} k m) = absurd (k refl)
is_true-Breaks (break_body {k = literal} k m) = absurd (k refl)
is_true-Breaks (break_type {k = literal} k m) = absurd (k refl)
is_true-Breaks (break_next {k = literal} k m) = absurd (k refl)
is_true-Breaks _ = refl

never_flag :
    (k : ExprKind) (op : TokenKind) (text : Bytes) (never : Bool) (l r b t n : Expr)
    → never ≡ true
    → NeverEnds (node k op text never l r b t n)
never_flag k op text true l r b t n h = of_never
never_flag k op text false l r b t n h = absurd cc

called :
    (op op' : TokenKind) (text text' : Bytes) (never never' : Bool) (r b t n l' r' b' t' n' : Expr)
    → (bytes_eq text' (codes "trap") || bytes_eq text' (codes "error") || never) ≡ true
    → NeverEnds (node call op text never (node name op' text' never' l' r' b' t' n') r b t n)
called op op' text text' never never' r b t n l' r' b' t' n' h =
    elim (Bool-cases (bytes_eq text' (codes "trap"))) [
      | inl trap ↦ gives_up (inl ((bytes_eq_iff text' (codes "trap")).0 trap))
      | inr differs ↦ elim (Bool-cases (bytes_eq text' (codes "error"))) [
        | inl error ↦ gives_up (inr ((bytes_eq_iff text' (codes "error")).0 error))
        | inr neither ↦ never_flag _ _ _ never _ _ _ _ _ (rw (differs, neither) at h)
      ]
    ]

never_ends-NeverEnds : (e : Expr) → never_ends e ≡ true → NeverEnds e
unfolding never_ends
never_ends-NeverEnds null h = absurd cc
never_ends-NeverEnds (node call op text never (node name op' text' never' l' r' b' t' n') r b t n)
      h =
    called op op' text text' never never' r b t n l' r' b' t' n' h
never_ends-NeverEnds (node k op text never l r b t n) h = never_flag k op text never l r b t n h

pub never_ends_lem : (e : Expr) → (NeverEnds e → ⊥) → never_ends e ≡ false
never_ends_lem e never_so = elim (Bool-cases (never_ends e)) [
  | inl holds ↦ absurd (never_so (never_ends-NeverEnds e holds))
  | inr h ↦ h
]

pub is_eq_lem : (op : TokenKind) → is_eq op ≡ true → op ≡ TokenKind.eq
is_eq_lem TokenKind.eq h = refl
is_eq_lem _ h = absurd cc

from_lem :
    (i k : ℕ) (fields : List Bytes) (text : Bytes)
    → IsField fields text k
    → field_number_from i fields text ≡ some (i + k)
unfolding field_number_from
from_lem i k [] text d = elim d [ ]
from_lem i k (f ∷ fields) text first = rw ((bytes_eq_iff text text).1 refl) (ap some (omega arith))
from_lem i (suc k) (f ∷ fields) text (later apart d) =
    let (forth, back) = bytes_eq_iff f text in
    elim (Bool-cases (bytes_eq f text)) [
      | inl same ↦ absurd (apart (forth same))
      | inr h ↦ rw h (from_lem (i + 1) k fields text d ∙ ap some (omega arith))
    ]

-- The number that the walk gives a field, and only to one.
pub assigned_field_lem :
    (fields : List Bytes) (place : Expr) (f : ℕ)
    → IsFieldPlace fields place f
    → assigned_field place fields ≡ some f
unfolding assigned_field field_number
assigned_field_lem fields place f (field_of_self {text = text} d) =
    from_lem 0 f fields text d ∙ ap some (omega arith)

from_some :
    (i : ℕ) (fields : List Bytes) (text : Bytes) (m : ℕ)
    → field_number_from i fields text ≡ some m
    → (k : ℕ) × IsField fields text k
unfolding field_number_from
from_some i [] text m h = absurd cc
from_some i (f ∷ fields) text m h =
    let (forth, back) = bytes_eq_iff f text in
    elim (Bool-cases (bytes_eq f text)) [
      | inl same ↦ (0, rw (forth same) first)
      | inr differs ↦
          let (k, d) = from_some (i + 1) fields text m (rw differs at h) in
          (suc k, later (λ e. absurd (ground (arith, differs, back e))) d)
    ]

place_of :
    (fields : List Bytes) (place : Expr) (m : ℕ)
    → assigned_field place fields ≡ some m
    → (k : ℕ) × IsFieldPlace fields place k
unfolding assigned_field field_number
place_of fields (node member op text never (node self op' text' never' l' r' b' t' n') r b t n) m
      h =
    let (k, d) = from_some 0 fields text m h in (k, field_of_self d)
place_of fields _ m h = absurd cc

pub assigned_field-none :
    (fields : List Bytes) (place : Expr)
    → ((f : ℕ) → IsFieldPlace fields place f → ⊥)
    → assigned_field place fields ≡ none
assigned_field-none fields place never_so = elim (Option-cases (assigned_field place fields)) [
  | inl missing ↦ missing
  | inr (m, found) ↦ let (k, d) = place_of fields place m found in absurd (never_so k d)
]
