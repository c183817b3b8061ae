-- ===== src/Check/Init/Parts.antt =====
-- What an expression of a custom `init` is, apart from the tests of src/check: where a `break` or `self`
-- stands in it, which call never comes back, which literal is true, and which place is a field.
use luce_seed.Base.{ℕ, zero, suc, ◌≡◌, ◌≢◌, ◌⊎◌, Bool, true, List, ◌∷◌, Bytes, codes}
use luce_seed.Check.Init.Tree.{Expr, ExprKind, break, call, literal, member, name, node, self}
use luce_seed.Lex.Token.{TokenKind}

-- `self` stands in the expression.
pub data Mentions : Expr → Type 0 where
  here :
      {op : TokenKind} {text : Bytes} {never : Bool} {l r b t n : Expr}
      → Mentions (node self op text never l r b t n)
  in_left :
      {k : ExprKind} {op : TokenKind} {text : Bytes} {never : Bool} {l r b t n : Expr}
      → Mentions l
      → Mentions (node k op text never l r b t n)
  in_right :
      {k : ExprKind} {op : TokenKind} {text : Bytes} {never : Bool} {l r b t n : Expr}
      → Mentions r
      → Mentions (node k op text never l r b t n)
  in_body :
      {k : ExprKind} {op : TokenKind} {text : Bytes} {never : Bool} {l r b t n : Expr}
      → Mentions b
      → Mentions (node k op text never l r b t n)
  in_type :
      {k : ExprKind} {op : TokenKind} {text : Bytes} {never : Bool} {l r b t n : Expr}
      → Mentions t
      → Mentions (node k op text never l r b t n)
  in_next :
      {k : ExprKind} {op : TokenKind} {text : Bytes} {never : Bool} {l r b t n : Expr}
      → Mentions n
      → Mentions (node k op text never l r b t n)

-- A `break` stands in the expression, in a suite of its `catch`. A literal has no parts.
pub data Breaks : Expr → Type 0 where
  break_here :
      {op : TokenKind} {text : Bytes} {never : Bool} {l r b t n : Expr}
      → Breaks (node break op text never l r b t n)
  break_left :
      {k : ExprKind} {op : TokenKind} {text : Bytes} {never : Bool} {l r b t n : Expr}
      → k ≢ literal
      → Breaks l
      → Breaks (node k op text never l r b t n)
  break_right :
      {k : ExprKind} {op : TokenKind} {text : Bytes} {never : Bool} {l r b t n : Expr}
      → k ≢ literal
      → Breaks r
      → Breaks (node k op text never l r b t n)
  break_body :
      {k : ExprKind} {op : TokenKind} {text : Bytes} {never : Bool} {l r b t n : Expr}
      → k ≢ literal
      → Breaks b
      → Breaks (node k op text never l r b t n)
  break_type :
      {k : ExprKind} {op : TokenKind} {text : Bytes} {never : Bool} {l r b t n : Expr}
      → k ≢ literal
      → Breaks t
      → Breaks (node k op text never l r b t n)
  break_next :
      {k : ExprKind} {op : TokenKind} {text : Bytes} {never : Bool} {l r b t n : Expr}
      → k ≢ literal
      → Breaks n
      → Breaks (node k op text never l r b t n)

-- A call of `trap` or of `error`, or an expression of the type `Never`.
pub data NeverEnds : Expr → Type 0 where
  gives_up :
      {op op' : TokenKind} {text text' : Bytes} {never never' : Bool}
      {r b t n l' r' b' t' n' : Expr}
      → (text' ≡ codes "trap") ⊎ (text' ≡ codes "error")
      → NeverEnds (node call op text never (node name op' text' never' l' r' b' t' n') r b t n)
  of_never :
      {k : ExprKind} {op : TokenKind} {text : Bytes} {l r b t n : Expr}
      → NeverEnds (node k op text true l r b t n)

pub data IsTrueLiteral : Expr → Type 0 where
  literal_true :
      {text : Bytes} {never : Bool} {l r b t n : Expr}
      → IsTrueLiteral (node literal TokenKind.kw_true text never l r b t n)

-- The number of a field: that of the first one with the name.
pub data IsField : List Bytes → Bytes → ℕ → Type 0 where
  first : {f : Bytes} {fields : List Bytes} → IsField (f ∷ fields) f zero
  later :
      {f text : Bytes} {fields : List Bytes} {i : ℕ}
      → f ≢ text
      → IsField fields text i
      → IsField (f ∷ fields) text (suc i)

-- `self.name`, where the field `name` has the number.
pub data IsFieldPlace (fields : List Bytes) : Expr → ℕ → Type 0 where
  field_of_self :
      {op op' : TokenKind} {text text' : Bytes} {never never' : Bool}
      {r b t n l' r' b' t' n' : Expr} {i : ℕ}
      → IsField fields text i
      → IsFieldPlace fields
          (node member op text never (node self op' text' never' l' r' b' t' n') r b t n)
          i
