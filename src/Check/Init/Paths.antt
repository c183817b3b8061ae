-- ===== src/Check/Init/Paths.antt =====
-- The runs of the body of a custom `init`: what they do to the fields, in order, and how they end. The
-- statements that `defer` and `errdefer` put off are left out of a run.
use luce_seed.Base.{ℕ, ◌≡◌, ◌≢◌, ◌⊎◌, List, [], ◌∷◌, ◌++◌, Bytes}
use luce_seed.Check.Init.Parts.{Breaks, IsFieldPlace, IsTrueLiteral, Mentions, NeverEnds}
use luce_seed.Check.Init.Tree.{
  Arms, Block, Expr, LoopKind, SimpleKind, Stmt, ◌⨾◌, arm, assign, block, break_stmt, continue_stmt,
  defer, end, errdefer, expr_stmt, if_stmt, loop, match_stmt, nothing, other_stmt, simple, while,
  for, with_allocator,
}
use luce_seed.Lex.Token.{TokenKind}

-- A store to the field of a number, or any other use of `self`; a store in a suite of a `catch`, which
-- stands in an expression, is such a use.
pub data Event : Type 0 where
  stores : ℕ → Event
  touches : Event

-- A statement is passed, or the loop or the function is left.
pub data Signal : Type 0 where
  normal broke continued left_function : Signal

-- An expression that mentions `self` uses it any number of times.
pub data Evaluates : Expr → List Event → Type 0 where
  quiet : {e : Expr} → Evaluates e []
  uses : {e : Expr} {τ : List Event} → Mentions e → Evaluates e τ → Evaluates e (touches ∷ τ)

-- A store that is not one to a field.
abbrev pub IsOther : List Bytes → Expr → TokenKind → Type 0
IsOther fields place op = (op ≢ TokenKind.eq) ⊎ ((f : ℕ) → IsFieldPlace fields place f → ⊥)

-- The two expressions that a statement evaluates before all else.
abbrev pub Reads : List Bytes → Stmt → Expr → Expr → Type 0
Reads fields (assign place op value) l r =
    (IsOther fields place op × (l ≡ place) × (r ≡ value))
    ⊎ ((op ≡ TokenKind.eq) × (l ≡ value) × (r ≡ Expr.null))
Reads fields (if_stmt c t e) l r = (l ≡ c) × (r ≡ Expr.null)
Reads fields (match_stmt e arms) l r = (l ≡ e) × (r ≡ Expr.null)
Reads fields (loop kind left right body) l r = (l ≡ left) × (r ≡ right)
Reads fields (simple kind left right) l r = (l ≡ left) × (r ≡ right)
Reads fields _ l r = ⊥

-- A statement is left from within an expression: with an error, or by a `return`, `continue` or `break`
-- in a suite of a `catch`.
abbrev pub MayLeave : Signal → Expr → Expr → Type 0
MayLeave normal l r = ⊥
MayLeave broke l r = Breaks l ⊎ Breaks r
MayLeave _ l r = Unit

-- A simple statement that may be passed.
abbrev pub MayPass : SimpleKind → Expr → Type 0
MayPass SimpleKind.return e = ⊥
MayPass SimpleKind.recover e = ⊥
MayPass expr_stmt e = NeverEnds e → ⊥
MayPass _ e = Unit

-- A loop that may be passed without a `break`.
abbrev pub MayEnd : LoopKind → Expr → Type 0
MayEnd while e = IsTrueLiteral e → ⊥
MayEnd for e = Unit
MayEnd with_allocator e = ⊥

-- A loop that may be passed by a `break` in what it evaluates itself.
abbrev pub MayBreak : LoopKind → Expr → Expr → Type 0
MayBreak while l r = Breaks l
MayBreak for l r = Breaks l ⊎ Breaks r
MayBreak with_allocator l r = ⊥

abbrev pub GoesOn : Signal → Type 0
GoesOn sg = (sg ≡ normal) ⊎ (sg ≡ continued)

-- A signal that an outer loop or the function takes.
abbrev pub Escapes : Signal → Type 0
Escapes sg = sg ≢ normal

abbrev pub IsLoop : LoopKind → Type 0
IsLoop kind = kind ≢ with_allocator

module _ (fields : List Bytes) where
  mutual
    pub data Exec : Stmt → Signal → List Event → Type 0 where
      exec_nothing : Exec nothing normal []
      exec_other : Exec other_stmt normal []
      exec_defer : {e : Expr} {s : Stmt} → Exec (defer e s) normal []
      exec_errdefer : {e : Expr} {s : Stmt} → Exec (errdefer e s) normal []
      exec_break : Exec break_stmt broke []
      exec_continue : Exec continue_stmt continued []
      exec_block : {b : Block} {sg : Signal} {τ : List Event} → Run b sg τ → Exec (block b) sg τ
      cut_short :
          {s : Stmt} {sg : Signal} {τ τ' : List Event} (l r : Expr)
          → Reads fields s l r
          → MayLeave sg l r
          → Evaluates l τ
          → Evaluates r τ'
          → Exec s sg (τ ++ τ')
      stores_field :
          {place value : Expr} {op : TokenKind} {τ : List Event} (f : ℕ)
          → op ≡ TokenKind.eq
          → IsFieldPlace fields place f
          → Evaluates value τ
          → Exec (assign place op value) normal (τ ++ stores f ∷ [])
      stores_other :
          {place value : Expr} {op : TokenKind} {τ τ' : List Event}
          → IsOther fields place op
          → Evaluates place τ
          → Evaluates value τ'
          → Exec (assign place op value) normal (τ ++ τ')
      exec_then :
          {c : Expr} {t e : Stmt} {sg : Signal} {τ τ' : List Event}
          → Evaluates c τ
          → Exec t sg τ'
          → Exec (if_stmt c t e) sg (τ ++ τ')
      exec_else :
          {c : Expr} {t e : Stmt} {sg : Signal} {τ τ' : List Event}
          → Evaluates c τ
          → Exec e sg τ'
          → Exec (if_stmt c t e) sg (τ ++ τ')
      exec_match :
          {e : Expr} {arms : Arms} {sg : Signal} {τ τ' : List Event}
          → Evaluates e τ
          → Chosen arms sg τ'
          → Exec (match_stmt e arms) sg (τ ++ τ')
      exec_simple :
          {kind : SimpleKind} {l r : Expr} {τ τ' : List Event}
          → MayPass kind l
          → Evaluates l τ
          → Evaluates r τ'
          → Exec (simple kind l r) normal (τ ++ τ')
      loop_done :
          {kind : LoopKind} {l r : Expr} {body : Stmt} {τ τ' : List Event}
          → MayEnd kind l
          → Evaluates l τ
          → Evaluates r τ'
          → Exec (loop kind l r body) normal (τ ++ τ')
      loop_cut :
          {kind : LoopKind} {l r : Expr} {body : Stmt} {τ τ' : List Event}
          → MayBreak kind l r
          → Evaluates l τ
          → Evaluates r τ'
          → Exec (loop kind l r body) normal (τ ++ τ')
      loop_skip :
          {kind : LoopKind} {l r : Expr} {body : Stmt} {sg : Signal} {τ τ' σ : List Event}
          → IsLoop kind
          → Evaluates l τ
          → Evaluates r τ'
          → Exec (loop kind l r body) sg σ
          → Exec (loop kind l r body) sg (τ ++ τ' ++ σ)
      loop_again :
          {kind : LoopKind} {l r : Expr} {body : Stmt} {sg sg' : Signal} {τ τ' σ σ' : List Event}
          → IsLoop kind
          → Evaluates l τ
          → Evaluates r τ'
          → Exec body sg σ
          → GoesOn sg
          → Exec (loop kind l r body) sg' σ'
          → Exec (loop kind l r body) sg' (τ ++ τ' ++ σ ++ σ')
      loop_break :
          {kind : LoopKind} {l r : Expr} {body : Stmt} {τ τ' σ : List Event}
          → IsLoop kind
          → Evaluates l τ
          → Evaluates r τ'
          → Exec body broke σ
          → Exec (loop kind l r body) normal (τ ++ τ' ++ σ)
      loop_left :
          {kind : LoopKind} {l r : Expr} {body : Stmt} {sg : Signal} {τ τ' σ : List Event}
          → Evaluates l τ
          → Evaluates r τ'
          → Exec body sg σ
          → Escapes sg
          → Exec (loop kind l r body) sg (τ ++ τ' ++ σ)
      with_done :
          {l r : Expr} {body : Stmt} {τ τ' σ : List Event}
          → Evaluates l τ
          → Evaluates r τ'
          → Exec body normal σ
          → Exec (loop with_allocator l r body) normal (τ ++ τ' ++ σ)

    pub data Run : Block → Signal → List Event → Type 0 where
      run_end : Run end normal []
      run_next :
          {s : Stmt} {b : Block} {sg : Signal} {τ τ' : List Event}
          → Exec s normal τ
          → Run b sg τ'
          → Run (s ⨾ b) sg (τ ++ τ')
      run_stop :
          {s : Stmt} {b : Block} {sg : Signal} {τ : List Event}
          → Exec s sg τ
          → Escapes sg
          → Run (s ⨾ b) sg τ

    -- Guards are evaluated in order until an arm is taken, or one is left from within.
    pub data Chosen : Arms → Signal → List Event → Type 0 where
      taken :
          {guard : Expr} {body : Stmt} {rest : Arms} {sg : Signal} {τ τ' : List Event}
          → Evaluates guard τ
          → Exec body sg τ'
          → Chosen (arm guard body rest) sg (τ ++ τ')
      passed :
          {guard : Expr} {body : Stmt} {rest : Arms} {sg : Signal} {τ τ' : List Event}
          → Evaluates guard τ
          → Chosen rest sg τ'
          → Chosen (arm guard body rest) sg (τ ++ τ')
      guard_leaves :
          {guard : Expr} {body : Stmt} {rest : Arms} {sg : Signal} {τ : List Event}
          → MayLeave sg guard Expr.null
          → Evaluates guard τ
          → Chosen (arm guard body rest) sg τ
