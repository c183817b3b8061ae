-- ===== src/Check/Init/Tree.antt =====
-- The nodes of src/parse/ast.h that a custom `init` is walked by. A statement's kind is its constructor,
-- an expression is a node with its links.
use luce_seed.Base.{Bool, Bytes}
use luce_seed.Lex.Token.{TokenKind}

-- The kinds of expression nodes that the walk tells apart; `other` is any other kind.
pub data ExprKind : Type 0 where
  self member name literal call break other : ExprKind

-- The links are `left`, `right`, `body`, `type` and `next`; the flag says that the node's type is `Never`.
pub data Expr : Type 0 where
  null : Expr
  node : ExprKind → TokenKind → Bytes → Bool → Expr → Expr → Expr → Expr → Expr → Expr

pub data LoopKind : Type 0 where
  while for with_allocator : LoopKind

pub data SimpleKind : Type 0 where
  let_stmt var_stmt return recover expr_stmt free : SimpleKind

infixr 60 ◌⨾◌
-- A null link is `nothing`. The links of a loop and of a simple statement are `left` and `right`, an
-- arm's are its guard and its body.
mutual
  pub data Stmt : Type 0 where
    nothing break_stmt continue_stmt other_stmt : Stmt
    defer errdefer : Expr → Stmt → Stmt
    block : Block → Stmt
    assign : Expr → TokenKind → Expr → Stmt
    if_stmt : Expr → Stmt → Stmt → Stmt
    match_stmt : Expr → Arms → Stmt
    loop : LoopKind → Expr → Expr → Stmt → Stmt
    simple : SimpleKind → Expr → Expr → Stmt

  pub data Block : Type 0 where
    end : Block
    ◌⨾◌ : Stmt → Block → Block

  pub data Arms : Type 0 where
    no_arms : Arms
    arm : Expr → Stmt → Arms → Arms
