-- ===== src/Check/Init/Returns.antt =====
-- Whether a statement leaves, and whether a `break` stands in it: `Checker::always_returns` and
-- `Checker::contains_break` of src/check/stmt.cpp.
use luce_seed.Base.{Bool, true, false, not, ◌&&◌, ◌||◌, bytes_eq, codes}
use luce_seed.Check.Init.Tree.{
  Arms, Block, Expr, Stmt, ◌⨾◌, arm, assign, block, break, break_stmt, call, continue_stmt, defer,
  end, errdefer, expr_stmt, if_stmt, literal, loop, match_stmt, name, no_arms, node, nothing, null,
  other_stmt, recover, return, simple, while, with_allocator,
}
use luce_seed.Lex.Token.{TokenKind}

unfoldable pub expr_contains_break : Expr → Bool
expr_contains_break null = false
expr_contains_break (node break op text never left right body type next) = true
expr_contains_break (node kind op text never left right body type next) =
    expr_contains_break left
    || expr_contains_break right
    || expr_contains_break body
    || expr_contains_break type
    || expr_contains_break next

unfoldable mutual
  pub contains_break : Stmt → Bool
  contains_break nothing = false
  contains_break break_stmt = true
  contains_break continue_stmt = false
  contains_break other_stmt = false
  contains_break (defer e body) = expr_contains_break e || contains_break body
  contains_break (errdefer e body) = expr_contains_break e || contains_break body
  contains_break (block b) = block_contains_break b
  contains_break (assign place op value) = expr_contains_break place || expr_contains_break value
  contains_break (if_stmt c then_part else_part) =
      expr_contains_break c || contains_break else_part || contains_break then_part
  contains_break (match_stmt e arms) = expr_contains_break e || arms_contain_break arms
  contains_break (loop kind left right body) =
      expr_contains_break left || expr_contains_break right || contains_break body
  contains_break (simple kind left right) = expr_contains_break left || expr_contains_break right

  pub block_contains_break : Block → Bool
  block_contains_break end = false
  block_contains_break (s ⨾ rest) = contains_break s || block_contains_break rest

  pub arms_contain_break : Arms → Bool
  arms_contain_break no_arms = false
  arms_contain_break (arm guard body rest) =
      contains_break body || expr_contains_break guard || arms_contain_break rest

-- A call of `trap` or `error`, or an expression of type `Never`.
unfoldable pub never_ends : Expr → Bool
never_ends null = false
never_ends (node call op text never (node name op' text' never' l r b t n) right body type next) =
    bytes_eq text' (codes "trap") || bytes_eq text' (codes "error") || never
never_ends (node kind op text never left right body type next) = never

abbrev pub is_true : Expr → Bool
is_true (node literal TokenKind.kw_true text never left right body type next) = true
is_true _ = false

unfoldable mutual
  pub always_returns : Stmt → Bool
  always_returns (simple return left right) = true
  always_returns (simple recover left right) = true
  always_returns (simple expr_stmt left right) = never_ends left
  always_returns (block b) = block_returns b
  always_returns (if_stmt c then_part else_part) =
      always_returns then_part && always_returns else_part
  always_returns (loop with_allocator left right body) = always_returns body
  always_returns (loop while left right body) = is_true left && not (contains_break body)
  always_returns (match_stmt e no_arms) = false
  always_returns (match_stmt e (arm guard body rest)) = always_returns body && arms_return rest
  always_returns _ = false

  pub block_returns : Block → Bool
  block_returns end = false
  block_returns (s ⨾ rest) = always_returns s || block_returns rest

  pub arms_return : Arms → Bool
  arms_return no_arms = true
  arms_return (arm guard body rest) = always_returns body && arms_return rest
