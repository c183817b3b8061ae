-- ===== src/Check/Init/Leaves.antt =====
-- A statement that always returns is never passed, and one without a `break` never ends with one.
use luce_seed.Base.{◌≡◌, ◌≢◌, ◌⊎◌, inl, inr, refl, arith, true, false, List, Bytes}
use luce_seed.Check.Init.Parts.{Breaks}
use luce_seed.Check.Init.Paths.{
  Chosen, Event, Exec, MayLeave, Reads, Run, Signal, cut_short, guard_leaves, loop_cut, loop_skip,
  broke, exec_block, exec_break, exec_else, exec_match, exec_simple, exec_nothing, exec_other,
  exec_defer, exec_errdefer, stores_field, stores_other, exec_then, loop_again, loop_break,
  loop_done, loop_left, normal, passed, run_end, run_next, run_stop, taken, with_done,
}
use luce_seed.Check.Init.Recognised.{
  expr_contains_break_lem, is_true-Breaks, is_true-IsTrueLiteral, never_ends_lem,
}
use luce_seed.Check.Init.Returns.{
  always_returns, arms_contain_break, arms_return, block_contains_break, block_returns,
  contains_break,
}
use luce_seed.Check.Init.Tree.{
  Arms, Block, Expr, SimpleKind, Stmt, assign, if_stmt, loop, simple, for, match_stmt, while,
  with_allocator, expr_stmt, let_stmt, var_stmt, free,
}

pub MayLeave-escapes : (sg : Signal) (l r : Expr) → MayLeave sg l r → sg ≢ normal
MayLeave-escapes normal l r leave h = absurd leave
MayLeave-escapes _ l r leave h = absurd cc

-- A statement in whose own expressions a `break` stands contains one.
Reads-Breaks :
    (fields : List Bytes) (s : Stmt) (l r : Expr)
    → Reads fields s l r
    → Breaks l ⊎ Breaks r
    → contains_break s ≡ true
unfolding contains_break
Reads-Breaks fields (if_stmt c t e) l r (x, y) (inl b) =
    ground (arith, expr_contains_break_lem (rw x at b))
Reads-Breaks fields (if_stmt c t e) l r (x, y) (inr b) = elim (rw y at b) [ ]
Reads-Breaks fields (match_stmt e arms) l r (x, y) (inl b) =
    ground (arith, expr_contains_break_lem (rw x at b))
Reads-Breaks fields (match_stmt e arms) l r (x, y) (inr b) = elim (rw y at b) [ ]
Reads-Breaks fields (loop kind left right body) l r (x, y) (inl b) =
    ground (arith, expr_contains_break_lem (rw x at b))
Reads-Breaks fields (loop kind left right body) l r (x, y) (inr b) =
    ground (arith, expr_contains_break_lem (rw y at b))
Reads-Breaks fields (simple kind left right) l r (x, y) (inl b) =
    ground (arith, expr_contains_break_lem (rw x at b))
Reads-Breaks fields (simple kind left right) l r (x, y) (inr b) =
    ground (arith, expr_contains_break_lem (rw y at b))
Reads-Breaks fields (assign place op value) l r (inl (o, x, y)) (inl b) =
    ground (arith, expr_contains_break_lem (rw x at b))
Reads-Breaks fields (assign place op value) l r (inl (o, x, y)) (inr b) =
    ground (arith, expr_contains_break_lem (rw y at b))
Reads-Breaks fields (assign place op value) l r (inr (o, x, y)) (inl b) =
    ground (arith, expr_contains_break_lem (rw x at b))
Reads-Breaks fields (assign place op value) l r (inr (o, x, y)) (inr b) = elim (rw y at b) [ ]
Reads-Breaks fields _ l r d b = absurd d

mutual
  unfolding contains_break

  pub Exec-breaks :
      {fields : List Bytes} {s : Stmt} {sg : Signal} {τ : List Event}
      → Exec fields s sg τ
      → sg ≡ broke
      → contains_break s ≡ true
  Exec-breaks exec_break h = refl
  Exec-breaks (cut_short {s = s} l r reads leave d d') h =
      Reads-Breaks _ s l r reads (rw h at leave)
  Exec-breaks (loop_skip k l r d) h = Exec-breaks d h
  Exec-breaks (exec_block d) h = Run-breaks d h
  Exec-breaks (exec_then c d) h = ground (arith, Exec-breaks d h)
  Exec-breaks (exec_else c d) h = ground (arith, Exec-breaks d h)
  Exec-breaks (exec_match e d) h = ground (arith, Chosen-breaks d h)
  Exec-breaks (loop_again k l r d g d') h = Exec-breaks d' h
  Exec-breaks (loop_left l r d e) h = ground (arith, Exec-breaks d h)
  Exec-breaks _ h = absurd cc

  Run-breaks :
      {fields : List Bytes} {b : Block} {sg : Signal} {τ : List Event}
      → Run fields b sg τ
      → sg ≡ broke
      → block_contains_break b ≡ true
  Run-breaks run_end h = absurd cc
  Run-breaks (run_next d d') h = ground (arith, Run-breaks d' h)
  Run-breaks (run_stop d e) h = ground (arith, Exec-breaks d h)

  Chosen-breaks :
      {fields : List Bytes} {arms : Arms} {sg : Signal} {τ : List Event}
      → Chosen fields arms sg τ
      → sg ≡ broke
      → arms_contain_break arms ≡ true
  Chosen-breaks (taken g d) h = ground (arith, Exec-breaks d h)
  Chosen-breaks (passed g d) h = ground (arith, Chosen-breaks d h)
  Chosen-breaks (guard_leaves {guard = guard} leave d) h = elim (rw h at leave) [
    | inl b ↦ ground (arith, expr_contains_break_lem b)
    | inr b ↦ elim b [ ]
  ]

mutual
  unfolding always_returns

  pub Exec-passes :
      {fields : List Bytes} {s : Stmt} {sg : Signal} {τ : List Event}
      → Exec fields s sg τ
      → sg ≡ normal
      → always_returns s ≡ false
  Exec-passes (exec_block d) h = Run-passes d h
  Exec-passes (exec_then c d) h = ground (arith, Exec-passes d h)
  Exec-passes (exec_else c d) h = ground (arith, Exec-passes d h)
  Exec-passes (exec_match {e = c} e d) h = Chosen-passes c d h
  Exec-passes (exec_simple {kind = SimpleKind.return} p l r) h = absurd p
  Exec-passes (exec_simple {kind = SimpleKind.recover} p l r) h = absurd p
  Exec-passes (exec_simple {kind = expr_stmt} {l = e} p l r) h = never_ends_lem e p
  Exec-passes (exec_simple {kind = let_stmt} p l r) h = refl
  Exec-passes (exec_simple {kind = var_stmt} p l r) h = refl
  Exec-passes (exec_simple {kind = free} p l r) h = refl
  Exec-passes (loop_done {kind = while} {l = e} p l r) h = ground (arith, is_true-IsTrueLiteral e p)
  Exec-passes (loop_done {kind = for} p l r) h = refl
  Exec-passes (loop_done {kind = with_allocator} p l r) h = absurd p
  Exec-passes (cut_short l r reads leave d d') h = absurd (MayLeave-escapes _ _ _ leave h)
  Exec-passes (loop_cut {kind = while} b l r) h = ground (arith, is_true-Breaks b)
  Exec-passes (loop_cut {kind = for} b l r) h = refl
  Exec-passes (loop_cut {kind = with_allocator} b l r) h = absurd b
  Exec-passes (loop_skip k l r d) h = Exec-passes d h
  Exec-passes (loop_again k l r d g d') h = Exec-passes d' h
  Exec-passes (loop_break {kind = while} k l r d) h = ground (arith, Exec-breaks d refl)
  Exec-passes (loop_break {kind = for} k l r d) h = refl
  Exec-passes (loop_break {kind = with_allocator} k l r d) h = absurd (k refl)
  Exec-passes (loop_left l r d e) h = absurd (e h)
  Exec-passes (with_done l r d) h = Exec-passes d refl
  Exec-passes exec_nothing h = refl
  Exec-passes exec_other h = refl
  Exec-passes exec_defer h = refl
  Exec-passes exec_errdefer h = refl
  Exec-passes (stores_field f i p v) h = refl
  Exec-passes (stores_other p e v) h = refl
  Exec-passes _ h = absurd cc

  Run-passes :
      {fields : List Bytes} {b : Block} {sg : Signal} {τ : List Event}
      → Run fields b sg τ
      → sg ≡ normal
      → block_returns b ≡ false
  Run-passes run_end h = refl
  Run-passes (run_next d d') h = ground (arith, Exec-passes d refl, Run-passes d' h)
  Run-passes (run_stop d e) h = absurd (e h)

  Chosen-passes :
      {fields : List Bytes} {arms : Arms} {sg : Signal} {τ : List Event} (e : Expr)
      → Chosen fields arms sg τ
      → sg ≡ normal
      → always_returns (match_stmt e arms) ≡ false
  Chosen-passes e (taken g d) h = ground (arith, Exec-passes d h)
  Chosen-passes e (passed g d) h = ground (arith, Arms-passes d h)
  Chosen-passes e (guard_leaves leave g) h = absurd (MayLeave-escapes _ _ _ leave h)

  Arms-passes :
      {fields : List Bytes} {arms : Arms} {sg : Signal} {τ : List Event}
      → Chosen fields arms sg τ
      → sg ≡ normal
      → arms_return arms ≡ false
  Arms-passes (taken g d) h = ground (arith, Exec-passes d h)
  Arms-passes (passed g d) h = ground (arith, Arms-passes d h)
  Arms-passes (guard_leaves leave g) h = absurd (MayLeave-escapes _ _ _ leave h)
