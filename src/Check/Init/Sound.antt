-- ===== src/Check/Init/Sound.antt =====
-- A body that the walk accepts stores every field before it is passed, and uses no field before.
use luce_seed.Base.{
  ℕ, ◌≤◌, ◌≡◌, ◌⊎◌, inl, inr, refl, arith, Bool, true, false, Bool-cases, Option-cases, none, some,
  List, [], ◌∷◌, ◌++◌, Bytes, if◌then◌else◌,
}
use luce_seed.Check.Init.Leaves.{Exec-passes, MayLeave-escapes}
use luce_seed.Check.Init.Paths.{
  Chosen, Event, Exec, IsOther, Reads, cut_short, guard_leaves, loop_cut, loop_skip, Run, Signal,
  exec_block, exec_else, exec_match, exec_simple, exec_then, loop_again, loop_break, loop_done,
  loop_left, normal, passed, run_end, run_next, run_stop, stores, stores_field, stores_other, taken,
  with_done, exec_nothing, exec_other, exec_defer, exec_errdefer, exec_break, exec_continue,
}
use luce_seed.Check.Init.Recognised.{assigned_field-none, assigned_field_lem, is_eq_lem}
use luce_seed.Check.Init.Returns.{always_returns}
use luce_seed.Check.Init.Tree.{
  Arms, Block, Expr, Stmt, arm, assign, if_stmt, loop, match_stmt, simple,
}
use luce_seed.Check.Init.Uses.{
  ++-none, IsSafe, evaluated, evaluated_both, keep-IsSafe, seq-IsSafe, weaken-IsSafe, ◌⊑◌,
}
use luce_seed.Check.Init.{
  Problem, Set, after_if, all_fields, arms_walk, assigned_field, count, expression, is_eq, meet,
  mentions_self, statement, statements, walk_assign, with_field,
}
use luce_seed.Lex.Token.{TokenKind}

-- Three lists of reports.
three : (xs ys zs : List Problem) → xs ++ ys ++ zs ≡ [] → (xs ≡ []) × (ys ≡ []) × (zs ≡ [])
three xs ys zs h =
    let (front, z) = ++-none (xs ++ ys) zs h in let (x, y) = ++-none xs ys front in (x, y, z)

empty-IsSafe : (n : ℕ) (a : Set) (sg : Signal) → IsSafe n a sg a []
empty-IsSafe n a sg = record { at = λ r below. (tt, λ e. below) }

nothing_read : (fields : List Bytes) (a : Set) → expression fields Expr.null a ≡ []
unfolding expression mentions_self
nothing_read fields a = ground arith

-- What an `if` leaves is within what a branch that is passed leaves.
after_if_then :
    (a t e : Set) (then_leaves else_leaves : Bool)
    → then_leaves ≡ false
    → after_if a t e then_leaves else_leaves ⊑ t
unfolding after_if
after_if_then a t e true true h i m = absurd cc
after_if_then a t e true false h i m = absurd cc
after_if_then a t e false true h i m = m
after_if_then a t e false false h i m = ground (arith, m)

after_if_else :
    (a t e : Set) (then_leaves else_leaves : Bool)
    → else_leaves ≡ false
    → after_if a t e then_leaves else_leaves ⊑ e
unfolding after_if
after_if_else a t e true true h i m = absurd cc
after_if_else a t e false true h i m = absurd cc
after_if_else a t e true false h i m = m
after_if_else a t e false false h i m = ground (arith, m)

-- The arms' join only shrinks, and that an arm is passed is not forgotten.
arms_shrink :
    (fields : List Bytes) (arms : Arms) (a : Set) (l : Bool) (j : Set) (any : Bool)
    → ((arms_walk fields arms a l j any).joined ⊑ j)
      × (any ≡ true → (arms_walk fields arms a l j any).any ≡ true)
unfolding statement
arms_shrink fields Arms.no_arms a l j any = (λ i h. h, λ h. h)
arms_shrink fields (arm guard body rest) a l j any =
    let leaves = always_returns body in
    let w = statement fields body a l in
    let (shrinks, kept) =
      arms_shrink fields rest a l (if leaves then j else meet j w.assigned)
        (if leaves then any else true) in
    (λ i h. let m = shrinks i h in ground (arith, m), λ h. kept (ground (arith, h)))

module _ (fields : List Bytes) (few : count fields ≤ 64) where
  store-IsSafe : (a : Set) (f : ℕ) → IsSafe (count fields) a normal (with_field a f) (stores f ∷ [])
  store-IsSafe a f = record {
    at = λ r below. (tt, λ e i h. let m = below i in ground (arith, h, m));
  }

  module _ (place value : Expr) (op : TokenKind) (a : Set) (in_loop : Bool) where
    walk_unmatched :
        (is_eq op ≡ false) ⊎ (assigned_field place fields ≡ none)
        → walk_assign fields place op value a in_loop ≡ record {
          assigned = a;
          problems = expression fields place a ++ expression fields value a;
        }
    unfolding walk_assign
    walk_unmatched (inl other) = rw (walk_assign, other) refl
    walk_unmatched (inr missing) = elim (Bool-cases (is_eq op)) [
      | inl equal ↦ rw (walk_assign, equal, missing) refl
      | inr other ↦ rw (walk_assign, other) refl
    ]

    walk_other :
        IsOther fields place op
        → walk_assign fields place op value a in_loop ≡ record {
          assigned = a;
          problems = expression fields place a ++ expression fields value a;
        }
    walk_other (inl other) = elim (Bool-cases (is_eq op)) [
      | inl equal ↦ absurd (other (is_eq_lem op equal))
      | inr differs ↦ walk_unmatched (inl differs)
    ]
    walk_other (inr missing) = walk_unmatched (inr (assigned_field-none fields place missing))

    walk_field :
        (f : ℕ)
        → is_eq op ≡ true
        → assigned_field place fields ≡ some f
        → (walk_assign fields place op value a in_loop).problems ≡ []
        → (expression fields value a ≡ [])
          × ((walk_assign fields place op value a in_loop).assigned ≡ with_field a f)
    unfolding walk_assign
    walk_field f equal found h =
        rw (walk_assign, equal, found) ((++-none _ _ (rw (walk_assign, equal, found) at h)).0, refl)

    assign-quiet :
        (l r : Expr)
        → Reads fields (assign place op value) l r
        → (walk_assign fields place op value a in_loop).problems ≡ []
        → (expression fields l a ≡ []) × (expression fields r a ≡ [])
    assign-quiet l r (inl (other, x, y)) h = rw (x, y) (++-none _ _ (rw (walk_other other) at h))
    assign-quiet l r (inr (equal, x, y)) h = elim (Option-cases (assigned_field place fields)) [
      | inl missing ↦
          rw (x, y)
            ((++-none _ _ (rw (walk_unmatched (inr missing)) at h)).1, nothing_read fields a)
      | inr (f, found) ↦ rw (x, y) ((walk_field f (rw equal refl) found h).0, nothing_read fields a)
    ]

  -- What a statement evaluates first is not reported.
  Reads-quiet :
      (s : Stmt) (l r : Expr) (a : Set) (in_loop : Bool)
      → Reads fields s l r
      → (statement fields s a in_loop).problems ≡ []
      → (expression fields l a ≡ []) × (expression fields r a ≡ [])
  unfolding statement
  Reads-quiet (if_stmt c t e) l r a in_loop (x, y) h =
      rw (x, y) ((three _ _ _ h).0, nothing_read fields a)
  Reads-quiet (match_stmt e arms) l r a in_loop (x, y) h =
      rw (x, y) ((++-none _ _ h).0, nothing_read fields a)
  Reads-quiet (loop kind left right body) l r a in_loop (x, y) h =
      let (hl, hr, hb) = three _ _ _ h in rw (x, y) (hl, hr)
  Reads-quiet (simple kind left right) l r a in_loop (x, y) h = rw (x, y) (++-none _ _ h)
  Reads-quiet (assign place op value) l r a in_loop d h =
      assign-quiet place value op a in_loop l r d h
  Reads-quiet _ l r a in_loop d h = absurd d

  mutual
    unfolding statement

    pub Exec-IsSafe :
        {s : Stmt} {sg : Signal} {τ : List Event} (a : Set) (in_loop : Bool)
        → Exec fields s sg τ
        → (statement fields s a in_loop).problems ≡ []
        → IsSafe (count fields) a sg (statement fields s a in_loop).assigned τ
    Exec-IsSafe a in_loop exec_nothing h = empty-IsSafe _ a _
    Exec-IsSafe a in_loop exec_other h = empty-IsSafe _ a _
    Exec-IsSafe a in_loop exec_defer h = empty-IsSafe _ a _
    Exec-IsSafe a in_loop exec_errdefer h = empty-IsSafe _ a _
    Exec-IsSafe a in_loop exec_break h = empty-IsSafe _ a _
    Exec-IsSafe a in_loop exec_continue h = empty-IsSafe _ a _
    Exec-IsSafe a in_loop (exec_block d) h = Run-IsSafe a in_loop d h
    Exec-IsSafe a in_loop (cut_short {s = s} l r reads leave d d') h =
        let (hl, hr) = Reads-quiet s l r a in_loop reads h in
        weaken-IsSafe fields few (λ e. absurd (MayLeave-escapes _ _ _ leave e))
          (keep-IsSafe fields few (evaluated_both fields few a hl hr d d'))
    Exec-IsSafe a in_loop (stores_field {place = place} {value = value} {op = op} f equal found d)
          h =
        let (hv, after) =
          walk_field place value op a in_loop f (rw equal refl)
            (assigned_field_lem fields place f found) h in
        rw after (seq-IsSafe fields few (evaluated fields few a hv d) (store-IsSafe a f))
    Exec-IsSafe a in_loop (stores_other {place = place} {value = value} {op = op} other d d') h =
        let same = walk_other place value op a in_loop other in
        let (hp, hv) = ++-none _ _ (rw same at h) in
        rw same (evaluated_both fields few a hp hv d d')
    Exec-IsSafe a in_loop (exec_then {c = c} {t = t} {e = e} d b) h =
        let (hc, ht, he) = three _ _ _ h in
        weaken-IsSafe fields few (λ n. after_if_then a _ _ _ _ (Exec-passes b n))
          (seq-IsSafe fields few (evaluated fields few a hc d) (Exec-IsSafe a in_loop b ht))
    Exec-IsSafe a in_loop (exec_else {c = c} {t = t} {e = e} d b) h =
        let (hc, ht, he) = three _ _ _ h in
        weaken-IsSafe fields few (λ n. after_if_else a _ _ _ _ (Exec-passes b n))
          (seq-IsSafe fields few (evaluated fields few a hc d) (Exec-IsSafe a in_loop b he))
    Exec-IsSafe a in_loop (exec_match {e = e} {arms = arms} d c) h =
        let (he, hw) = ++-none _ _ h in
        let (chosen, any) = Chosen-IsSafe a in_loop (all_fields fields) false c hw in
        weaken-IsSafe fields few (λ n. rw (any n) (λ i m. m))
          (seq-IsSafe fields few (evaluated fields few a he d) chosen)
    Exec-IsSafe a in_loop (exec_simple p d d') h =
        let (hl, hr) = ++-none _ _ h in evaluated_both fields few a hl hr d d'
    Exec-IsSafe a in_loop (loop_done p d d') h =
        let (hl, hr, hb) = three _ _ _ h in evaluated_both fields few a hl hr d d'
    Exec-IsSafe a in_loop (loop_cut p d d') h =
        let (hl, hr, hb) = three _ _ _ h in evaluated_both fields few a hl hr d d'
    Exec-IsSafe a in_loop (loop_skip k d d' again) h =
        let (hl, hr, hb) = three _ _ _ h in
        seq-IsSafe fields few (evaluated_both fields few a hl hr d d')
          (Exec-IsSafe a in_loop again h)
    Exec-IsSafe a in_loop (loop_again k d d' b g again) h =
        let (hl, hr, hb) = three _ _ _ h in
        seq-IsSafe fields few
          (seq-IsSafe fields few (evaluated_both fields few a hl hr d d')
            (keep-IsSafe fields few (Exec-IsSafe a true b hb)))
          (Exec-IsSafe a in_loop again h)
    Exec-IsSafe a in_loop (loop_break k d d' b) h =
        let (hl, hr, hb) = three _ _ _ h in
        seq-IsSafe fields few (evaluated_both fields few a hl hr d d')
          (keep-IsSafe fields few (Exec-IsSafe a true b hb))
    Exec-IsSafe a in_loop (loop_left d d' b e) h =
        let (hl, hr, hb) = three _ _ _ h in
        seq-IsSafe fields few (evaluated_both fields few a hl hr d d')
          (keep-IsSafe fields few (Exec-IsSafe a true b hb))
    Exec-IsSafe a in_loop (with_done d d' b) h =
        let (hl, hr, hb) = three _ _ _ h in
        seq-IsSafe fields few (evaluated_both fields few a hl hr d d')
          (keep-IsSafe fields few (Exec-IsSafe a true b hb))

    Run-IsSafe :
        {b : Block} {sg : Signal} {τ : List Event} (a : Set) (in_loop : Bool)
        → Run fields b sg τ
        → (statements fields b a in_loop).problems ≡ []
        → IsSafe (count fields) a sg (statements fields b a in_loop).assigned τ
    Run-IsSafe a in_loop run_end h = empty-IsSafe _ a _
    Run-IsSafe a in_loop (run_next d d') h =
        let (hs, hb) = ++-none _ _ h in
        seq-IsSafe fields few (Exec-IsSafe a in_loop d hs) (Run-IsSafe _ in_loop d' hb)
    Run-IsSafe a in_loop (run_stop d e) h =
        let (hs, hb) = ++-none _ _ h in
        weaken-IsSafe fields few (λ n. absurd (e n)) (Exec-IsSafe a in_loop d hs)

    Chosen-IsSafe :
        {arms : Arms} {sg : Signal} {τ : List Event} (a : Set) (in_loop : Bool) (j : Set)
        (any : Bool)
        → Chosen fields arms sg τ
        → (arms_walk fields arms a in_loop j any).problems ≡ []
        → IsSafe (count fields) a sg (arms_walk fields arms a in_loop j any).joined τ
          × (sg ≡ normal → (arms_walk fields arms a in_loop j any).any ≡ true)
    Chosen-IsSafe a in_loop j any (taken {guard = guard} {body = body} {rest = rest} d b) h =
        let (hg, hb, hr) = three _ _ _ h in
        let (shrinks, kept) = arms_shrink fields rest a in_loop _ _ in
        (
          weaken-IsSafe fields few
              (λ n i m. let le = Exec-passes b n in let w = shrinks i m in ground (arith, le, w))
              (seq-IsSafe fields few (evaluated fields few a hg d) (Exec-IsSafe a in_loop b hb)),
          λ n. kept (rw (Exec-passes b n) refl),
        )
    Chosen-IsSafe a in_loop j any (passed {guard = guard} {body = body} {rest = rest} d c) h =
        let (hg, hb, hr) = three _ _ _ h in
        let (safe, some_arm) = Chosen-IsSafe a in_loop _ _ c hr in
        (seq-IsSafe fields few (evaluated fields few a hg d) safe, some_arm)
    Chosen-IsSafe a in_loop j any (guard_leaves {guard = guard} {body = body} {rest = rest} leave d)
          h =
        let (hg, hb, hr) = three _ _ _ h in
        (
          weaken-IsSafe fields few (λ n. absurd (MayLeave-escapes _ _ _ leave n))
              (keep-IsSafe fields few (evaluated fields few a hg d)),
          λ n. absurd (MayLeave-escapes _ _ _ leave n),
        )
