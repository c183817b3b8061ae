-- ===== src/Check/Init.antt =====
-- The rules of a custom `init`, from src/check/init.cpp, and `Checker::always_returns` and
-- `Checker::contains_break` of src/check/stmt.cpp.
pub mod Tree
pub mod Returns
pub mod Parts
pub mod Recognised
pub mod Paths
pub mod Leaves
pub mod Uses
pub mod Sound
pub mod Assigned
use luce_seed.Base.Bits.{all_below}
use luce_seed.Base.{
  ℕ, ◌+◌, Bool, true, false, not, ◌&&◌, ◌||◌, Option, none, some, List, [], ◌∷◌, ◌++◌, Bytes,
  bytes_eq, codes, ltb, ◌==◌, if◌then◌else◌,
}
use luce_seed.Check.Init.Returns.{always_returns}
use luce_seed.Check.Init.Tree.{
  Arms, Block, Expr, LoopKind, ExprKind, SimpleKind, Stmt, while, for, with_allocator, let_stmt,
  var_stmt, return, recover, expr_stmt, free, nothing, break_stmt, continue_stmt, other_stmt, defer,
  errdefer, block, assign, if_stmt, match_stmt, loop, simple, call, end, literal, break, member,
  name, null, node, no_arms, self, ◌⨾◌, arm,
}
use luce_seed.Lex.Token.{TokenKind}

-- A set of fields: `uint64_t` as the function from a bit's number to the bit.
abbrev pub Set : Type 0
Set = ℕ → Bool

abbrev pub no_fields : Set
no_fields i = false

-- `assigned |= field < 64 ? 1ull << field : 0`
abbrev pub with_field : Set → ℕ → Set
with_field s f i = s i || (ltb f 64 && (i == f))

abbrev pub meet : Set → Set → Set
meet a b i = a i && b i

abbrev pub agree : Bool → Bool → Bool
agree true b = b
agree false b = not b

unfoldable pub same_set : Set → Set → Bool
same_set a b = all_below 64 (λ i. agree (a i) (b i))

unfoldable pub field_number_from : ℕ → List Bytes → Bytes → Option ℕ
field_number_from i [] text = none
field_number_from i (f ∷ rest) text =
    let later = field_number_from (i + 1) rest text in if bytes_eq f text then some i else later

-- The fields are those of the struct, in declaration order.
unfoldable pub field_number : List Bytes → Bytes → Option ℕ
field_number fields text = field_number_from 0 fields text

unfoldable pub count : List Bytes → ℕ
count [] = 0
count (f ∷ rest) = count rest + 1

unfoldable pub all_fields : List Bytes → Set
all_fields fields i = ltb i (count fields) && ltb i 64

-- `self.name` as a store target.
unfoldable pub assigned_field : Expr → List Bytes → Option ℕ
assigned_field (node member op text never (node self op' text' never' l r b t n) r' b' t' n')
      fields =
    field_number fields text
assigned_field _ fields = none

abbrev pub place_text : Expr → Bytes
place_text null = []
place_text (node kind op text never left right body type next) = text

unfoldable pub mentions_self : Expr → Bool
mentions_self null = false
mentions_self (node self op text never left right body type next) = true
mentions_self (node kind op text never left right body type next) =
    mentions_self left
    || mentions_self right
    || mentions_self body
    || mentions_self type
    || mentions_self next

pub data Problem : Type 0 where
  read_too_early not_unit : Problem
  assigned_twice not_assigned : Bytes → Problem

pub record Walk : Type 0 where
  pub assigned : Set
  pub problems : List Problem

-- `if (assigned != every && mentions_self(e)) read_too_early(e)`
unfoldable pub expression : List Bytes → Expr → Set → List Problem
expression fields e assigned =
    if not (same_set assigned (all_fields fields)) && mentions_self e
    then read_too_early ∷ []
    else []

-- What an `if` leaves: a branch that returns does not count, unless both do.
unfoldable pub after_if : Set → Set → Set → Bool → Bool → Set
after_if assigned then_set else_set then_leaves else_leaves =
    if then_leaves && not else_leaves
    then else_set
    else if else_leaves && not then_leaves
    then then_set
    else if not then_leaves
    then meet then_set else_set
    else assigned

-- The arms' sets joined, whether an arm does not return, and the problems.
pub record ArmsWalk : Type 0 where
  pub joined : Set
  pub any : Bool
  pub problems : List Problem

abbrev pub is_eq : TokenKind → Bool
is_eq TokenKind.eq = true
is_eq _ = false

-- The store to a field of `self`, and any other.
unfoldable pub walk_assign : List Bytes → Expr → TokenKind → Expr → Set → Bool → Walk
walk_assign fields place op value assigned in_loop =
    elim (if is_eq op then assigned_field place fields else none) [
      | none ↦ record {
        assigned = assigned;
        problems = expression fields place assigned ++ expression fields value assigned;
      }
      | some field ↦ record {
        assigned = with_field assigned field;
        problems =
            expression fields value assigned
            ++ (if (assigned field && ltb field 64) || in_loop
                then assigned_twice (place_text place) ∷ []
                else []);
      }
    ]

-- `InitWalk::statement`: the set on exit, and what was reported.
unfoldable mutual
  pub statement : List Bytes → Stmt → Set → Bool → Walk
  statement fields (block b) assigned in_loop = statements fields b assigned in_loop
  statement fields (assign place op value) assigned in_loop =
      walk_assign fields place op value assigned in_loop
  statement fields (if_stmt c then_part else_part) assigned in_loop =
      let t = statement fields then_part assigned in_loop in
      let e = statement fields else_part assigned in_loop in
      record {
        assigned =
            after_if assigned t.assigned e.assigned (always_returns then_part)
              (always_returns else_part);
        problems = expression fields c assigned ++ t.problems ++ e.problems;
      }
  statement fields (match_stmt e arms) assigned in_loop =
      let w = arms_walk fields arms assigned in_loop (all_fields fields) false in
      record {
        assigned = if w.any then w.joined else assigned;
        problems = expression fields e assigned ++ w.problems;
      }
  statement fields (loop kind left right body) assigned in_loop = record {
    assigned = assigned;
    problems =
        expression fields left assigned
        ++ expression fields right assigned
        ++ (statement fields body assigned true).problems;
  }
  statement fields (simple kind left right) assigned in_loop = record {
    assigned = assigned;
    problems = expression fields left assigned ++ expression fields right assigned;
  }
  statement fields _ assigned in_loop = record { assigned = assigned; problems = [] }

  pub statements : List Bytes → Block → Set → Bool → Walk
  statements fields end assigned in_loop = record { assigned = assigned; problems = [] }
  statements fields (s ⨾ rest) assigned in_loop =
      let w = statement fields s assigned in_loop in
      let v = statements fields rest w.assigned in_loop in
      record { assigned = v.assigned; problems = w.problems ++ v.problems }

  pub arms_walk : List Bytes → Arms → Set → Bool → Set → Bool → ArmsWalk
  arms_walk fields no_arms assigned in_loop joined any = record {
    joined = joined;
    any = any;
    problems = [];
  }
  arms_walk fields (arm guard body rest) assigned in_loop joined any =
      let w = statement fields body assigned in_loop in
      let leaves = always_returns body in
      let v =
        arms_walk fields rest assigned in_loop (if leaves then joined else meet joined w.assigned)
          (if leaves then any else true) in
      record {
        joined = v.joined;
        any = v.any;
        problems = expression fields guard assigned ++ w.problems ++ v.problems;
      }

-- The fields that are reported at the end.
unfoldable pub missing_from : ℕ → List Bytes → Set → List Problem
missing_from i [] assigned = []
missing_from i (f ∷ rest) assigned =
    (if ltb i 64 && not (assigned i) then not_assigned f ∷ [] else [])
    ++ missing_from (i + 1) rest assigned

-- `Checker::check_init` for a struct: the flag says that the result type is `unit`.
unfoldable pub check_init : List Bytes → Bool → Stmt → List Problem
check_init fields is_unit body =
    let w = statement fields body no_fields false in
    (if is_unit then [] else not_unit ∷ [])
    ++ w.problems
    ++ (if not (same_set w.assigned (all_fields fields)) && not (always_returns body)
        then missing_from 0 fields w.assigned
        else [])
