-- ===== src/Check/Init/Assigned.antt =====
-- What an accepted custom `init` guarantees of the fields.
use luce_seed.Base.{◌≤◌, ◌≡◌, Bool, false, List, [], Bytes}
use luce_seed.Check.Init.Tree.{Stmt}
use luce_seed.Check.Init.{Walk, check_init, count, no_fields, statement}

module _ (fields : List Bytes) (few : count fields ≤ 64) (is_unit : Bool) (body : Stmt)
    (accepted : check_init fields is_unit body ≡ []) where
  abbrev walk : Walk
  walk = statement fields body no_fields false
