-- ===== src/Base/Loop.antt =====
-- Loops with several exits: a body either goes round again or leaves with a result.
use luce_seed.Base.{ℕ, zero, suc, ◌<◌, ◌≡◌, refl, arith}

pub data Round {ℓ} (S R : Type ℓ) : Type ℓ where
  next : S → Round S R
  done : R → Round S R

-- `next s` as the result of the whole loop means that the fuel ran out in state `s`.
unfoldable pub iterate {ℓ} : {S R : Type ℓ} → ℕ → (S → Round S R) → S → Round S R
iterate zero body s = next s
iterate (suc fuel) body s = elim (body s) [ next s' ↦ iterate fuel body s' | done r ↦ done r ]

-- What a loop leaves with; `spent` says what stands for a loop whose fuel ran out.
abbrev pub leave {ℓ} : {S R : Type ℓ} → (S → R) → Round S R → R
leave spent (next s) = spent s
leave spent (done r) = r

-- A predicate on both outcomes of a round.
abbrev pub Holds {ℓ κ} : {S R : Type ℓ} → (S → Type κ) → (R → Type κ) → Round S R → Type κ
Holds P Q (next s) = P s
Holds P Q (done r) = Q r

module _ {ℓ κ} {S R : Type ℓ} (P : S → Type κ) (Q : R → Type κ) (body : S → Round S R)
    (keep : (s : S) → P s → Holds P Q (body s)) where
  go :
      (fuel : ℕ) (r : Round S R)
      → Holds P Q r
      → ((s : S) → P s → Holds P Q (iterate fuel body s))
      → Holds P Q (elim r [ next s' ↦ iterate fuel body s' | done r ↦ done r ])
  go fuel (next s) h ih = ih s h
  go fuel (done r) h ih = h

  -- The invariant rule.
  pub iterate_inv : (fuel : ℕ) (s : S) → P s → Holds P Q (iterate fuel body s)
  unfolding iterate
  iterate_inv zero s h = h
  iterate_inv (suc fuel) s h = go fuel (body s) (keep s h) (iterate_inv fuel)

  pub leave_inv :
      (spent : S → R)
      → ((s : S) → P s → Q (spent s))
      → (fuel : ℕ) (s : S) → P s
      → Q (leave spent (iterate fuel body s))
  leave_inv spent out fuel s h = exit (iterate fuel body s) (iterate_inv fuel s h)
    where
      exit : (r : Round S R) → Holds P Q r → Q (leave spent r)
      exit (next s) h = out s h
      exit (done r) h = h

-- What one round does, when a measure falls with each further round.
abbrev pub Falls {ℓ} :
    {S R : Type ℓ} → (S → Type 0) → (R → Type 0) → (S → ℕ) → ℕ → Round S R → Type 0
Falls P Q measure bound (next s) = P s × (measure s < bound)
Falls P Q measure bound (done r) = Q r

-- The loop leaves with a result.
abbrev pub Leaves {ℓ} : {S R : Type ℓ} → (R → Type 0) → Round S R → Type ℓ
Leaves {R = R} Q round = (r : R) × (round ≡ done r) × Q r

module _ {ℓ} {S R : Type ℓ} (P : S → Type 0) (Q : R → Type 0) (measure : S → ℕ)
    (body : S → Round S R) (keep : (s : S) → P s → Falls P Q measure (measure s) (body s)) where
  again :
      (fuel bound : ℕ) (r : Round S R)
      → bound < suc fuel
      → Falls P Q measure bound r
      → ((s : S) → measure s < fuel → P s → Leaves Q (iterate fuel body s))
      → Leaves Q (elim r [ next s' ↦ iterate fuel body s' | done r ↦ done r ])
  again fuel bound (next s) f h ih = ih s (omega arith) h.0
  again fuel bound (done r) f h ih = (r, refl, h)

  -- With a measure below the fuel the loop leaves with a result.
  pub iterate-Leaves : (fuel : ℕ) (s : S) → measure s < fuel → P s → Leaves Q (iterate fuel body s)
  unfolding iterate
  iterate-Leaves zero s f h = absurd (omega arith)
  iterate-Leaves (suc fuel) s f h =
      again fuel (measure s) (body s) f (keep s h) (iterate-Leaves fuel)
