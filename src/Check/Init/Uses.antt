-- ===== src/Check/Init/Uses.antt =====
-- What a run stores and where it uses `self`, for a run whose expressions are not reported.
use luce_seed.Base.Bits.{at_below}
use luce_seed.Base.{
  ℕ, ◌≤◌, ◌<◌, ◌≡◌, refl, arith, Bool, true, ◌||◌, List, [], ◌∷◌, ◌++◌, Bytes, ◌==◌,
}
use luce_seed.Check.Init.Parts.{Mentions, here, in_body, in_left, in_next, in_right, in_type}
use luce_seed.Check.Init.Paths.{Evaluates, Event, Signal, normal, quiet, stores, touches, uses}
use luce_seed.Check.Init.Tree.{Expr, ExprKind, node}
use luce_seed.Check.Init.{
  Set, agree, all_fields, count, expression, mentions_self, same_set, Problem,
}
use luce_seed.Lex.Token.{TokenKind}

-- The fields that a run has stored, and whether it used `self` only when all had been.
abbrev pub stored : Set → List Event → Set
stored r [] = r
stored r (stores f ∷ τ) = stored (λ i. r i || (i == f)) τ
stored r (touches ∷ τ) = stored r τ

abbrev pub Holds : Set → ℕ → Type 0
Holds r n = (i : ℕ) → i < n → r i ≡ true

abbrev pub IsLegal : ℕ → Set → List Event → Type 0
IsLegal n r [] = Unit
IsLegal n r (stores f ∷ τ) = IsLegal n (λ i. r i || (i == f)) τ
IsLegal n r (touches ∷ τ) = Holds r n × IsLegal n r τ

infix 50 ◌⊑◌
abbrev pub ◌⊑◌ : Set → Set → Type 0
a ⊑ b = (i : ℕ) → a i ≡ true → b i ≡ true

-- A link that mentions `self` makes its node mention it.
node_mentions :
    (k : ExprKind) (op : TokenKind) (text : Bytes) (never : Bool) (l r b t n : Expr)
    → (mentions_self l || mentions_self r || mentions_self b || mentions_self t || mentions_self n)
      ≡ true
    → mentions_self (node k op text never l r b t n) ≡ true
unfolding mentions_self
node_mentions ExprKind.self op text never l r b t n h = refl
node_mentions _ op text never l r b t n h = h

Mentions-mentions_self : {e : Expr} → Mentions e → mentions_self e ≡ true
unfolding mentions_self
Mentions-mentions_self here = refl
Mentions-mentions_self (in_left {l = l} {r = r} {b = b} {t = t} {n = n} m) =
    node_mentions _ _ _ _ l r b t n (ground (arith, Mentions-mentions_self m))
Mentions-mentions_self (in_right {l = l} {r = r} {b = b} {t = t} {n = n} m) =
    node_mentions _ _ _ _ l r b t n (ground (arith, Mentions-mentions_self m))
Mentions-mentions_self (in_body {l = l} {r = r} {b = b} {t = t} {n = n} m) =
    node_mentions _ _ _ _ l r b t n (ground (arith, Mentions-mentions_self m))
Mentions-mentions_self (in_type {l = l} {r = r} {b = b} {t = t} {n = n} m) =
    node_mentions _ _ _ _ l r b t n (ground (arith, Mentions-mentions_self m))
Mentions-mentions_self (in_next {l = l} {r = r} {b = b} {t = t} {n = n} m) =
    node_mentions _ _ _ _ l r b t n (ground (arith, Mentions-mentions_self m))

-- The reports of two parts.
pub ++-none : (xs ys : List Problem) → xs ++ ys ≡ [] → (xs ≡ []) × (ys ≡ [])
++-none [] ys h = (refl, h)
++-none (x ∷ xs) ys h = absurd cc

-- From a set that is stored, a run is legal, and where it is passed the second set is stored.
pub record IsSafe (n : ℕ) (a : Set) (sg : Signal) (b : Set) (τ : List Event) : Type 0 where
  pub at : (r : Set) → a ⊑ r → IsLegal n r τ × (sg ≡ normal → b ⊑ stored r τ)

unreported :
    (fields : List Bytes) (e : Expr) (a : Set)
    → expression fields e a ≡ []
    → mentions_self e ≡ true
    → same_set a (all_fields fields) ≡ true
unfolding expression
unreported fields e a h m = ground (arith, h, m)

module _ (fields : List Bytes) (few : count fields ≤ 64) where
  pub full : (a r : Set) → a ⊑ r → same_set a (all_fields fields) ≡ true → Holds r (count fields)
  unfolding same_set all_fields
  full a r below h i lt = below i (
      ground (
        arith,
        few,
        lt,
        at_below 64 (λ i. agree (a i) (all_fields fields i)) i h (omega (arith, few, lt)),
      ))

  -- An expression that is not reported uses `self` only where every field is stored.
  expression-IsLegal :
      (e : Expr) (a r : Set) {τ : List Event}
      → expression fields e a ≡ []
      → a ⊑ r
      → Evaluates e τ
      → IsLegal (count fields) r τ
  expression-IsLegal e a r h below quiet = tt
  expression-IsLegal e a r h below (uses m d) = (all_stored h m, expression-IsLegal e a r h below d)
    where
      all_stored : expression fields e a ≡ [] → Mentions e → Holds r (count fields)
      all_stored h m = full a r below (unreported fields e a h (Mentions-mentions_self m))

  stored-grows : (r : Set) (τ : List Event) → r ⊑ stored r τ
  stored-grows r [] i h = h
  stored-grows r (stores f ∷ τ) i h = stored-grows (λ i. r i || (i == f)) τ i (ground (arith, h))
  stored-grows r (touches ∷ τ) i h = stored-grows r τ i h

  append-IsLegal :
      (r : Set) (τ σ : List Event)
      → IsLegal (count fields) r τ
      → IsLegal (count fields) (stored r τ) σ
      → IsLegal (count fields) r (τ ++ σ)
  append-IsLegal r [] σ h h' = h'
  append-IsLegal r (stores f ∷ τ) σ h h' = append-IsLegal (λ i. r i || (i == f)) τ σ h h'
  append-IsLegal r (touches ∷ τ) σ h h' = (h.0, append-IsLegal r τ σ h.1 h')

  stored-append : (r : Set) (τ σ : List Event) → stored r (τ ++ σ) ≡ stored (stored r τ) σ
  stored-append r [] σ = refl
  stored-append r (stores f ∷ τ) σ = stored-append (λ i. r i || (i == f)) τ σ
  stored-append r (touches ∷ τ) σ = stored-append r τ σ

  pub seq-IsSafe :
      {a b c : Set} {sg : Signal} {τ σ : List Event}
      → IsSafe (count fields) a normal b τ
      → IsSafe (count fields) b sg c σ
      → IsSafe (count fields) a sg c (τ ++ σ)
  seq-IsSafe {τ = τ} {σ = σ} first second = record {
    at = λ r below.
        let one = first.at r below in
        let two = second.at (stored r τ) (one.1 refl) in
        (append-IsLegal r τ σ one.0 two.0, rw (stored-append r τ σ) two.1);
  }

  pub weaken-IsSafe :
      {a b c : Set} {sg : Signal} {τ : List Event}
      → (sg ≡ normal → c ⊑ b)
      → IsSafe (count fields) a sg b τ
      → IsSafe (count fields) a sg c τ
  weaken-IsSafe less safe = record {
    at = λ r below. let both = safe.at r below in (both.0, λ e i h. both.1 e i (less e i h));
  }

  -- What was stored before still is.
  pub keep-IsSafe :
      {a b : Set} {sg sg' : Signal} {τ : List Event}
      → IsSafe (count fields) a sg b τ
      → IsSafe (count fields) a sg' a τ
  keep-IsSafe {τ = τ} safe = record {
    at = λ r below. ((safe.at r below).0, λ e i h. stored-grows r τ i (below i h));
  }

  pub evaluated :
      {e : Expr} {τ : List Event} (a : Set)
      → expression fields e a ≡ []
      → Evaluates e τ
      → IsSafe (count fields) a normal a τ
  evaluated {e = e} {τ = τ} a h d = record {
    at = λ r below. (expression-IsLegal e a r h below d, λ n i h. stored-grows r τ i (below i h));
  }

  pub evaluated_both :
      {e e' : Expr} {τ τ' : List Event} (a : Set)
      → expression fields e a ≡ []
      → expression fields e' a ≡ []
      → Evaluates e τ
      → Evaluates e' τ'
      → IsSafe (count fields) a normal a (τ ++ τ')
  evaluated_both a h h' d d' = seq-IsSafe (evaluated a h d) (evaluated a h' d')
