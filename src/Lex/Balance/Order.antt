-- ===== src/Lex/Balance/Order.antt =====
-- The invariant, read on the tokens in the order of the text.
use luce_seed.Base.{
  ℕ, zero, suc, ◌+◌, ◌≤◌, ◌≡◌, refl, arith, ◌⊎◌, inl, inr, List, [], ◌∷◌, ◌++◌, take,
}
use luce_seed.Lex.Balance.Core.{IsNested, closes, opens, tally}
use luce_seed.Lex.Token.{Token, TokenKind}
use mathlib.Core.List.{reverse, reverse-cons}

pub tally-append :
    (f : TokenKind → ℕ) (xs ys : List Token) → tally f (xs ++ ys) ≡ tally f xs + tally f ys
tally-append f [] ys = omega arith
tally-append f (x ∷ xs) ys = omega (arith, tally-append f xs ys)

pub tally-reverse : (f : TokenKind → ℕ) (ts : List Token) → tally f (reverse ts) ≡ tally f ts
tally-reverse f [] = refl
tally-reverse f (t ∷ ts) =
    rw reverse-cons (omega (arith, tally-append f (reverse ts) (t ∷ []), tally-reverse f ts))

pub take-concat :
    (n : ℕ) (xs : List Token) (t : Token)
    → (take n (xs ++ t ∷ []) ≡ take n xs) ⊎ (take n (xs ++ t ∷ []) ≡ xs ++ t ∷ [])
take-concat zero xs t = inl refl
take-concat (suc zero) [] t = inr refl
take-concat (suc (suc n)) [] t = inr refl
take-concat (suc n) (x ∷ xs) t = elim (take-concat n xs t) [
  | inl e ↦ inl (rw e)
  | inr e ↦ inr (rw e)
]

-- At no place of the text were more suites closed than opened.
pub prefix_nested :
    (ts : List Token) (n : ℕ)
    → IsNested ts
    → tally closes (take n (reverse ts)) ≤ tally opens (take n (reverse ts))
prefix_nested [] zero h = omega arith
prefix_nested [] (suc n) h = omega arith
prefix_nested (t ∷ ts) n h = rw reverse-cons (elim (take-concat n (reverse ts) t) [
  | inl e ↦ rw e (prefix_nested ts n h.1)
  | inr e ↦ rw e (
      omega (
        arith,
        h.0,
        tally-append closes (reverse ts) (t ∷ []),
        tally-append opens (reverse ts) (t ∷ []),
        tally-reverse closes ts,
        tally-reverse opens ts,
      ))
])
