-- ===== src/Lex/Progress/Core.antt =====
-- Moving forward in an unchanged text, and the loops that take a byte in each round.
use luce_seed.Base.Loop.{Round, next, done, Falls, Leaves, iterate, iterate-Leaves, leave}
use luce_seed.Base.{
  ℕ, suc, ◌-◌, ◌≤◌, ◌<◌, ◌≡◌, refl, ap, ◌∙◌, arith, Option, none, some, Bytes, length,
}
use luce_seed.Lex.State.{Tokenizer}
use luce_seed.Source.Utf8.{utf8_next, multibyte}

-- The text is that of `s`, the position has come to `pos` at least, and a line start is pending or not
-- as in `s`.
abbrev pub From : Tokenizer → ℕ → Tokenizer → Type 0
From s pos t = (t.bytes ≡ s.bytes) × (pos ≤ t.pos) × (t.pending_layout ≡ s.pending_layout)

-- One round from state `s` takes a byte of the text, or leaves.
module _ {S R : Type 0} (state : S → Tokenizer) (out : R → Tokenizer) where
  abbrev pub Goes : Tokenizer → Round S R → Type 0
  Goes s (next t) = From s (suc s.pos) (state t) × (s.pos < length s.bytes)
  Goes s (done r) = From s s.pos (out r)

  falls :
      (s0 s : Tokenizer) (r : Round S R)
      → From s0 s0.pos s
      → Goes s r
      → Falls
          (λ t. From s0 s0.pos (state t))
          (λ t. From s0 s0.pos (out t))
          (λ t. length s0.bytes - (state t).pos)
          (length s0.bytes - s.pos)
          r
  falls s0 s (next t) f g = ((g.0.0 ∙ f.0, omega arith, g.0.2 ∙ f.2), omega (arith, ap length f.0))
  falls s0 s (done r) f g = (g.0 ∙ f.0, omega arith, g.2 ∙ f.2)

  -- Such a loop leaves with a result if its fuel is more than what is left of the text.
  pub Goes-Leaves :
      (body : S → Round S R)
      → ((s : S) → Goes (state s) (body s))
      → (fuel : ℕ) (s : S) → length (state s).bytes - (state s).pos < fuel
      → Leaves (λ t. From (state s) (state s).pos (out t)) (iterate fuel body s)
  Goes-Leaves body go fuel s h =
      let s0 = state s in
      iterate-Leaves (λ t. From s0 s0.pos (state t)) (λ t. From s0 s0.pos (out t))
        (λ t. length s0.bytes - (state t).pos) body (λ t f. falls s0 (state t) (body t) f (go t))
        fuel s h (refl, omega arith, refl)

  pub Goes-From :
      (body : S → Round S R)
      → ((s : S) → Goes (state s) (body s))
      → (spent : S → R) (fuel : ℕ) (s : S) → length (state s).bytes - (state s).pos < fuel
      → From (state s) (state s).pos (out (leave spent (iterate fuel body s)))
  Goes-From body go spent fuel s h = let (r, e, f) = Goes-Leaves body go fuel s h in rw e f

pub From-trans : (s0 s t : Tokenizer) {pos : ℕ} → From s0 pos s → From s s.pos t → From s0 pos t
From-trans s0 s t f g = (g.0 ∙ f.0, omega arith, g.2 ∙ f.2)

-- The same from further back.
pub From-le : (s0 t : Tokenizer) {high low : ℕ} → From s0 high t → low ≤ high → From s0 low t
From-le s0 t f h = (f.0, omega arith, f.2)

-- A scalar value that was read takes a byte at least.
abbrev pub HasWidth : Option (ℕ × ℕ) → Type 0
HasWidth none = Unit
HasWidth (some r) = 1 ≤ r.0

pub utf8_next-HasWidth : (bytes : Bytes) (at : ℕ) → HasWidth (utf8_next bytes at)
unfolding utf8_next multibyte
utf8_next-HasWidth bytes at = ground arith
