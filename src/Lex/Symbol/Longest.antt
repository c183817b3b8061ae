-- ===== src/Lex/Symbol/Longest.antt =====
-- `match_symbol` tries the operators longest first.
use luce_seed.Base.{
  ℕ, zero, suc, ◌≤◌, ◌<◌, ◌≡◌, ◌⊎◌, inl, inr, refl, sym, ◌∙◌, arith, Bool, true, false, Bool-cases,
  List, [], ◌∷◌, String, Bytes, codes, length, get_or,
}
use luce_seed.Lex.Symbol.{
  SymbolMatch, long_symbols, match_symbol, single_symbol, starts_with, take_first,
}
use luce_seed.Lex.Token.{TokenKind}

-- The entry at an index; the index is always one of the table.
abbrev pub symbol_at : List (String × TokenKind) → ℕ → String × TokenKind
symbol_at table i = get_or table i ("", TokenKind.name)

abbrev pub size : List (String × TokenKind) → ℕ → ℕ
size table i = length (codes (symbol_at table i).0)

abbrev pub is_here : List (String × TokenKind) → Bytes → ℕ → ℕ → Bool
is_here table bytes pos i = starts_with bytes pos (codes (symbol_at table i).0)

-- The result is the entry at `i`, which stands here, and no longer entry of the table does.
pub record IsLongest (table : List (String × TokenKind)) (bytes : Bytes) (pos : ℕ)
    (found : SymbolMatch) : Type 0 where
  pub i : ℕ
  pub inside : i < length table
  pub here : is_here table bytes pos i ≡ true
  pub kind : found.kind ≡ (symbol_at table i).1
  pub width : found.width ≡ size table i
  pub longest :
      (j : ℕ) → j < length table → is_here table bytes pos j ≡ true → size table j ≤ found.width

-- No entry of the table stands here.
abbrev pub IsAbsent : List (String × TokenKind) → Bytes → ℕ → Type 0
IsAbsent table bytes pos = (j : ℕ) → j < length table → is_here table bytes pos j ≡ false

abbrev AtMost : ℕ → List (String × TokenKind) → Type 0
AtMost n [] = Unit
AtMost n ((s, k) ∷ rest) = (length (codes s) ≤ n) × AtMost n rest

abbrev Descending : List (String × TokenKind) → Type 0
Descending [] = Unit
Descending ((s, k) ∷ rest) = AtMost (length (codes s)) rest × Descending rest

long_symbols-Descending : Descending long_symbols
long_symbols-Descending = ground arith

size_le :
    (n : ℕ) (table : List (String × TokenKind)) (j : ℕ)
    → AtMost n table
    → j < length table
    → size table j ≤ n
size_le n [] j h i = absurd (omega arith)
size_le n ((s, k) ∷ rest) zero h i = h.0
size_le n ((s, k) ∷ rest) (suc j) h i = size_le n rest j h.1 (omega arith)

module _ (bytes : Bytes) (pos : ℕ) (otherwise : SymbolMatch) where
  take_first-IsLongest :
      (table : List (String × TokenKind))
      → Descending table
      → IsLongest table bytes pos (take_first table bytes pos otherwise)
        ⊎ (IsAbsent table bytes pos × (take_first table bytes pos otherwise ≡ otherwise))
  unfolding take_first
  take_first-IsLongest [] d = inr (λ j h. absurd (omega arith), refl)
  take_first-IsLongest ((s, k) ∷ rest) d = elim (Bool-cases (starts_with bytes pos (codes s))) [
    | inl here ↦
        rw (here, take_first)
          (inl (record {
            i = 0;
            inside = omega arith;
            here = here;
            kind = refl;
            width = refl;
            longest = bounded;
          }))
    | inr missing ↦ rw (missing, take_first) (behind missing _ (take_first-IsLongest rest d.1))
  ]
    where
      bounded :
          (j : ℕ)
          → j < length ((s, k) ∷ rest)
          → is_here ((s, k) ∷ rest) bytes pos j ≡ true
          → size ((s, k) ∷ rest) j ≤ length (codes s)
      bounded zero h i = omega arith
      bounded (suc j) h i = size_le (length (codes s)) rest j d.0 (omega arith)

      passed :
          starts_with bytes pos (codes s) ≡ false
          → (width : ℕ)
          → ((j : ℕ) → j < length rest → is_here rest bytes pos j ≡ true → size rest j ≤ width)
          → (j : ℕ) → j < length ((s, k) ∷ rest)
          → is_here ((s, k) ∷ rest) bytes pos j ≡ true
          → size ((s, k) ∷ rest) j ≤ width
      passed missing width ih zero h e = absurd (ground (arith, sym e ∙ missing))
      passed missing width ih (suc j) h e = ih j (omega arith) e

      still_absent :
          starts_with bytes pos (codes s) ≡ false
          → IsAbsent rest bytes pos
          → IsAbsent ((s, k) ∷ rest) bytes pos
      still_absent missing ih zero h = missing
      still_absent missing ih (suc j) h = ih j (omega arith)

      behind :
          starts_with bytes pos (codes s) ≡ false
          → (found : SymbolMatch)
          → IsLongest rest bytes pos found ⊎ (IsAbsent rest bytes pos × (found ≡ otherwise))
          → IsLongest ((s, k) ∷ rest) bytes pos found
            ⊎ (IsAbsent ((s, k) ∷ rest) bytes pos × (found ≡ otherwise))
      behind missing found (inl r) = inl (record {
        i = suc r.i;
        inside = let h = r.inside in omega arith;
        here = r.here;
        kind = r.kind;
        width = r.width;
        longest = passed missing found.width r.longest;
      })
      behind missing found (inr (absent, same)) = inr (still_absent missing absent, same)

-- `match_symbol` gives the longest operator of two bytes or more that stands at the position; where
-- there is none, it gives what the switch on the next byte gives.
pub match_symbol-IsLongest :
    (bytes : Bytes) (pos : ℕ)
    → IsLongest long_symbols bytes pos (match_symbol bytes pos)
      ⊎ (IsAbsent long_symbols bytes pos
          × (match_symbol bytes pos ≡ single_symbol (get_or bytes pos 0)))
unfolding match_symbol
match_symbol-IsLongest bytes pos =
    take_first-IsLongest bytes pos (single_symbol (get_or bytes pos 0)) long_symbols
      long_symbols-Descending
