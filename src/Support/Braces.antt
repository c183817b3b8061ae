-- ===== src/Support/Braces.antt =====
-- `unescape_format_braces` of src/support/literal.h: a doubled brace stands for one.
use luce_seed.Base.{
  ℕ, ◌≡◌, refl, ap, arith, Bool, true, false, ◌&&◌, ◌||◌, Bool-cases, [], ◌∷◌, Bytes, ◌==◌, inl,
  inr, if◌then◌else◌,
}

-- The two bytes are one brace twice.
unfoldable pub is_doubled : ℕ → ℕ → Bool
is_doubled c d = (c == b'{') && (d == b'{') || (c == b'}') && (d == b'}')

unfoldable pub unescape_format_braces : Bytes → Bytes
unescape_format_braces [] = []
unescape_format_braces (c ∷ []) = c ∷ []
unescape_format_braces (c ∷ d ∷ rest) = elim (is_doubled c d) [
  | true ↦ c ∷ unescape_format_braces rest
  | false ↦ c ∷ unescape_format_braces (d ∷ rest)
]

-- Every brace twice.
abbrev pub doubled : Bytes → Bytes
doubled [] = []
doubled (c ∷ cs) =
    let rest = doubled cs in if c == b'{' || c == b'}' then c ∷ c ∷ rest else c ∷ rest

plain_lem :
    (c : ℕ) (cs : Bytes)
    → (c == b'{' || c == b'}') ≡ false
    → unescape_format_braces (c ∷ cs) ≡ c ∷ unescape_format_braces cs
unfolding unescape_format_braces is_doubled
plain_lem c [] h = refl
plain_lem c (d ∷ cs) h =
    let other : is_doubled c d ≡ false = ground (arith, h) in
    rw (other, unescape_format_braces) refl

-- A text whose braces are doubled reads as the text.
pub unescape_format_braces-doubled : (cs : Bytes) → unescape_format_braces (doubled cs) ≡ cs
unfolding unescape_format_braces is_doubled
unescape_format_braces-doubled [] = refl
unescape_format_braces-doubled (c ∷ cs) = elim (Bool-cases (c == b'{' || c == b'}')) [
  | inl brace ↦
      let twice : is_doubled c c ≡ true = ground (arith, brace) in
      rw (brace, twice, unescape_format_braces)
        (ap (λ xs. c ∷ xs) (unescape_format_braces-doubled cs))
  | inr plain ↦
      rw (plain, plain_lem c (doubled cs) plain)
        (ap (λ xs. c ∷ xs) (unescape_format_braces-doubled cs))
]
