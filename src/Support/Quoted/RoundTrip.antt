-- ===== src/Support/Quoted/RoundTrip.antt =====
-- A text between quotes, with its quotes and backslashes escaped, decodes to itself.
use luce_seed.Base.{
  ℕ, zero, suc, ◌+◌, ◌-◌, ◌≤◌, ◌≡◌, ◌⊎◌, inl, inr, refl, ap, arith, Bool, true, false, ◌&&◌, ◌||◌,
  Bool-cases, [], ◌∷◌, ◌++◌, Bytes, bytes_eq, get_or, length, length-append, leb, take, take-append,
  ◌==◌, if◌then◌else◌,
}
use luce_seed.Support.Quoted.{
  body_of, decode_round, decode_string_literal, escape, unescape, without_prefix,
}
use luce_seed.Support.Character.{simple_escape}

-- A quote and a backslash get a backslash in front.
abbrev pub quoted : Bytes → Bytes
quoted [] = []
quoted (c ∷ cs) = let rest = quoted cs in if c == 92 || c == 34 then 92 ∷ c ∷ rest else c ∷ rest

plain_round :
    (bytes : Bool) (c : ℕ) (cs : Bytes) → (c == 92) ≡ false → decode_round bytes c cs ≡ (c ∷ [], cs)
unfolding decode_round
plain_round bytes c [] h = refl
plain_round bytes c (e ∷ cs) h = rw h refl

escaped_round :
    (c : ℕ) (cs : Bytes)
    → (c == 92 || c == 34) ≡ true
    → decode_round false 92 (c ∷ cs) ≡ (c ∷ [], cs)
unfolding decode_round escape simple_escape
escaped_round c cs h = ground (arith, h)

unescape-quoted :
    (fuel : ℕ) (cs : Bytes) → length (quoted cs) ≤ fuel → unescape fuel false (quoted cs) ≡ cs
unfolding unescape
unescape-quoted zero [] h = refl
unescape-quoted (suc fuel) [] h = refl
unescape-quoted zero (c ∷ cs) h = elim (Bool-cases (c == 92 || c == 34)) [
  | inl marked ↦ absurd (ground (arith, marked, h))
  | inr plain ↦ absurd (ground (arith, plain, h))
]
unescape-quoted (suc fuel) (c ∷ cs) h = elim (Bool-cases (c == 92 || c == 34)) [
  | inl marked ↦
      let fits : length (quoted cs) ≤ fuel = ground (arith, marked, h) in
      rw (marked, escaped_round c (quoted cs) marked, unescape)
        (ap (λ xs. c ∷ xs) (unescape-quoted fuel cs fits))
  | inr plain ↦
      let fits : length (quoted cs) ≤ fuel = ground (arith, plain, h) in
      let other : (c == 92) ≡ false = ground (arith, plain) in
      rw (plain, plain_round false c (quoted cs) other, unescape)
        (ap (λ xs. c ∷ xs) (unescape-quoted fuel cs fits))
]

get_or-last : (xs : Bytes) (c d : ℕ) → get_or (xs ++ c ∷ []) (length xs) d ≡ c
get_or-last [] c d = refl
get_or-last (x ∷ xs) c d = get_or-last xs c d

-- A text whose quotes are escaped does not begin with one.
first_lem :
    (cs : Bytes)
    → (quoted cs ≡ []) ⊎ ((c : ℕ) × (rest : Bytes) × (quoted cs ≡ c ∷ rest) × ((c == 34) ≡ false))
first_lem [] = inl refl
first_lem (c ∷ cs) = elim (Bool-cases (c == 92 || c == 34)) [
  | inl marked ↦ inr (92, c ∷ quoted cs, rw marked refl, refl)
  | inr plain ↦ inr (c, quoted cs, rw plain refl, ground (arith, plain))
]

and_false : (b : Bool) → (b && false) ≡ false
and_false true = refl
and_false false = refl

body_lem :
    (body : Bytes)
    → (body ≡ []) ⊎ ((c : ℕ) × (rest : Bytes) × (body ≡ c ∷ rest) × ((c == 34) ≡ false))
    → body_of (34 ∷ body ++ 34 ∷ []) ≡ body
unfolding body_of bytes_eq
body_lem body (inl empty) = rw empty refl
body_lem body (inr (c, rest, is_body, other)) =
    let size : length (34 ∷ body ++ 34 ∷ []) ≡ length body + 2 =
      omega (arith, length-append body (34 ∷ [])) in
    let no_triple : bytes_eq (take 3 (34 ∷ body ++ 34 ∷ [])) (34 ∷ 34 ∷ 34 ∷ []) ≡ false =
      rw (is_body, other) refl in
    let one_less : length body + 2 - 1 ≡ suc (length body) = omega arith in
    let two_less : length body + 2 - 2 ≡ length body = omega arith in
    let long : leb 2 (length body + 2) ≡ true = ground arith in
    rw
      (
        size,
        no_triple,
        and_false (leb 6 (length body + 2)),
        long,
        one_less,
        two_less,
        get_or-last body 34 0,
        take-append body (34 ∷ []),
        body_of,
      )
      refl

plain_prefix : (xs : Bytes) → without_prefix (34 ∷ xs) ≡ (false, false, 34 ∷ xs)
unfolding without_prefix
plain_prefix xs =
    rw (and_false (leb 2 (length (34 ∷ xs)) && (get_or (34 ∷ xs) 1 0 == 34)), without_prefix) refl

-- A text between quotes whose quotes and backslashes have a backslash in front decodes to the text.
pub decode_string_literal-quoted :
    (cs : Bytes) → decode_string_literal (34 ∷ quoted cs ++ 34 ∷ []) ≡ cs
unfolding decode_string_literal
decode_string_literal-quoted cs =
    rw
      (
        plain_prefix (quoted cs ++ 34 ∷ []),
        body_lem (quoted cs) (first_lem cs),
        decode_string_literal,
      )
      (unescape-quoted (length (quoted cs)) cs (omega arith))
