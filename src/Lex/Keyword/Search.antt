-- ===== src/Lex/Keyword/Search.antt =====
-- The binary search of `keyword_kind` against the keyword table.
use luce_seed.Base.{
  ℕ, zero, suc, ◌+◌, ◌-◌, ◌/◌, ◌≤◌, ◌<◌, ◌≡◌, ◌≢◌, ◌⊎◌, inl, inr, refl, sym, ap, ◌∙◌, arith, true,
  Bool-cases, List, [], ◌∷◌, Bytes, codes, length, get_or, ltb,
}
use luce_seed.Lex.Keyword.{
  KeywordEntry, Order, absent, compare_bytes, k_keywords, keyword_kind, less, more, same,
  search_loop,
}
use luce_seed.Lex.Token.{TokenKind, is_keyword, ordinal}

-- Texts that compare as the same are equal.
compare_bytes-same : (xs ys : Bytes) → compare_bytes xs ys ≡ same → xs ≡ ys
unfolding compare_bytes
compare_bytes-same [] [] h = refl
compare_bytes-same [] (y ∷ ys) h = absurd (ground arith)
compare_bytes-same (x ∷ xs) [] h = absurd (ground arith)
compare_bytes-same (x ∷ xs) (y ∷ ys) h = ground (arith, compare_bytes-same xs ys)

-- An entry of the table has the spelling, and its kind is the one found.
abbrev pub IsFound : Bytes → TokenKind → Type 0
IsFound word kind =
    (i : ℕ) × (i < length k_keywords)
    × (codes (get_or k_keywords i absent).spelling ≡ word)
    × (kind ≡ (get_or k_keywords i absent).kind)

search_loop-IsFound :
    (fuel : ℕ) (word : Bytes) (lo hi : ℕ)
    → hi ≤ length k_keywords
    → (search_loop fuel k_keywords word lo hi ≡ TokenKind.name)
      ⊎ IsFound word (search_loop fuel k_keywords word lo hi)
unfolding search_loop
search_loop-IsFound zero word lo hi h = inl refl
search_loop-IsFound (suc fuel) word lo hi h = elim (Bool-cases (ltb lo hi)) [
  | inr empty ↦ rw (empty, search_loop) (inl refl)
  | inl wide ↦
      let mid = lo + (hi - lo) / 2 in
      rw (wide, search_loop)
        (by_order mid (search_loop fuel k_keywords word lo mid)
          (search_loop fuel k_keywords word (mid + 1) hi) (ground (arith, wide))
          (search_loop-IsFound fuel word lo mid (ground (arith, wide)))
          (search_loop-IsFound fuel word (mid + 1) hi h)
          (compare_bytes word (codes (get_or k_keywords mid absent).spelling)) refl)
]
  where
    by_order :
        (mid : ℕ) (left right : TokenKind)
        → mid < length k_keywords
        → (left ≡ TokenKind.name) ⊎ IsFound word left
        → (right ≡ TokenKind.name) ⊎ IsFound word right
        → (o : Order) → compare_bytes word (codes (get_or k_keywords mid absent).spelling) ≡ o
        → let r : TokenKind = elim o [
          | same ↦ (get_or k_keywords mid absent).kind
          | less ↦ left
          | more ↦ right
        ] in
          (r ≡ TokenKind.name) ⊎ IsFound word r
    by_order mid left right inside l r same e =
        inr (mid, inside, sym (compare_bytes-same _ _ e), refl)
    by_order mid left right inside l r less e = l
    by_order mid left right inside l r more e = r

-- Each entry of the table is found, and its kind is that of a keyword.
abbrev AllFound : List KeywordEntry → Type 0
AllFound [] = Unit
AllFound (e ∷ rest) =
    ((keyword_kind (codes e.spelling) ≡ e.kind) × (is_keyword e.kind ≡ true)) × AllFound rest

table_found : AllFound k_keywords
unfolding keyword_kind search_loop compare_bytes is_keyword ordinal
table_found = ground arith

entry_found :
    (table : List KeywordEntry) (i : ℕ)
    → AllFound table
    → i < length table
    → (keyword_kind (codes (get_or table i absent).spelling) ≡ (get_or table i absent).kind)
      × (is_keyword (get_or table i absent).kind ≡ true)
entry_found [] i all h = absurd (omega arith)
entry_found (e ∷ rest) zero all h = all.0
entry_found (e ∷ rest) (suc i) all h = entry_found rest i all.1 (omega arith)

name_is_free : (kind : TokenKind) → is_keyword kind ≡ true → kind ≢ TokenKind.name
unfolding is_keyword ordinal
name_is_free kind h e = absurd (ground (arith, ap is_keyword e))

-- The binary search finds a word exactly when the table has it: either an entry of the table spells
-- the word and has the kind that is found, or no entry spells it and the kind is that of a name.
pub keyword_kind-exact :
    (word : Bytes)
    → IsFound word (keyword_kind word)
      ⊎ ((keyword_kind word ≡ TokenKind.name)
          × ((i : ℕ) → i < length k_keywords → codes (get_or k_keywords i absent).spelling ≢ word))
keyword_kind-exact word = elim (found_or_name word) [
  | inr found ↦ inl found
  | inl name ↦ inr (
    name,
    λ i h e.
        let (kind, keyword) = entry_found k_keywords i table_found h in
        name_is_free _ keyword (sym kind ∙ ap keyword_kind e ∙ name),
  )
]
  where
    found_or_name :
        (word : Bytes) → (keyword_kind word ≡ TokenKind.name) ⊎ IsFound word (keyword_kind word)
    found_or_name word =
        unfold keyword_kind in
        search_loop-IsFound (suc (length k_keywords)) word 0 (length k_keywords) (omega arith)
