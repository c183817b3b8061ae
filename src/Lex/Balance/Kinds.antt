-- ===== src/Lex/Balance/Kinds.antt =====
-- No keyword and no symbol is a layout token.
use luce_seed.Base.{
  ℕ, zero, suc, ◌+◌, ◌-◌, ◌/◌, ◌≡◌, refl, arith, ◌⊎◌, inl, inr, Bool-cases, List, [], ◌∷◌, Bytes,
  String, get_or, codes,
}
use luce_seed.Lex.Balance.Core.{IsPlain, is_plain}
use luce_seed.Lex.Keyword.{KeywordEntry, absent, k_keywords, keyword_kind, search_loop}
use luce_seed.Lex.Symbol.{
  SymbolMatch, long_symbols, match_symbol, single_symbol, starts_with, take_first,
}
use luce_seed.Lex.Token.{TokenKind}

-- Every entry of a keyword table has a plain kind.
abbrev ArePlain : List KeywordEntry → Type 0
ArePlain [] = Unit
ArePlain (e ∷ es) = IsPlain e.kind × ArePlain es

get_or-IsPlain :
    (table : List KeywordEntry) (i : ℕ) → ArePlain table → IsPlain (get_or table i absent).kind
unfolding is_plain
get_or-IsPlain [] i h = refl
get_or-IsPlain (e ∷ es) zero h = h.0
get_or-IsPlain (e ∷ es) (suc i) h = get_or-IsPlain es i h.1

pub name-IsPlain : IsPlain TokenKind.name
unfolding is_plain
name-IsPlain = refl

search_loop-IsPlain :
    (fuel : ℕ) (table : List KeywordEntry) (word : Bytes) (lo hi : ℕ)
    → ArePlain table
    → IsPlain (search_loop fuel table word lo hi)
unfolding search_loop
search_loop-IsPlain zero table word lo hi h = name-IsPlain
search_loop-IsPlain (suc fuel) table word lo hi h =
    let mid = lo + (hi - lo) / 2 in
    ground (
      arith,
      name-IsPlain,
      get_or-IsPlain table mid h,
      search_loop-IsPlain fuel table word lo mid h,
      search_loop-IsPlain fuel table word (mid + 1) hi h,
    )

k_keywords-plain : ArePlain k_keywords
unfolding is_plain
k_keywords-plain = ground arith

pub keyword_kind-IsPlain : (word : Bytes) → IsPlain (keyword_kind word)
unfolding keyword_kind
keyword_kind-IsPlain word = search_loop-IsPlain _ k_keywords word _ _ k_keywords-plain

-- So has every symbol that is found.
abbrev AreSymbols : List (String × TokenKind) → Type 0
AreSymbols [] = Unit
AreSymbols ((s, k) ∷ rest) = IsPlain k × AreSymbols rest

abbrev pub IsFound : SymbolMatch → Type 0
IsFound m = (m.width ≡ 0) ⊎ IsPlain m.kind

take_first-IsFound :
    (table : List (String × TokenKind)) (bytes : Bytes) (pos : ℕ) (otherwise : SymbolMatch)
    → AreSymbols table
    → IsFound otherwise
    → IsFound (take_first table bytes pos otherwise)
unfolding take_first
take_first-IsFound [] bytes pos otherwise h o = o
take_first-IsFound ((s, k) ∷ rest) bytes pos otherwise h o =
    elim (Bool-cases (starts_with bytes pos (codes s))) [
      | inl e ↦ rw (e, take_first) (inr h.0)
      | inr e ↦ rw (e, take_first) (take_first-IsFound rest bytes pos otherwise h.1 o)
    ]

single_symbol-IsFound : (c : ℕ) → IsFound (single_symbol c)
unfolding single_symbol is_plain
single_symbol-IsFound c = ground arith

long_symbols-plain : AreSymbols long_symbols
unfolding is_plain
long_symbols-plain = ground arith

pub match_symbol-IsFound : (bytes : Bytes) (pos : ℕ) → IsFound (match_symbol bytes pos)
unfolding match_symbol
match_symbol-IsFound bytes pos =
    take_first-IsFound long_symbols bytes pos _ long_symbols-plain (single_symbol-IsFound _)
