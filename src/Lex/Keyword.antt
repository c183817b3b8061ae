-- ===== src/Lex/Keyword.antt =====
-- `keyword_kind` of src/lex/token.cpp: the binary search in the sorted keyword table.
pub mod Search
use luce_seed.Base.{
  ℕ, zero, suc, ◌+◌, ◌-◌, ◌/◌, true, false, List, [], ◌∷◌, ◌≡◌, refl, Bytes, codes, String, length,
  get_or, ltb, if◌then◌else◌,
}
use luce_seed.Lex.Token.{TokenKind}

pub record KeywordEntry : Type 0 where
  pub spelling : String
  pub kind : TokenKind

abbrev pub entry : String → TokenKind → KeywordEntry
entry s k = record { spelling = s; kind = k }

abbrev pub k_keywords : List KeywordEntry
k_keywords =
    entry "and" TokenKind.kw_and
    ∷ entry "as" TokenKind.kw_as
    ∷ entry "asm" TokenKind.kw_asm
    ∷ entry "break" TokenKind.kw_break
    ∷ entry "catch" TokenKind.kw_catch
    ∷ entry "const" TokenKind.kw_const
    ∷ entry "continue" TokenKind.kw_continue
    ∷ entry "defer" TokenKind.kw_defer
    ∷ entry "elif" TokenKind.kw_elif
    ∷ entry "else" TokenKind.kw_else
    ∷ entry "enum" TokenKind.kw_enum
    ∷ entry "errdefer" TokenKind.kw_errdefer
    ∷ entry "extern" TokenKind.kw_extern
    ∷ entry "false" TokenKind.kw_false
    ∷ entry "for" TokenKind.kw_for
    ∷ entry "free" TokenKind.kw_free
    ∷ entry "from" TokenKind.kw_from
    ∷ entry "func" TokenKind.kw_func
    ∷ entry "if" TokenKind.kw_if
    ∷ entry "import" TokenKind.kw_import
    ∷ entry "in" TokenKind.kw_in
    ∷ entry "interface" TokenKind.kw_interface
    ∷ entry "let" TokenKind.kw_let
    ∷ entry "match" TokenKind.kw_match
    ∷ entry "new" TokenKind.kw_new
    ∷ entry "none" TokenKind.kw_none
    ∷ entry "not" TokenKind.kw_not
    ∷ entry "or" TokenKind.kw_or
    ∷ entry "pub" TokenKind.kw_pub
    ∷ entry "recover" TokenKind.kw_recover
    ∷ entry "return" TokenKind.kw_return
    ∷ entry "self" TokenKind.kw_self
    ∷ entry "static" TokenKind.kw_static
    ∷ entry "struct" TokenKind.kw_struct
    ∷ entry "test" TokenKind.kw_test
    ∷ entry "true" TokenKind.kw_true
    ∷ entry "try" TokenKind.kw_try
    ∷ entry "type" TokenKind.kw_type
    ∷ entry "union" TokenKind.kw_union
    ∷ entry "var" TokenKind.kw_var
    ∷ entry "volatile" TokenKind.kw_volatile
    ∷ entry "while" TokenKind.kw_while
    ∷ entry "with" TokenKind.kw_with
    ∷ []

-- The sign of `word.compare(other)`: bytes are compared as unsigned numbers, a prefix comes first.
pub data Order : Type 0 where
  less same more : Order

unfoldable pub compare_bytes : Bytes → Bytes → Order
compare_bytes [] [] = same
compare_bytes [] (y ∷ ys) = less
compare_bytes (x ∷ xs) [] = more
compare_bytes (x ∷ xs) (y ∷ ys) =
    let rest = compare_bytes xs ys in if ltb x y then less else if ltb y x then more else rest

abbrev pub absent : KeywordEntry
absent = entry "" TokenKind.name

-- The loop over `lo` and `hi`, with fuel.
unfoldable pub search_loop : ℕ → List KeywordEntry → Bytes → ℕ → ℕ → TokenKind
search_loop zero table word lo hi = TokenKind.name
search_loop (suc fuel) table word lo hi =
    let mid = lo + (hi - lo) / 2 in
    let found = get_or table mid absent in
    let left = search_loop fuel table word lo mid in
    let right = search_loop fuel table word (mid + 1) hi in
    elim (ltb lo hi) [
      | true ↦ elim (compare_bytes word (codes found.spelling)) [
        | same ↦ found.kind
        | less ↦ left
        | more ↦ right
      ]
      | false ↦ TokenKind.name
    ]

unfoldable pub keyword_kind : Bytes → TokenKind
keyword_kind word = search_loop (suc (length k_keywords)) k_keywords word 0 (length k_keywords)

errdefer_found : keyword_kind (codes "errdefer") ≡ TokenKind.kw_errdefer
unfolding keyword_kind search_loop compare_bytes
errdefer_found = refl

class_is_name : keyword_kind (codes "class") ≡ TokenKind.name
unfolding keyword_kind search_loop compare_bytes
class_is_name = refl
