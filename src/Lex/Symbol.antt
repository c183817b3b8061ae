-- ===== src/Lex/Symbol.antt =====
-- `match_symbol` of src/lex/lexer.cpp: the operators, tried in the order of the source.
pub mod Longest
use luce_seed.Base.{
  ℕ, ◌+◌, Bool, List, [], ◌∷◌, String, ◌≡◌, refl, Bytes, codes, bytes_eq, length, get_or, take,
  drop, ltb, ◌==◌, if◌then◌else◌, false,
}
use luce_seed.Lex.Token.{TokenKind}

pub record SymbolMatch : Type 0 where
  pub kind : TokenKind
  pub width : ℕ

abbrev pub no_match : SymbolMatch
no_match = record { kind = TokenKind.end_of_file; width = 0 }

-- `starts_with` at a position.
unfoldable pub starts_with : Bytes → ℕ → Bytes → Bool
starts_with bytes pos text =
    if ltb (length bytes) (pos + length text)
    then false
    else bytes_eq (take (length text) (drop pos bytes)) text

-- The calls of `take` in order; the first one that matches is returned.
abbrev pub long_symbols : List (String × TokenKind)
long_symbols =
    ("+%=", TokenKind.plus_percent_eq)
    ∷ ("-%=", TokenKind.minus_percent_eq)
    ∷ ("*%=", TokenKind.star_percent_eq)
    ∷ ("+|=", TokenKind.plus_pipe_eq)
    ∷ ("-|=", TokenKind.minus_pipe_eq)
    ∷ ("*|=", TokenKind.star_pipe_eq)
    ∷ ("//=", TokenKind.slash_slash_eq)
    ∷ ("<<=", TokenKind.lt_lt_eq)
    ∷ (">>=", TokenKind.gt_gt_eq)
    ∷ ("---", TokenKind.dash_dash_dash)
    ∷ ("...", TokenKind.dot_dot_dot)
    ∷ ("..<", TokenKind.dot_dot_lt)
    ∷ ("..=", TokenKind.dot_dot_eq)
    ∷ ("+%", TokenKind.plus_percent)
    ∷ ("-%", TokenKind.minus_percent)
    ∷ ("*%", TokenKind.star_percent)
    ∷ ("+|", TokenKind.plus_pipe)
    ∷ ("-|", TokenKind.minus_pipe)
    ∷ ("*|", TokenKind.star_pipe)
    ∷ ("+?", TokenKind.plus_question)
    ∷ ("-?", TokenKind.minus_question)
    ∷ ("*?", TokenKind.star_question)
    ∷ ("->", TokenKind.arrow)
    ∷ ("=>", TokenKind.fat_arrow)
    ∷ ("==", TokenKind.eq_eq)
    ∷ ("!=", TokenKind.not_eq)
    ∷ ("<=", TokenKind.lt_eq)
    ∷ (">=", TokenKind.gt_eq)
    ∷ ("//", TokenKind.slash_slash)
    ∷ ("<<", TokenKind.lt_lt)
    ∷ (">>", TokenKind.gt_gt)
    ∷ ("+=", TokenKind.plus_eq)
    ∷ ("-=", TokenKind.minus_eq)
    ∷ ("*=", TokenKind.star_eq)
    ∷ ("/=", TokenKind.slash_eq)
    ∷ ("%=", TokenKind.percent_eq)
    ∷ ("&=", TokenKind.amp_eq)
    ∷ ("|=", TokenKind.pipe_eq)
    ∷ ("^=", TokenKind.caret_eq)
    ∷ ("..", TokenKind.dot_dot)
    ∷ []

unfoldable pub take_first : List (String × TokenKind) → Bytes → ℕ → SymbolMatch → SymbolMatch
take_first [] bytes pos otherwise = otherwise
take_first ((s, k) ∷ rest) bytes pos otherwise =
    let later = take_first rest bytes pos otherwise in
    if starts_with bytes pos (codes s) then record { kind = k; width = length (codes s) } else later

abbrev pub one : TokenKind → SymbolMatch
one k = record { kind = k; width = 1 }

-- The `switch` on the next byte.
unfoldable pub single_symbol : ℕ → SymbolMatch
single_symbol c =
    if c == b'('
    then one TokenKind.l_paren
    else if c == b')'
    then one TokenKind.r_paren
    else if c == b'['
    then one TokenKind.l_bracket
    else if c == b']'
    then one TokenKind.r_bracket
    else if c == b'{'
    then one TokenKind.l_brace
    else if c == b'}'
    then one TokenKind.r_brace
    else if c == b','
    then one TokenKind.comma
    else if c == b':'
    then one TokenKind.colon
    else if c == b'.'
    then one TokenKind.dot
    else if c == b'?'
    then one TokenKind.question
    else if c == b'!'
    then one TokenKind.bang
    else if c == b'@'
    then one TokenKind.at
    else if c == b'+'
    then one TokenKind.plus
    else if c == b'-'
    then one TokenKind.minus
    else if c == b'*'
    then one TokenKind.star
    else if c == b'/'
    then one TokenKind.slash
    else if c == b'%'
    then one TokenKind.percent
    else if c == b'&'
    then one TokenKind.amp
    else if c == b'|'
    then one TokenKind.pipe
    else if c == b'^'
    then one TokenKind.caret
    else if c == b'~'
    then one TokenKind.tilde
    else if c == b'<'
    then one TokenKind.lt
    else if c == b'>'
    then one TokenKind.gt
    else if c == b'='
    then one TokenKind.eq
    else no_match

unfoldable pub match_symbol : Bytes → ℕ → SymbolMatch
match_symbol bytes pos = take_first long_symbols bytes pos (single_symbol (get_or bytes pos 0))

shift_assign : match_symbol (codes "a <<= 1") 2 ≡ record { kind = TokenKind.lt_lt_eq; width = 3 }
unfolding match_symbol take_first starts_with bytes_eq
shift_assign = refl
