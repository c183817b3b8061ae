-- ===== src/Lex/Literal.antt =====
-- String, formatted string and character literals of src/lex/lexer.cpp.
use luce_seed.Base.Loop.{Round, next, done, iterate, leave}
use luce_seed.Base.{
  ℕ, ◌+◌, Bool, true, false, ◌&&◌, not, List, [], ◌∷◌, none, some, String, Bytes, ltb, ◌==◌,
  if◌then◌else◌,
}
use luce_seed.Lex.Chars.{format_field}
use luce_seed.Lex.Escape.{scan_escape}
use luce_seed.Lex.State.{
  Tokenizer, FormattedMode, advance, advance_line, at_end, column, emit_at, error, error_at,
  is_newline, peek_byte, rounds, starts_with,
}
use luce_seed.Lex.Token.{TokenKind}
use luce_seed.Source.Utf8.{utf8_next}

abbrev pub triple_quote : Bytes
triple_quote = b'"' ∷ b'"' ∷ b'"' ∷ []

-- The test at the end of a string body: past the closing quotes, if they stand here.
unfoldable pub closes_string : Bool → Tokenizer → Bool
closes_string is_triple s = if is_triple then starts_with s triple_quote else peek_byte s 0 == b'"'

abbrev pub quote_width : Bool → ℕ
quote_width is_triple = if is_triple then 3 else 1

-- A scalar value of the body, which `utf8_next` reads.
unfoldable pub body_scalar : Bool → Tokenizer → Round Tokenizer (Tokenizer × Bool)
body_scalar byte_mode s = elim (utf8_next s.bytes s.pos) [
  | none ↦ done (error s "lucb.lex.string" "invalid UTF-8 in string", false)
  | some (width, cp) ↦
      if byte_mode && ltb 0x7F cp
      then done (
        advance (error s "lucb.lex.string" "byte literals require ASCII source characters") width,
        false,
      )
      else next (advance s width)
]

-- One round of the loop of `scan_string_body`.
unfoldable pub body_round :
    Bool → Bool → Bool → ℕ → ℕ → Tokenizer → Round Tokenizer (Tokenizer × Bool)
body_round is_raw byte_mode is_triple start_line start_column s =
    let c = peek_byte s 0 in
    let unterminated =
      error_at s start_line start_column s.pos "lucb.lex.string" "unterminated string literal" in
    let (escaped, fine) = scan_escape s byte_mode in
    if at_end s
    then done (unterminated, false)
    else if closes_string is_triple s
    then done (advance s (quote_width is_triple), true)
    else if not is_raw && c == b'\\'
    then (if fine then next escaped else done (escaped, false))
    else if is_newline c
    then (if is_triple then next (advance_line s) else done (unterminated, false))
    else body_scalar byte_mode s

unfoldable pub scan_string_body : Tokenizer → ℕ → ℕ → ℕ → Tokenizer × Bool
scan_string_body s prefix start_line start_column =
    let is_triple = starts_with s triple_quote in
    let opened = advance s (quote_width is_triple) in
    leave (λ t. (t, false))
      (iterate (rounds opened)
        (body_round (prefix == b'r') (prefix == b'b') is_triple start_line start_column) opened)

-- The variables of the loop of `scan_formatted_text`; `emit_text` reads the first three.
pub record TextStart : Type 0 where
  pub start : ℕ
  pub start_line : ℕ
  pub start_column : ℕ

unfoldable pub emit_text : TextStart → Tokenizer → Tokenizer
emit_text from s =
    if ltb from.start s.pos
    then emit_at s TokenKind.format_text from.start s.pos from.start_line from.start_column []
    else s

abbrev pub pop {ℓ} : {A : Type ℓ} → List A → List A
pop [] = []
pop (x ∷ xs) = xs

-- The closing quotes of a formatted string.
unfoldable pub close_format : TextStart → Bool → Tokenizer → Tokenizer
close_format from is_triple s0 =
    let s = emit_text from s0 in
    let t = advance s (quote_width is_triple) in
    let u = emit_at t TokenKind.format_end s.pos t.pos t.line (column s) [] in
    record u { formatted = pop u.formatted }

-- `{` opens a field.
unfoldable pub open_field : TextStart → Tokenizer → Tokenizer
open_field from s0 =
    let s = emit_text from s0 in
    let moved = advance s 1 in
    let t = record moved { delimiters = format_field ∷ moved.delimiters } in
    emit_at t TokenKind.l_brace s.pos t.pos t.line (column s) []

-- One round of the loop of `scan_formatted_text`.
unfoldable pub text_round : FormattedMode → TextStart → Tokenizer → Round Tokenizer Tokenizer
text_round mode from s =
    let c = peek_byte s 0 in
    let fail =
      λ (message : String). error_at s mode.line mode.column s.pos "lucb.lex.string" message in
    let (escaped, fine) = scan_escape s false in
    if at_end s
    then done (fail "unterminated string literal")
    else if closes_string mode.is_triple s
    then done (close_format from mode.is_triple s)
    else if c == b'\\'
    then (if fine then next escaped else done escaped)
    else if c == b'{'
    then (if starts_with s (b'{' ∷ b'{' ∷ []) then next (advance s 2) else done (open_field from s))
    else if c == b'}'
    then (if starts_with s (b'}' ∷ b'}' ∷ [])
        then next (advance s 2)
        else done (advance (fail "unescaped '}' in formatted string") 1))
    else if is_newline c
    then (if mode.is_triple
        then next (advance_line s)
        else done (fail "unterminated string literal"))
    else next (advance s (elim (utf8_next s.bytes s.pos) [ none ↦ 1 | some (width, cp) ↦ width ]))

-- `formatted_.back()` exists wherever the source calls this.
unfoldable pub scan_formatted_text : Tokenizer → Tokenizer
scan_formatted_text s = elim s.formatted [
  | [] ↦ s
  | mode ∷ outer ↦
      let from : TextStart = record {
        start = s.pos;
        start_line = s.line;
        start_column = column s;
      } in
      leave (λ t. t) (iterate (rounds s) (text_round mode from) s)
]

-- A literal with the prefix `f`, behind it.
unfoldable pub format_literal : Tokenizer → ℕ → ℕ → ℕ → Tokenizer
format_literal s start start_line start_column =
    let is_triple = starts_with s triple_quote in
    let opened = advance s (quote_width is_triple) in
    let t = emit_at opened TokenKind.format_start start opened.pos start_line start_column [] in
    let mode : FormattedMode = record {
      is_triple = is_triple;
      line = start_line;
      column = start_column;
    } in
    scan_formatted_text (record t { formatted = mode ∷ t.formatted })

-- Any other literal, behind its prefix.
unfoldable pub plain_literal : Tokenizer → ℕ → ℕ → ℕ → ℕ → Tokenizer
plain_literal s start start_line start_column prefix =
    let (read, fine) = scan_string_body s prefix start_line start_column in
    let kind = if prefix == b'b' then TokenKind.bytes_lit else TokenKind.string_lit in
    if fine then emit_at read kind start read.pos start_line start_column [] else read

-- `prefix` is 0 where the literal has none.
unfoldable pub scan_string_literal : Tokenizer → ℕ → ℕ → ℕ → ℕ → Tokenizer
scan_string_literal s0 start start_line start_column prefix =
    let s = if prefix == 0 then s0 else advance s0 1 in
    if prefix == b'f'
    then format_literal s start start_line start_column
    else plain_literal s start start_line start_column prefix

-- One round of the loop of `scan_character`, with the number of scalar values read.
unfoldable pub character_round : ℕ → ℕ → ℕ → Tokenizer × ℕ → Round (Tokenizer × ℕ) Tokenizer
character_round start start_line start_column (s, scalars) =
    let c = peek_byte s 0 in
    let fail = λ (t : Tokenizer) (message : String).
      error_at t start_line start_column start "lucb.lex.char" message in
    let (escaped, fine) = scan_escape s false in
    let closed = advance s 1 in
    if at_end s
    then done (fail s "unterminated character literal")
    else if c == b'\\'
    then (if fine then next (escaped, scalars + 1) else done escaped)
    else if c == b'\''
    then (if scalars == 1
        then done (emit_at closed TokenKind.char_lit start closed.pos start_line start_column [])
        else done (fail closed "character literal must contain one Unicode scalar"))
    else if is_newline c
    then done (fail s "unterminated character literal")
    else elim (utf8_next s.bytes s.pos) [
      | none ↦ done (error s "lucb.lex.char" "invalid UTF-8 in character literal")
      | some (width, cp) ↦ next (advance s width, scalars + 1)
    ]

unfoldable pub scan_character : Tokenizer → ℕ → ℕ → ℕ → Tokenizer
scan_character s start start_line start_column =
    leave (λ t. t.0)
      (iterate (rounds s) (character_round start start_line start_column) (advance s 1, 0))
