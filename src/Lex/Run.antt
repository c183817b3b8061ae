-- ===== src/Lex/Run.antt =====
-- `scan_token`, `finish` and `run` of the `Tokenizer` of src/lex/lexer.cpp, and `tokenize`.
use luce_seed.Base.Loop.{Round, next, done, iterate, leave}
use luce_seed.Base.{
  ℕ, suc, ◌+◌, ◌-◌, ◌*◌, Bool, true, false, not, ◌&&◌, ◌||◌, List, [], ◌∷◌, none, some, length,
  get_or, ltb, ◌==◌, if◌then◌else◌, is_empty,
}
use luce_seed.Lex.Chars.{paren, bracket, brace, is_ascii_digit, is_ident_continue, is_ident_start}
use luce_seed.Lex.Keyword.{keyword_kind}
use luce_seed.Lex.Layout.{
  close_delimiter, colon_ends_line, dedent_to, finish_layout_region, require_multiline_field,
  scan_line_start, skip_comment,
}
use luce_seed.Lex.Literal.{scan_character, scan_formatted_text, scan_string_literal}
use luce_seed.Lex.Number.{scan_number}
use luce_seed.Lex.State.{
  Tokenizer, LayoutRegion, tokenizer, advance, advance_line, at_end, column, count_while, emit,
  emit_at, error, error_at, is_newline, layout_active, peek_byte, remaining, slice,
}
use luce_seed.Lex.Symbol.{SymbolMatch, match_symbol}
use luce_seed.Lex.Token.{TokenKind, Token}
use luce_seed.Source.Classify.{confusable_hint}
use luce_seed.Source.Types.{Source}
use luce_seed.Source.Utf8.{utf8_next}
use luce_seed.Support.Diagnostics.{DiagnosticBag}
use mathlib.Core.List.{reverse}

-- `if (pos_ - start > 128)`
unfoldable pub check_length : Tokenizer → ℕ → Tokenizer
check_length s start =
    if ltb 128 (s.pos - start)
    then error s "lucb.lex.identifier" "an identifier is at most 128 bytes"
    else s

-- `if (kind == TokenKind::KwAsm)`
unfoldable pub note_asm : TokenKind → Tokenizer → Tokenizer
note_asm TokenKind.kw_asm s = record s { saw_asm = true }
note_asm _ s = s

unfoldable pub scan_word : Tokenizer → ℕ → ℕ → ℕ → Tokenizer
scan_word s0 start start_line start_column =
    let opened = advance s0 1 in
    let s = advance opened (count_while is_ident_continue (remaining opened)) in
    let kind = keyword_kind (slice s start s.pos) in
    emit_at (note_asm kind (check_length s start)) kind start s.pos start_line start_column []

-- A colon that ends its line opens a suite: a raw one behind `asm`, and a region inside delimiters.
unfoldable pub open_suite : Tokenizer → Tokenizer
open_suite s =
    let t = if s.saw_asm then record s { raw_suite = true } else s in
    let region : LayoutRegion = record { depth = length t.delimiters; base = t.indent_width } in
    if is_empty t.delimiters then t else record t { layout_regions = region ∷ t.layout_regions }

-- What a symbol of one byte does before it is emitted, and whether it closes a formatted field.
unfoldable pub apply_symbol : Tokenizer → ℕ → ℕ → ℕ → Tokenizer × Bool
apply_symbol s ch start start_column =
    if ch == b'('
    then (record s { delimiters = paren ∷ s.delimiters }, false)
    else if ch == b'['
    then (record s { delimiters = bracket ∷ s.delimiters }, false)
    else if ch == b'{'
    then (record s { delimiters = brace ∷ s.delimiters }, false)
    else if ch == b')' || ch == b']' || ch == b'}'
    then close_delimiter (finish_layout_region s) ch start_column start
    else if ch == b':' && colon_ends_line s
    then (open_suite s, false)
    else (s, false)

-- The token of a symbol; a formatted string goes on behind the field that the symbol closes.
unfoldable pub emit_symbol : Tokenizer × Bool → TokenKind → ℕ → ℕ → ℕ → Tokenizer
emit_symbol (t, closes_field) kind start start_line start_column =
    let u = emit_at t kind start t.pos start_line start_column [] in
    if closes_field then scan_formatted_text u else u

unfoldable pub scan_symbol : Tokenizer → ℕ → ℕ → ℕ → SymbolMatch → Tokenizer
scan_symbol s0 start start_line start_column symbol =
    let s = record s0 { pos = start + symbol.width } in
    let applied =
      if symbol.width == 1
      then apply_symbol s (get_or s.bytes start 0) start start_column
      else (s, false) in
    emit_symbol applied symbol.kind start start_line start_column

-- The end of `scan_token`: no token begins here.
unfoldable pub unexpected : Tokenizer → Tokenizer
unexpected s = elim (utf8_next s.bytes s.pos) [
  | none ↦ advance (error s "lucb.lex.character" "unexpected character") 1
  | some (width, cp) ↦ elim (confusable_hint cp) [
    | some hint ↦ advance (error s "lucb.lex.character" hint) width
    | none ↦ advance (error s "lucb.lex.character" "unexpected character") width
  ]
]

unfoldable pub scan_newline : Tokenizer → Tokenizer
scan_newline s0 =
    let s = require_multiline_field s0 in
    let t = emit s TokenKind.newline s.pos s.pos in
    advance_line
      (if layout_active s then record t { pending_layout = true; saw_asm = false } else s)

unfoldable pub scan_token : Tokenizer → Tokenizer
scan_token s =
    let c = peek_byte s 0 in
    let start = s.pos in
    let col = column s in
    let symbol = match_symbol s.bytes s.pos in
    if c == b' '
    then advance s 1
    else if c == b'#'
    then skip_comment (require_multiline_field s)
    else if is_newline c
    then scan_newline s
    else if (c == b'f' || c == b'r' || c == b'b') && peek_byte s 1 == b'"'
    then scan_string_literal s start s.line col c
    else if c == b'"'
    then scan_string_literal s start s.line col 0
    else if c == b'\''
    then scan_character s start s.line col
    else if c == b'_' && not (is_ident_continue (peek_byte s 1))
    then (let t = advance s 1 in emit_at t TokenKind.underscore start t.pos s.line col [])
    else if is_ident_start c
    then scan_word s start s.line col
    else if is_ascii_digit c
    then scan_number s start s.line col
    else if ltb 0 symbol.width
    then scan_symbol s start s.line col symbol
    else unexpected s

-- The errors for what is still open at the end.
unfoldable pub report_open : Tokenizer → Tokenizer
report_open s = elim s.formatted [
  | [] ↦ if is_empty s.delimiters then s else error s "lucb.lex.delimiter" "unclosed delimiter"
  | mode ∷ outer ↦
      if ltb 0 s.commented_close_line
      then error_at s s.commented_close_line s.commented_close_column s.pos "lucb.lex.string"
          "formatted string interpolation cannot close inside a comment"
      else error_at s mode.line mode.column s.pos "lucb.lex.string"
          "unterminated formatted string interpolation"
]

unfoldable pub needs_newline : TokenKind → Bool
needs_newline TokenKind.newline = false
needs_newline TokenKind.indent = false
needs_newline TokenKind.dedent = false
needs_newline TokenKind.doc_comment = false
needs_newline TokenKind.raw_line = false
needs_newline _ = true

unfoldable pub end_line : Tokenizer → Tokenizer
end_line s = elim s.tokens [
  | [] ↦ s
  | last ∷ older ↦ if needs_newline last.kind then emit s TokenKind.newline s.pos s.pos else s
]

unfoldable pub finish : Tokenizer → Tokenizer
finish s =
    let t = end_line (report_open s) in
    let u = dedent_to t.indent_width 0 t in emit u TokenKind.end_of_file u.pos u.pos

abbrev pub token_limit : ℕ
token_limit = 1000000

-- One round of the loop of `run`.
unfoldable pub run_round : Tokenizer → Round Tokenizer Tokenizer
run_round s =
    let scanned = if s.pending_layout && layout_active s then scan_line_start s else scan_token s in
    if at_end s
    then done s
    else if ltb token_limit (length scanned.tokens)
    then done (error scanned "lucb.lex.limit" "too many tokens")
    else next scanned

-- A round takes a byte, or ends a raw suite, or settles a pending line start.
abbrev pub run_fuel : Tokenizer → ℕ
run_fuel s = suc (3 * length s.bytes + 3)

unfoldable pub run : Tokenizer → Tokenizer
run s =
    if not s.source.is_ok
    then emit s TokenKind.end_of_file s.pos s.pos
    else finish (leave (λ t. t) (iterate (run_fuel s) run_round s))

-- The tokens in order, and the diagnostics.
unfoldable pub tokenize : Source → DiagnosticBag → List Token × DiagnosticBag
tokenize source bag = let s = run (tokenizer source bag) in (reverse s.tokens, s.diagnostics)
