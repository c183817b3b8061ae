-- ===== src/Lex/Layout.antt =====
-- The layout pass of src/lex/lexer.cpp: indentation, comments, raw `asm` suites, and suites inside
-- delimiters.
use luce_seed.Base.Loop.{Round, next, done, iterate, leave}
use luce_seed.Base.{
  ℕ, zero, suc, ◌+◌, ◌-◌, Bool, true, false, not, ◌&&◌, ◌||◌, List, [], ◌∷◌, length, get_or, ltb,
  leb, ◌==◌, if◌then◌else◌, is_empty,
}
use luce_seed.Lex.Chars.{format_field, closing_for}
use luce_seed.Lex.State.{
  Tokenizer, LayoutRegion, advance, advance_line, at_end, column, count_while, emit, emit_at, error,
  error_at, is_newline, peek_byte, remaining, rounds, starts_with,
}
use luce_seed.Lex.Token.{TokenKind}

-- `while (width < indent_width_) { indent_width_ -= 4; emit(Dedent) }`, with fuel.
unfoldable pub dedent_to : ℕ → ℕ → Tokenizer → Tokenizer
dedent_to zero width s = s
dedent_to (suc fuel) width s =
    let lower = record s { indent_width = s.indent_width - 4 } in
    elim (ltb width s.indent_width) [
      | true ↦ dedent_to fuel width (emit lower TokenKind.dedent s.pos s.pos)
      | false ↦ s
    ]

-- A width below the base of the innermost region is refused.
unfoldable pub below_region : List LayoutRegion → ℕ → Bool
below_region [] width = false
below_region (region ∷ outer) width = ltb width region.base

-- A region ends at a line that is indented as its base.
unfoldable pub leave_region : List LayoutRegion → ℕ → List LayoutRegion
leave_region [] width = []
leave_region (region ∷ outer) width = if width == region.base then outer else region ∷ outer

-- Each dedent takes four columns, so the width itself bounds their number.
unfoldable pub update_indentation : Tokenizer → ℕ → Tokenizer
update_indentation s width =
    let wider = emit (record s { indent_width = width }) TokenKind.indent s.pos s.pos in
    let t = dedent_to s.indent_width width s in
    if below_region s.layout_regions width
    then error s "lucb.lex.indent"
        "a suite inside delimiters cannot dedent past the line that opened it"
    else if ltb s.indent_width width
    then (if not (width == s.indent_width + 4)
        then error s "lucb.lex.indent" "indentation must increase by four spaces"
        else wider)
    else if not (width == t.indent_width)
    then error t "lucb.lex.indent" "dedent does not match any outer indentation"
    else record t { layout_regions = leave_region t.layout_regions width }

-- The closing of a triple formatted field, met inside a comment, is remembered once.
unfoldable pub note_close : Tokenizer → Tokenizer
note_close s =
    if not (is_empty s.formatted)
      && s.commented_close_line == 0
      && starts_with s (b'}' ∷ b'"' ∷ b'"' ∷ b'"' ∷ [])
    then record s { commented_close_line = s.line; commented_close_column = column s }
    else s

unfoldable pub comment_round : Tokenizer → Round Tokenizer Tokenizer
comment_round s =
    if not (at_end s) && not (is_newline (peek_byte s 0))
    then next (advance (note_close s) 1)
    else done s

unfoldable pub skip_comment : Tokenizer → Tokenizer
skip_comment s = leave (λ t. t) (iterate (rounds s) comment_round s)

unfoldable pub scan_documentation : Tokenizer → Tokenizer
scan_documentation s =
    let t = skip_comment s in emit_at t TokenKind.doc_comment s.pos t.pos t.line (column s) []

unfoldable pub require_multiline_field : Tokenizer → Tokenizer
require_multiline_field s = elim s.formatted [
  | [] ↦ s
  | mode ∷ outer ↦
      if mode.is_triple
      then s
      else error_at s mode.line mode.column s.pos "lucb.lex.string"
          "formatted string interpolation cannot cross a line"
]

-- The number of spaces at the position.
unfoldable pub leading_spaces : Tokenizer → ℕ
leading_spaces s = count_while (λ c. c == b' ') (remaining s)

unfoldable pub end_raw_suite : Tokenizer → Tokenizer
end_raw_suite s = if not s.raw_suite then s else record s { raw_suite = false; raw_started = false }

-- `while (!at_end() && peek_byte() != '\n' && peek_byte() != '\r') pos_ += 1`
unfoldable pub skip_to_newline : Tokenizer → Tokenizer
skip_to_newline s = advance s (count_while (λ c. not (is_newline c)) (remaining s))

-- One line of a raw suite that has begun, behind its indentation.
unfoldable pub raw_line : Tokenizer → Tokenizer
raw_line s0 =
    let s = record s0 { pos = s0.line_start + s0.indent_width } in
    let read = skip_to_newline s in
    let t = emit read TokenKind.raw_line s.pos read.pos in
    if not (at_end t) && is_newline (peek_byte t 0) then advance_line t else t

-- The first line of a raw suite opens it.
unfoldable pub start_raw : Tokenizer → ℕ → Tokenizer
start_raw s content =
    if s.raw_started
    then s
    else let wider = record s { indent_width = s.indent_width + 4 } in
      let t = emit wider TokenKind.indent content content in record t { raw_started = true }

-- One round of the loop of `scan_raw_line_start`.
unfoldable pub raw_round : Tokenizer → Round Tokenizer Tokenizer
raw_round s =
    let width = leading_spaces s in
    let content = s.pos + width in
    let c = get_or s.bytes content 0 in
    let blank = if s.raw_started then emit s TokenKind.raw_line content content else s in
    let suite_indent = if s.raw_started then s.indent_width else s.indent_width + 4 in
    let ended = end_raw_suite s in
    let closed = update_indentation (record ended { pos = content }) width in
    let misplaced = error s "lucb.lex.indent" "indentation must increase by four spaces" in
    if at_end s
    then done (end_raw_suite s)
    else if leb (length s.bytes) content
    then done (end_raw_suite (record s { pos = content }))
    else if is_newline c
    then next (advance_line (record blank { pos = content }))
    else if ltb width suite_indent
    then done (record closed { pending_layout = false })
    else if not s.raw_started && not (width == s.indent_width + 4)
    then done (record misplaced { raw_suite = false })
    else next (raw_line (start_raw s content))

unfoldable pub scan_raw_line_start : Tokenizer → Tokenizer
scan_raw_line_start s = leave (λ t. t) (iterate (rounds s) raw_round s)

-- A line that holds a comment alone; a doc comment counts for the indentation.
unfoldable pub comment_line : Tokenizer → ℕ → Tokenizer
comment_line s width =
    if starts_with s (b'#' ∷ b'#' ∷ [])
    then scan_documentation (update_indentation s width)
    else skip_comment s

-- One round of the loop of `scan_line_start`.
unfoldable pub line_round : Tokenizer → Round Tokenizer Tokenizer
line_round s =
    let width = leading_spaces s in
    let content = s.pos + width in
    let moved = record s { pos = content } in
    let c = get_or s.bytes content 0 in
    let placed = update_indentation moved width in
    if at_end s
    then done s
    else if leb (length s.bytes) content
    then done moved
    else if is_newline c
    then next (advance_line moved)
    else if c == b'#'
    then next (comment_line moved width)
    else done (record placed { pending_layout = false })

unfoldable pub scan_line_start : Tokenizer → Tokenizer
scan_line_start s =
    let lines = leave (λ t. t) (iterate (rounds s) line_round s) in
    if s.raw_suite then scan_raw_line_start s else lines

-- The newline that ends the last line of a suite inside delimiters.
unfoldable pub close_line : Tokenizer → Tokenizer
close_line s = elim s.tokens [
  | [] ↦ s
  | last ∷ older ↦ elim last.kind [
    | TokenKind.newline ↦ s
    | _ ↦ emit s TokenKind.newline s.pos s.pos
  ]
]

-- The end of the innermost region, if the delimiters are back at its depth.
unfoldable pub close_region : Tokenizer → LayoutRegion → List LayoutRegion → Tokenizer
close_region s region outer =
    let t = dedent_to s.indent_width region.base (close_line s) in
    if not (region.depth == length s.delimiters) then s else record t { layout_regions = outer }

unfoldable pub finish_layout_region : Tokenizer → Tokenizer
finish_layout_region s = elim s.layout_regions [
  | [] ↦ s
  | region ∷ outer ↦ close_region s region outer
]

-- Whether the delimiter closes a field of a formatted string.
unfoldable pub close_delimiter : Tokenizer → ℕ → ℕ → ℕ → Tokenizer × Bool
close_delimiter s closing col at = elim s.delimiters [
  | [] ↦ (
    error_at s s.line col at "lucb.lex.delimiter" "closing delimiter has no matching opener",
    false,
  )
  | opening ∷ outer ↦
      if not (closing == closing_for opening)
      then (
        error_at s s.line col at "lucb.lex.delimiter" "closing delimiter does not match its opener",
        false,
      )
      else (record s { delimiters = outer }, elim opening [ format_field ↦ true | _ ↦ false ])
]

unfoldable pub colon_ends_line : Tokenizer → Bool
colon_ends_line s = let c = peek_byte s (leading_spaces s) in c == b'#' || is_newline c || c == 0
