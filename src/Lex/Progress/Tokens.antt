-- ===== src/Lex/Progress/Tokens.antt =====
-- Words, symbols and line ends move forward.
use luce_seed.Base.{
  ℕ, suc, ◌+◌, ◌≤◌, ◌<◌, ◌≡◌, ◌==◌, ◌⊎◌, inl, inr, refl, arith, Bool, true, false, Bool-cases, List,
  [], ◌∷◌, get_or,
}
use luce_seed.Lex.Keyword.{keyword_kind}
use luce_seed.Lex.Chars.{is_ident_continue}
use luce_seed.Lex.Layout.{
  close_delimiter, close_line, close_region, finish_layout_region, require_multiline_field,
}
use luce_seed.Lex.Progress.Core.{From, From-trans, utf8_next-HasWidth}
use luce_seed.Lex.Progress.Lines.{dedent_to-Stays}
use luce_seed.Lex.Progress.Scanners.{scan_formatted_text-From}
use luce_seed.Lex.Run.{
  apply_symbol, check_length, emit_symbol, note_asm, open_suite, scan_newline, scan_symbol,
  scan_word, unexpected,
}
use luce_seed.Lex.State.{
  Tokenizer, LayoutRegion, advance, advance_line, count_while, emit, emit_at, error, error_at,
  layout_active, remaining, slice,
}
use luce_seed.Lex.Symbol.{SymbolMatch}
use luce_seed.Lex.Token.{TokenKind}

note_asm-From : (kind : TokenKind) (s : Tokenizer) → From s s.pos (note_asm kind s)
unfolding note_asm
note_asm-From TokenKind.kw_asm s = (refl, omega arith, refl)
note_asm-From _ s = (refl, omega arith, refl)

check_length-From : (s : Tokenizer) (start : ℕ) → From s s.pos (check_length s start)
unfolding check_length error error_at
check_length-From s start = ground arith

pub scan_word-From :
    (s : Tokenizer) (start line col : ℕ) → From s (suc s.pos) (scan_word s start line col)
unfolding scan_word advance emit_at
scan_word-From s start line col =
    let opened = advance s 1 in
    let t = advance opened (count_while is_ident_continue (remaining opened)) in
    let c = check_length t start in
    let ahead : From s (suc s.pos) t = (refl, omega arith, refl) in
    let checked = From-trans s t c ahead (check_length-From t start) in
    From-trans s c (note_asm (keyword_kind (slice t start t.pos)) c) checked (note_asm-From _ c)

close_region-From :
    (s : Tokenizer) (region : LayoutRegion) (outer : List LayoutRegion)
    → From s s.pos (close_region s region outer)
unfolding close_region close_line emit
close_region-From s region outer =
    ground (arith, dedent_to-Stays s.indent_width region.base (close_line s))

finish_layout_region-From : (s : Tokenizer) → From s s.pos (finish_layout_region s)
unfolding finish_layout_region
finish_layout_region-From s = split s.layout_regions
  where
    split :
        (regions : List LayoutRegion)
        → From s s.pos (elim regions [ [] ↦ s | region ∷ outer ↦ close_region s region outer ])
    split [] = (refl, omega arith, refl)
    split (region ∷ outer) = close_region-From s region outer

apply_symbol-From :
    (s : Tokenizer) (ch start col : ℕ) → From s s.pos (apply_symbol s ch start col).0
unfolding apply_symbol close_delimiter open_suite error_at
apply_symbol-From s ch start col = ground (arith, finish_layout_region-From s)

emit_symbol-From :
    (r : Tokenizer × Bool) (kind : TokenKind) (start line col : ℕ)
    → From r.0 r.0.pos (emit_symbol r kind start line col)
unfolding emit_symbol emit_at
emit_symbol-From (t, true) kind start line col = scan_formatted_text-From _
emit_symbol-From (t, false) kind start line col = (refl, omega arith, refl)

pub scan_symbol-From :
    (s : Tokenizer) (line col : ℕ) (symbol : SymbolMatch)
    → 0 < symbol.width
    → From s (suc s.pos) (scan_symbol s s.pos line col symbol)
unfolding scan_symbol
scan_symbol-From s0 line col symbol wide =
    let s = record s0 { pos = s0.pos + symbol.width } in
    let ahead : From s0 (suc s0.pos) s = (refl, omega arith, refl) in
    let ch = get_or s0.bytes s0.pos 0 in
    let a = apply_symbol s ch s0.pos col in
    let applied = From-trans s0 s a.0 ahead (apply_symbol-From s ch s0.pos col) in
    let u = emit_symbol a symbol.kind s0.pos line col in
    let v = emit_symbol (s, false) symbol.kind s0.pos line col in
    let one = From-trans s0 a.0 u applied (emit_symbol-From a symbol.kind s0.pos line col) in
    let many = From-trans s0 s v ahead (emit_symbol-From (s, false) symbol.kind s0.pos line col) in
    elim (Bool-cases (symbol.width == 1)) [
      | inl e ↦ rw (e, scan_symbol) one
      | inr e ↦ rw (e, scan_symbol) many
    ]

pub unexpected-From : (s : Tokenizer) → From s (suc s.pos) (unexpected s)
unfolding unexpected advance error error_at
unexpected-From s = ground (arith, utf8_next-HasWidth s.bytes s.pos)

-- A line end keeps the text and takes a byte; where it leaves a line start pending that was not so,
-- the layout is active and the next line begins at the position.
pub scan_newline-moves :
    (s : Tokenizer)
    → s.pending_layout ≡ false
    → ((scan_newline s).bytes ≡ s.bytes)
      × (suc s.pos ≤ (scan_newline s).pos)
      × (((scan_newline s).pending_layout ≡ false)
          ⊎ ((layout_active (scan_newline s) ≡ true)
              × ((scan_newline s).pos ≡ (scan_newline s).line_start)))
unfolding scan_newline advance_line emit require_multiline_field error_at layout_active
scan_newline-moves s h = ground arith
