-- ===== src/Lex/Progress/Run.antt =====
-- The loop of `run` leaves with a result: with its fuel it reaches the end of the text, or the limit
-- on tokens.
use luce_seed.Base.Loop.{done, Falls, Leaves, iterate, iterate-Leaves, leave}
use luce_seed.Base.{
  ℕ, suc, ◌+◌, ◌*◌, ◌-◌, ◌≤◌, ◌<◌, ◌≡◌, ◌==◌, ◌⊎◌, inl, inr, refl, ap, ◌∙◌, arith, Bool, true,
  false, not, ◌&&◌, ◌||◌, ltb, if◌then◌else◌, Bool-cases, [], ◌∷◌, Bytes, length, get_or, is_empty,
}
use luce_seed.Lex.Chars.{is_ascii_digit, is_ident_continue, is_ident_start}
use luce_seed.Lex.Layout.{
  skip_comment, line_round, raw_round, require_multiline_field, scan_line_start,
  scan_raw_line_start,
}
use luce_seed.Lex.Progress.Core.{From}
use luce_seed.Lex.Progress.Lines.{
  Lines, Settled, Stays, hash_is_text, skip_comment-moves, line_round-Falls,
  require_multiline_field-Stays,
}
use luce_seed.Lex.Progress.Raw.{RawSettled, raw_round-Leaves}
use luce_seed.Lex.Literal.{scan_character, scan_string_literal}
use luce_seed.Lex.Number.{scan_number}
use luce_seed.Lex.Progress.Scanners.{
  scan_character-From, scan_number-From, scan_string_literal-From,
}
use luce_seed.Lex.Progress.Tokens.{
  scan_newline-moves, scan_symbol-From, scan_word-From, unexpected-From,
}
use luce_seed.Lex.Run.{
  run_fuel, run_round, scan_newline, scan_symbol, scan_token, scan_word, token_limit, unexpected,
}
use luce_seed.Source.Types.{Source}
use luce_seed.Support.Diagnostics.{DiagnosticBag}
use luce_seed.Lex.State.{
  Tokenizer, tokenizer, advance, at_end, column, is_newline, emit_at, error, error_at,
  layout_active, peek_byte, rounds,
}
use luce_seed.Lex.Symbol.{match_symbol}
use luce_seed.Lex.Token.{TokenKind}

-- The loop of `scan_line_start` leaves with a result from every state: in the same text, no further
-- back, with the raw-suite flag as it was, and with the line start settled or the text at its end.
pub line_round-Leaves :
    (s : Tokenizer) → Leaves (Settled s.bytes s.pos s.raw_suite) (iterate (rounds s) line_round s)
line_round-Leaves s =
    iterate-Leaves (Lines s.bytes s.pos s.raw_suite) (Settled s.bytes s.pos s.raw_suite)
      (λ t. length s.bytes - t.pos) line_round (line_round-Falls s.bytes s.pos s.raw_suite)
      (rounds s) s (omega arith) (refl, omega arith, refl)

-- Where a line start is pending, the layout is active and the line begins at the position.
abbrev Ready : Tokenizer → Type 0
Ready s =
    (s.pending_layout ≡ false)
    ⊎ ((length s.bytes ≤ s.pos) ⊎ ((layout_active s ≡ true) × (s.pos ≡ s.line_start)))

-- Three for each byte left, one for a pending line start, one more for a pending raw suite.
abbrev flags : Bool → Bool → ℕ
flags true true = 2
flags true false = 1
flags false raw = 0

measure : Tokenizer → ℕ
measure s = 3 * (length s.bytes - s.pos) + flags s.pending_layout s.raw_suite

-- The layout is active by the delimiters and the regions alone.
layout_active-eq :
    (s t : Tokenizer)
    → t.delimiters ≡ s.delimiters
    → t.layout_regions ≡ s.layout_regions
    → layout_active t ≡ layout_active s
unfolding layout_active
layout_active-eq s t d r =
    λ i. elim (r i) [ [] ↦ is_empty (d i) | region ∷ rest ↦ length (d i) == region.depth ]

abbrev Shorter : Tokenizer → Tokenizer → Type 0
Shorter s t = (t.bytes ≡ s.bytes) × Ready t × (measure t < measure s)

raw_lines :
    (s r : Tokenizer)
    → s.raw_suite ≡ true
    → iterate (rounds s) raw_round s ≡ done r
    → scan_line_start s ≡ r
unfolding scan_line_start scan_raw_line_start
raw_lines s r raw e = ground (arith, raw, ap (leave (λ t. t)) e)

plain_lines :
    (s r : Tokenizer)
    → s.raw_suite ≡ false
    → iterate (rounds s) line_round s ≡ done r
    → scan_line_start s ≡ r
unfolding scan_line_start
plain_lines s r plain e = ground (arith, plain, ap (leave (λ t. t)) e)

module _ (s r : Tokenizer) (inside : s.pos < length s.bytes)
    (pending : s.pending_layout ≡ true) where
  raw-Shorter :
      s.raw_suite ≡ true
      → layout_active s ≡ true
      → RawSettled s.bytes s.pos s.delimiters s.layout_regions r
      → Shorter s r
  unfolding measure
  raw-Shorter raw active q = ground (arith, ap length q.0, layout_active-eq s r)

  plain-Shorter : s.raw_suite ≡ false → Settled s.bytes s.pos s.raw_suite r → Shorter s r
  unfolding measure
  plain-Shorter plain q = ground (arith, ap length q.0.0)

scan_line_start-Shorter :
    (s : Tokenizer)
    → s.pos < length s.bytes
    → s.pending_layout ≡ true
    → layout_active s ≡ true
    → s.pos ≡ s.line_start
    → Shorter s (scan_line_start s)
scan_line_start-Shorter s inside pending active at = elim (Bool-cases s.raw_suite) [
  | inl raw ↦
      let (r, e, q) = raw_round-Leaves s (refl, omega arith, raw, pending, refl, refl, inl at) in
      rw (raw_lines s r raw e) (raw-Shorter s r inside pending raw active q)
  | inr plain ↦
      let (r, e, q) = line_round-Leaves s in
      rw (plain_lines s r plain e) (plain-Shorter s r inside pending plain q)
]

-- A token that takes a byte and leaves no line start pending shortens what is to be done.
From-Shorter :
    (s t : Tokenizer)
    → s.pos < length s.bytes
    → s.pending_layout ≡ false
    → From s (suc s.pos) t
    → Shorter s t
unfolding measure
From-Shorter s t inside h f = ground (arith, ap length f.0)

newline-Shorter :
    (s : Tokenizer) → s.pos < length s.bytes → s.pending_layout ≡ false → Shorter s (scan_newline s)
unfolding measure
newline-Shorter s inside h = let m = scan_newline-moves s h in ground (arith, m, ap length m.0)

peek_byte-Stays : (s t : Tokenizer) → Stays s t → peek_byte t 0 ≡ peek_byte s 0
unfolding peek_byte
peek_byte-Stays s t h = rw (h.0, h.1) refl

peek_byte_here :
    (s : Tokenizer)
    → s.pos < length s.bytes
    → (peek_byte s 0 == b'#') ≡ true
    → (get_or s.bytes s.pos 0 == b'#') ≡ true
unfolding peek_byte
peek_byte_here s inside h = let e : s.pos + 0 ≡ s.pos = omega arith in rw (← e) (ground (arith, h))

-- A comment on its own, behind the check that no formatted field is open.
comment-moves :
    (s : Tokenizer)
    → s.pos < length s.bytes
    → (peek_byte s 0 == b'#') ≡ true
    → From s (suc s.pos) (skip_comment (require_multiline_field s))
comment-moves s inside hash =
    let t = require_multiline_field s in
    let stays = require_multiline_field-Stays s in
    let inside' : t.pos < length t.bytes = omega (arith, stays.1, ap length stays.0) in
    let e : is_newline (peek_byte t 0) ≡ false =
      rw (peek_byte-Stays s t stays) (hash_is_text s inside (peek_byte_here s inside hash)) in
    let f = skip_comment-moves t inside' e in
    (f.0 ∙ stays.0, omega (arith, f, stays.1), f.2 ∙ stays.2)

underscore-moves :
    (s : Tokenizer) (kind : TokenKind) (end line col : ℕ)
    → From s (suc s.pos) (emit_at (advance s 1) kind s.pos end line col [])
unfolding emit_at advance
underscore-moves s kind end line col = (refl, omega arith, refl)

advance-moves : (s : Tokenizer) → From s (suc s.pos) (advance s 1)
unfolding advance
advance-moves s = (refl, omega arith, refl)

-- What holds in both branches.
both :
    (P : Tokenizer → Type 0) (b : Bool) {x y : Tokenizer}
    → (b ≡ true → P x)
    → P y
    → P (if b then x else y)
both P true f g = f refl
both P false f g = g

scan_token-Shorter :
    (s : Tokenizer) → s.pos < length s.bytes → s.pending_layout ≡ false → Shorter s (scan_token s)
unfolding scan_token
scan_token-Shorter s inside h =
    let c = peek_byte s 0 in
    let col = column s in
    let symbol = match_symbol s.bytes s.pos in
    let P = λ (t : Tokenizer). Shorter s t in
    let by = λ (t : Tokenizer). From-Shorter s t inside h in
    both P (c == b' ') (λ _. by (advance s 1) (advance-moves s))
      (both P (c == b'#')
        (λ i. by (skip_comment (require_multiline_field s)) (comment-moves s inside i))
        (both P (is_newline c) (λ _. newline-Shorter s inside h)
          (both P ((c == b'f' || c == b'r' || c == b'b') && peek_byte s 1 == b'"')
            (λ _.
              by (scan_string_literal s s.pos s.line col c)
                (scan_string_literal-From s s.pos s.line col c))
            (both P (c == b'"')
              (λ _.
                by (scan_string_literal s s.pos s.line col 0)
                  (scan_string_literal-From s s.pos s.line col 0))
              (both P (c == b'\'')
                (λ _.
                  by (scan_character s s.pos s.line col) (scan_character-From s s.pos s.line col))
                (both P (c == b'_' && not (is_ident_continue (peek_byte s 1)))
                  (λ _.
                    by
                      (emit_at (advance s 1) TokenKind.underscore s.pos (advance s 1).pos s.line col
                        [])
                      (underscore-moves s TokenKind.underscore (advance s 1).pos s.line col))
                  (both P (is_ident_start c)
                    (λ _. by (scan_word s s.pos s.line col) (scan_word-From s s.pos s.line col))
                    (both P (is_ascii_digit c)
                      (λ i.
                        by (scan_number s s.pos s.line col) (scan_number-From s.pos s.line col s i))
                      (both P (ltb 0 symbol.width)
                        (λ i.
                          by (scan_symbol s s.pos s.line col symbol)
                            (scan_symbol-From s s.line col symbol (ground (arith, i))))
                        (by (unexpected s) (unexpected-From s)))))))))))

-- Where a run leaves: at the end of the text, or behind the error on too many tokens.
abbrev pub Scanned : Bytes → Tokenizer → Type 0
Scanned bytes t = (t.bytes ≡ bytes) × ((length bytes ≤ t.pos) ⊎ (token_limit < length t.tokens))

abbrev Live : Bytes → Tokenizer → Type 0
Live bytes s = (s.bytes ≡ bytes) × Ready s

run_round-Falls :
    (bytes : Bytes) (s : Tokenizer)
    → Live bytes s
    → Falls (Live bytes) (Scanned bytes) measure (measure s) (run_round s)
unfolding run_round at_end error error_at
run_round-Falls bytes s h =
    ground (arith, ap length h.0, scan_line_start-Shorter s, scan_token-Shorter s)

start-Live : (source : Source) (bag : DiagnosticBag) → Live source.bytes (tokenizer source bag)
unfolding tokenizer layout_active
start-Live source bag = (refl, inr (inr (refl, refl)))

-- The loop of `run` leaves with a result on every source: it comes to the end of the text or to the
-- limit on tokens, in the text that it began with.
pub run_round-Leaves :
    (source : Source) (bag : DiagnosticBag)
    → let s = tokenizer source bag in
      Leaves (Scanned source.bytes) (iterate (run_fuel s) run_round s)
unfolding tokenizer measure
run_round-Leaves source bag =
    let s = tokenizer source bag in
    iterate-Leaves (Live source.bytes) (Scanned source.bytes) measure run_round
      (run_round-Falls source.bytes) (run_fuel s) s (omega arith) (start-Live source bag)
