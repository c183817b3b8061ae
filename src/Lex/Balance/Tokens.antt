-- ===== src/Lex/Balance/Tokens.antt =====
-- The whole run keeps the invariant, and what that says of its tokens.
use luce_seed.Base.Loop.{Holds, leave_inv}
use luce_seed.Base.{
  ℕ, zero, suc, ◌+◌, ◌≤◌, Bool, true, false, ◌≡◌, refl, ap, ◌∙◌, arith, ltb, ◌==◌, inl, inr,
  Bool-cases, if◌then◌else◌, List, [], ◌∷◌, ◌++◌, take, get_or,
}
use luce_seed.Lex.Balance.Core.{
  Balanced, Inv, IsPlain, is_plain, opens, closes, ends, tally, advance-Inv, emit-Inv, emit_at-Inv,
}
use luce_seed.Lex.Balance.Kinds.{keyword_kind-IsPlain, match_symbol-IsFound}
use luce_seed.Lex.Balance.Lines.{
  close_delimiter-Inv, dedent_to-Inv, finish_layout_region-Inv, require_multiline_field-Inv,
  scan_line_start-Inv, skip_comment-Inv,
}
use luce_seed.Lex.Balance.Scanners.{
  scan_character-Inv, scan_formatted_text-Inv, scan_number-Inv, scan_string_literal-Inv,
}
use luce_seed.Lex.Balance.Order.{prefix_nested, tally-reverse, tally-append, take-concat}
use luce_seed.Lex.Chars.{is_ident_continue}
use luce_seed.Lex.Keyword.{keyword_kind}
use luce_seed.Lex.Layout.{dedent_to, finish_layout_region, require_multiline_field}
use luce_seed.Lex.Run.{
  apply_symbol, check_length, emit_symbol, note_asm, end_line, finish, needs_newline, open_suite,
  report_open, run, run_round, scan_newline, scan_symbol, scan_token, scan_word, tokenize,
  unexpected,
}
use luce_seed.Lex.State.{
  Tokenizer, advance, advance_line, column, count_while, remaining, emit, error, error_at,
  peek_byte, slice, tokenizer,
}
use luce_seed.Lex.Symbol.{SymbolMatch, match_symbol}
use luce_seed.Lex.Token.{Token, TokenKind}
use luce_seed.Source.Types.{Source}
use luce_seed.Support.Diagnostics.{DiagnosticBag}
use mathlib.Core.List.{reverse, reverse-cons}

check_length-Inv : (s : Tokenizer) (start : ℕ) → Inv s → Inv (check_length s start)
unfolding check_length error error_at
check_length-Inv s start h = ground arith

note_asm-Inv : (kind : TokenKind) (s : Tokenizer) → Inv s → Inv (note_asm kind s)
unfolding note_asm
note_asm-Inv TokenKind.kw_asm s h = h
note_asm-Inv _ s h = h

scan_word-Inv : (s : Tokenizer) (start line col : ℕ) → Inv s → Inv (scan_word s start line col)
unfolding scan_word
scan_word-Inv s start line col h =
    let opened = advance s 1 in
    let t = advance opened (count_while is_ident_continue (remaining opened)) in
    let word = slice t start t.pos in
    let kept : Inv t = advance-Inv opened (advance-Inv s h 1) _ in
    let noted =
      note_asm-Inv (keyword_kind word) (check_length t start) (check_length-Inv t start kept) in
    emit_at-Inv (note_asm (keyword_kind word) (check_length t start)) (keyword_kind word) start
      t.pos line col [] (keyword_kind-IsPlain word) noted

open_suite-Inv : (s : Tokenizer) → Inv s → Inv (open_suite s)
unfolding open_suite
open_suite-Inv s h = ground arith

apply_symbol-Inv : (s : Tokenizer) (ch start col : ℕ) → Inv s → Inv (apply_symbol s ch start col).0
unfolding apply_symbol
apply_symbol-Inv s ch start col h = ground (
  arith,
  open_suite-Inv s h,
  close_delimiter-Inv (finish_layout_region s) ch col start (finish_layout_region-Inv s h),
)

emit_symbol-Inv :
    (r : Tokenizer × Bool) (kind : TokenKind) (start line col : ℕ)
    → IsPlain kind
    → Inv r.0
    → Inv (emit_symbol r kind start line col)
unfolding emit_symbol
emit_symbol-Inv (t, true) kind start line col p h =
    scan_formatted_text-Inv _ (emit_at-Inv t kind start t.pos line col [] p h)
emit_symbol-Inv (t, false) kind start line col p h = emit_at-Inv t kind start t.pos line col [] p h

scan_symbol-Inv :
    (s : Tokenizer) (start line col : ℕ) (symbol : SymbolMatch)
    → IsPlain symbol.kind
    → Inv s
    → Inv (scan_symbol s start line col symbol)
unfolding scan_symbol
scan_symbol-Inv s0 start line col symbol p h =
    let s = record s0 { pos = start + symbol.width } in
    let ch = get_or s0.bytes start 0 in
    let one = apply_symbol-Inv s ch start col h in
    elim (Bool-cases (symbol.width == 1)) [
      | inl e ↦
          rw (e, scan_symbol)
            (emit_symbol-Inv (apply_symbol s ch start col) symbol.kind start line col p one)
      | inr e ↦ rw (e, scan_symbol) (emit_symbol-Inv (s, false) symbol.kind start line col p h)
    ]

unexpected-Inv : (s : Tokenizer) → Inv s → Inv (unexpected s)
unfolding unexpected advance error error_at
unexpected-Inv s h = ground arith

scan_newline-Inv : (s : Tokenizer) → Inv s → Inv (scan_newline s)
unfolding scan_newline advance_line
scan_newline-Inv s h =
    let t = require_multiline_field s in
    let kept = require_multiline_field-Inv s h in
    let emitted : Inv (emit t TokenKind.newline t.pos t.pos) =
      emit-Inv t TokenKind.newline t.pos t.pos (unfold is_plain in refl) kept in
    ground (arith, kept, emitted)

scan_token-Inv : (s : Tokenizer) → Inv s → Inv (scan_token s)
unfolding scan_token
scan_token-Inv s h =
    let col = column s in
    let symbol = match_symbol s.bytes s.pos in
    let moved : Inv (advance s 1) = advance-Inv s h 1 in
    let t = advance s 1 in
    ground (
      arith,
      moved,
      skip_comment-Inv (require_multiline_field s) (require_multiline_field-Inv s h),
      scan_newline-Inv s h,
      scan_string_literal-Inv s s.pos s.line col (peek_byte s 0) h,
      scan_string_literal-Inv s s.pos s.line col 0 h,
      scan_character-Inv s s.pos s.line col h,
      emit_at-Inv t TokenKind.underscore s.pos t.pos s.line col [] (unfold is_plain in refl) moved,
      scan_word-Inv s s.pos s.line col h,
      scan_number-Inv s.pos s.line col s h,
      match_symbol-IsFound s.bytes s.pos,
      λ (p : IsPlain symbol.kind). scan_symbol-Inv s s.pos s.line col symbol p h,
      unexpected-Inv s h,
    )

report_open-Inv : (s : Tokenizer) → Inv s → Inv (report_open s)
unfolding report_open error error_at
report_open-Inv s h = ground arith

end_line-Inv : (s : Tokenizer) → Inv s → Inv (end_line s)
unfolding end_line
end_line-Inv s h = split s.tokens
  where
    kept : Inv (emit s TokenKind.newline s.pos s.pos)
    kept = emit-Inv s TokenKind.newline s.pos s.pos (unfold is_plain in refl) h

    split :
        (tokens : List Token)
        → Inv (elim tokens [
          | [] ↦ s
          | last ∷ older ↦
              if needs_newline last.kind then emit s TokenKind.newline s.pos s.pos else s
        ])
    split [] = h
    split (last ∷ older) = ground (arith, kept, h)

-- With as much fuel as columns the dedents reach the width.
dedent_to-reaches :
    (fuel width : ℕ) (s : Tokenizer)
    → s.indent_width ≤ fuel
    → (dedent_to fuel width s).indent_width ≤ width
unfolding dedent_to emit
dedent_to-reaches zero width s h = omega arith
dedent_to-reaches (suc fuel) width s h = elim (Bool-cases (ltb width s.indent_width)) [
  | inl more ↦ rw (more, dedent_to) (dedent_to-reaches fuel width _ (ground (arith, more)))
  | inr settled ↦ rw (settled, dedent_to) (ground (arith, settled))
]

-- The tokens of a whole run, newest first: the end of the text behind balanced layout tokens.
record IsWhole (tokens : List Token) : Type 0 where
  older : List Token
  last : Token
  splits : tokens ≡ last ∷ older
  is_end : last.kind ≡ TokenKind.end_of_file
  closed : Balanced 0 older

finish-IsWhole : (s : Tokenizer) → Inv s → IsWhole (finish s).tokens
unfolding finish emit
finish-IsWhole s h =
    let t = end_line (report_open s) in
    let kept = end_line-Inv (report_open s) (report_open-Inv s h) in
    let u = dedent_to t.indent_width 0 t in
    let zero_width : u.indent_width ≡ 0 =
      omega (arith, dedent_to-reaches t.indent_width 0 t (omega arith)) in
    record {
      older = u.tokens;
      last = _;
      splits = refl;
      is_end = refl;
      closed = rw zero_width at (dedent_to-Inv t.indent_width 0 t kept);
    }

run_round-Inv : (s : Tokenizer) → Inv s → Holds Inv Inv (run_round s)
unfolding run_round error error_at
run_round-Inv s h = ground (arith, scan_line_start-Inv s h, scan_token-Inv s h)

empty-Balanced : Balanced 0 []
empty-Balanced = record { columns = refl; nested = tt; unfinished = refl }

tokenizer-Inv : (source : Source) (bag : DiagnosticBag) → Inv (tokenizer source bag)
unfolding tokenizer
tokenizer-Inv source bag = empty-Balanced

run-IsWhole : (source : Source) (bag : DiagnosticBag) → IsWhole (run (tokenizer source bag)).tokens
unfolding run finish tokenizer
run-IsWhole source bag = elim (Bool-cases source.is_ok) [
  | inl fine ↦
      rw (fine, run, tokenizer)
        (finish-IsWhole _ (
          leave_inv Inv Inv run_round run_round-Inv (λ t. t) (λ t i. i) _ _
            (tokenizer-Inv source bag)))
  | inr bad ↦
      rw (bad, run, tokenizer)
        (unfold emit in
          record { older = []; last = _; splits = refl; is_end = refl; closed = empty-Balanced })
]

-- A token list as the parser needs it.
pub record IsLayout (tokens : List Token) : Type 0 where
  pub front : List Token
  pub last : Token
  pub splits : tokens ≡ front ++ last ∷ []
  pub is_end : last.kind ≡ TokenKind.end_of_file
  pub only_end : tally ends front ≡ 0
  pub balanced : tally closes tokens ≡ tally opens tokens
  pub nested : (n : ℕ) → tally closes (take n tokens) ≤ tally opens (take n tokens)

-- Every text gives a token list that ends with its only end-of-file token, holds as many dedents as
-- indents, and has in no front part more dedents than indents, whatever errors the text has.
pub tokenize-IsLayout : (source : Source) (bag : DiagnosticBag) → IsLayout (tokenize source bag).0
unfolding tokenize
tokenize-IsLayout source bag =
    let w = run-IsWhole source bag in
    let e : reverse (run (tokenizer source bag)).tokens ≡ reverse w.older ++ w.last ∷ [] =
      ap reverse w.splits ∙ reverse-cons w.last w.older in
    let opened = tally-append opens (reverse w.older) (w.last ∷ []) in
    let closed = tally-append closes (reverse w.older) (w.last ∷ []) in
    let even : tally closes (reverse w.older ++ w.last ∷ [])
        ≡ tally opens (reverse w.older ++ w.last ∷ []) =
      omega (
        arith,
        opened,
        closed,
        tally-reverse opens w.older,
        tally-reverse closes w.older,
        w.closed.columns,
        ap opens w.is_end,
        ap closes w.is_end,
      ) in
    record {
      front = reverse w.older;
      last = w.last;
      splits = e;
      is_end = w.is_end;
      only_end = tally-reverse ends w.older ∙ w.closed.unfinished;
      balanced = rw e even;
      nested = λ n. rw e (elim (take-concat n (reverse w.older) w.last) [
        | inl short ↦ rw short (prefix_nested w.older n w.closed.nested)
        | inr long ↦ rw long (omega (arith, even))
      ]);
    }
