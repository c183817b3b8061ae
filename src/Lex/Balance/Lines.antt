-- ===== src/Lex/Balance/Lines.antt =====
-- The layout pass keeps the invariant.
use luce_seed.Base.Loop.{Holds, leave_inv}
use luce_seed.Base.{
  ℕ, zero, suc, ◌+◌, ◌-◌, false, ◌≡◌, refl, arith, ltb, inl, inr, Bool-cases, List, [], ◌∷◌,
}
use luce_seed.Lex.Balance.Core.{
  Inv, is_plain, emit-Inv, emit_at-Inv, emit_dedent-Inv, emit_indent-Inv,
}
use luce_seed.Lex.Layout.{
  close_delimiter, close_line, close_region, comment_line, comment_round, dedent_to, end_raw_suite,
  finish_layout_region, line_round, leading_spaces, note_close, raw_line, raw_round,
  require_multiline_field, scan_documentation, scan_line_start, scan_raw_line_start, skip_comment,
  skip_to_newline, start_raw, update_indentation,
}
use luce_seed.Lex.State.{
  Tokenizer, LayoutRegion, rounds, advance, advance_line, emit, error, error_at,
}
use luce_seed.Lex.Token.{TokenKind}

pub dedent_to-Inv : (fuel width : ℕ) (s : Tokenizer) → Inv s → Inv (dedent_to fuel width s)
unfolding dedent_to
dedent_to-Inv zero width s h = h
dedent_to-Inv (suc fuel) width s h = elim (Bool-cases (ltb width s.indent_width)) [
  | inl more ↦
      let four : s.indent_width - 4 + 4 ≡ s.indent_width = ground (arith, h.columns, more) in
      let closed = emit_dedent-Inv s (s.indent_width - 4) s.pos s.pos four h in
      rw (more, dedent_to) (dedent_to-Inv fuel width _ closed)
  | inr settled ↦ rw (settled, dedent_to) h
]

pub update_indentation-Inv : (s : Tokenizer) (width : ℕ) → Inv s → Inv (update_indentation s width)
unfolding update_indentation error error_at
update_indentation-Inv s width h = ground (
  arith,
  dedent_to-Inv s.indent_width width s h,
  λ (e : width ≡ s.indent_width + 4). emit_indent-Inv s width s.pos s.pos e h,
)

comment_round-Inv : (s : Tokenizer) → Inv s → Holds Inv Inv (comment_round s)
unfolding comment_round note_close advance
comment_round-Inv s h = ground arith

pub skip_comment-Inv : (s : Tokenizer) → Inv s → Inv (skip_comment s)
unfolding skip_comment
skip_comment-Inv s h = leave_inv Inv Inv _ comment_round-Inv (λ t. t) (λ t i. i) _ _ h

scan_documentation-Inv : (s : Tokenizer) → Inv s → Inv (scan_documentation s)
unfolding scan_documentation
scan_documentation-Inv s h =
    emit_at-Inv _ _ _ _ _ _ _ (unfold is_plain in refl) (skip_comment-Inv s h)

pub require_multiline_field-Inv : (s : Tokenizer) → Inv s → Inv (require_multiline_field s)
unfolding require_multiline_field error_at
require_multiline_field-Inv s h = ground arith

raw_line-Inv : (s : Tokenizer) → Inv s → Inv (raw_line s)
unfolding raw_line skip_to_newline advance advance_line
raw_line-Inv s0 h =
    let s = record s0 { pos = s0.line_start + s0.indent_width } in
    let read = skip_to_newline s in
    let kept : Inv (emit read TokenKind.raw_line s.pos read.pos) =
      emit-Inv read TokenKind.raw_line s.pos read.pos (unfold is_plain in refl) h in
    ground (arith, kept)

start_raw-Inv : (s : Tokenizer) (content : ℕ) → Inv s → Inv (start_raw s content)
unfolding start_raw
start_raw-Inv s content h =
    ground (arith, emit_indent-Inv s (s.indent_width + 4) content content refl h)

raw_round-Inv : (s : Tokenizer) → Inv s → Holds Inv Inv (raw_round s)
unfolding raw_round end_raw_suite advance_line error error_at
raw_round-Inv s h =
    let width = leading_spaces s in
    let content = s.pos + width in
    ground (
      arith,
      emit-Inv s TokenKind.raw_line content content (unfold is_plain in refl) h,
      update_indentation-Inv (record s { pos = content; raw_suite = false; raw_started = false })
          width h,
      update_indentation-Inv (record s { pos = content }) width h,
      raw_line-Inv (start_raw s content) (start_raw-Inv s content h),
    )

scan_raw_line_start-Inv : (s : Tokenizer) → Inv s → Inv (scan_raw_line_start s)
unfolding scan_raw_line_start
scan_raw_line_start-Inv s h = leave_inv Inv Inv _ raw_round-Inv (λ t. t) (λ t i. i) _ _ h

line_round-Inv : (s : Tokenizer) → Inv s → Holds Inv Inv (line_round s)
unfolding line_round comment_line advance_line
line_round-Inv s h =
    let width = leading_spaces s in
    let moved = record s { pos = s.pos + width } in
    let placed = update_indentation moved width in
    let kept : Inv placed = update_indentation-Inv moved width h in
    let skipped : Inv (skip_comment moved) = skip_comment-Inv moved h in
    ground (arith, kept, skipped, scan_documentation-Inv placed kept)

pub scan_line_start-Inv : (s : Tokenizer) → Inv s → Inv (scan_line_start s)
unfolding scan_line_start
scan_line_start-Inv s h =
    let lines = leave_inv Inv Inv _ line_round-Inv (λ t. t) (λ t i. i) (rounds s) s h in
    ground (arith, lines, scan_raw_line_start-Inv s h)

close_line-Inv : (s : Tokenizer) → Inv s → Inv (close_line s)
unfolding close_line
close_line-Inv s h =
    ground (arith, emit-Inv s TokenKind.newline s.pos s.pos (unfold is_plain in refl) h)

close_region-Inv :
    (s : Tokenizer) (region : LayoutRegion) (outer : List LayoutRegion)
    → Inv s
    → Inv (close_region s region outer)
unfolding close_region
close_region-Inv s region outer h =
    ground (arith, dedent_to-Inv s.indent_width region.base (close_line s) (close_line-Inv s h))

pub finish_layout_region-Inv : (s : Tokenizer) → Inv s → Inv (finish_layout_region s)
unfolding finish_layout_region
finish_layout_region-Inv s h = split s.layout_regions
  where
    split :
        (regions : List LayoutRegion)
        → Inv (elim regions [ [] ↦ s | region ∷ outer ↦ close_region s region outer ])
    split [] = h
    split (region ∷ outer) = close_region-Inv s region outer h

pub close_delimiter-Inv :
    (s : Tokenizer) (closing col at : ℕ) → Inv s → Inv (close_delimiter s closing col at).0
unfolding close_delimiter error_at
close_delimiter-Inv s closing col at h = ground arith
