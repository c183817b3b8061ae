-- ===== src/Lex/Progress/Lines.antt =====
-- The layout pass moves forward, and each of its loops leaves with a result.
use luce_seed.Base.Loop.{next, Falls, Holds, Leaves, iterate, leave_inv}
use luce_seed.Base.{
  ℕ, zero, suc, ◌+◌, ◌-◌, ◌≤◌, ◌<◌, ◌≡◌, ◌==◌, ◌⊎◌, inl, inr, refl, ap, ◌∙◌, arith, Bool, true,
  false, ltb, Bool-cases, Bytes, length, get_or,
}
use luce_seed.Lex.Layout.{
  comment_line, comment_round, dedent_to, line_round, leading_spaces, note_close,
  require_multiline_field, scan_documentation, skip_comment, update_indentation,
}
use luce_seed.Lex.Progress.Core.{From, Goes, Goes-From, Goes-Leaves}
use luce_seed.Lex.State.{
  Tokenizer, advance, advance_line, at_end, emit, emit_at, error, error_at, is_newline, peek_byte,
  rounds,
}

-- What a change of the layout alone leaves as it is.
abbrev pub Stays : Tokenizer → Tokenizer → Type 0
Stays s t =
    (t.bytes ≡ s.bytes)
    × (t.pos ≡ s.pos)
    × (t.pending_layout ≡ s.pending_layout)
    × (t.raw_suite ≡ s.raw_suite)
    × (t.line_start ≡ s.line_start)

pub dedent_to-Stays : (fuel width : ℕ) (s : Tokenizer) → Stays s (dedent_to fuel width s)
unfolding dedent_to emit
dedent_to-Stays zero width s = (refl, refl, refl, refl, refl)
dedent_to-Stays (suc fuel) width s = elim (Bool-cases (ltb width s.indent_width)) [
  | inl more ↦ rw (more, dedent_to) (dedent_to-Stays fuel width _)
  | inr settled ↦ rw (settled, dedent_to) (refl, refl, refl, refl, refl)
]

pub update_indentation-Stays : (s : Tokenizer) (width : ℕ) → Stays s (update_indentation s width)
unfolding update_indentation emit error error_at
update_indentation-Stays s width = ground (arith, dedent_to-Stays s.indent_width width s)

comment_round-Goes : (s : Tokenizer) → Goes (λ t. t) (λ t. t) s (comment_round s)
unfolding comment_round note_close advance at_end
comment_round-Goes s = ground arith

pub comment-Leaves : (s : Tokenizer) → Leaves (From s s.pos) (iterate (rounds s) comment_round s)
comment-Leaves s =
    Goes-Leaves (λ t. t) (λ t. t) comment_round comment_round-Goes (rounds s) s (omega arith)

-- A comment loop keeps `raw_suite` too.
comment_round-raw :
    (raw : Bool) (s : Tokenizer)
    → s.raw_suite ≡ raw
    → Holds
        (λ (t : Tokenizer). t.raw_suite ≡ raw)
        (λ (t : Tokenizer). t.raw_suite ≡ raw)
        (comment_round s)
unfolding comment_round note_close advance
comment_round-raw raw s h = ground arith

skip_comment-raw : (s : Tokenizer) → (skip_comment s).raw_suite ≡ s.raw_suite
unfolding skip_comment
skip_comment-raw s =
    leave_inv (λ (t : Tokenizer). t.raw_suite ≡ s.raw_suite)
      (λ (t : Tokenizer). t.raw_suite ≡ s.raw_suite) comment_round (comment_round-raw s.raw_suite)
      (λ t. t) (λ t i. i) (rounds s) s refl

pub skip_comment-From : (s : Tokenizer) → From s s.pos (skip_comment s)
unfolding skip_comment
skip_comment-From s =
    Goes-From (λ t. t) (λ t. t) comment_round comment_round-Goes (λ t. t) (rounds s) s (omega arith)

first_step :
    (s : Tokenizer)
    → s.pos < length s.bytes
    → is_newline (peek_byte s 0) ≡ false
    → comment_round s ≡ next (advance (note_close s) 1)
unfolding comment_round at_end
first_step s inside h = ground arith

step_cursor :
    (s : Tokenizer)
    → From s (suc s.pos) (advance (note_close s) 1) × ((advance (note_close s) 1).pos ≡ suc s.pos)
unfolding note_close advance
step_cursor s = ground arith

-- At a byte that is no newline a comment takes that byte.
pub skip_comment-moves :
    (s : Tokenizer)
    → s.pos < length s.bytes
    → is_newline (peek_byte s 0) ≡ false
    → From s (suc s.pos) (skip_comment s)
unfolding skip_comment iterate
skip_comment-moves s inside h =
    rw (first_step s inside h, skip_comment, iterate)
      (let t = advance (note_close s) 1 in
        let (step, at) = step_cursor s in
        let f =
          Goes-From (λ t. t) (λ t. t) comment_round comment_round-Goes (λ t. t) (length s.bytes) t
            (omega (arith, ap length step.0)) in
        (f.0 ∙ step.0, omega arith, f.2 ∙ step.2))

scan_documentation-moves :
    (s : Tokenizer)
    → s.pos < length s.bytes
    → is_newline (peek_byte s 0) ≡ false
    → From s (suc s.pos) (scan_documentation s) × ((scan_documentation s).raw_suite ≡ s.raw_suite)
unfolding scan_documentation emit_at
scan_documentation-moves s inside h = (skip_comment-moves s inside h, skip_comment-raw s)

pub require_multiline_field-Stays : (s : Tokenizer) → Stays s (require_multiline_field s)
unfolding require_multiline_field error_at
require_multiline_field-Stays s = ground arith

-- The loop of `scan_line_start`, in a text and from a position; `raw` is the flag of a raw suite.
abbrev pub Lines : Bytes → ℕ → Bool → Tokenizer → Type 0
Lines bytes pos raw t = (t.bytes ≡ bytes) × (pos ≤ t.pos) × (t.raw_suite ≡ raw)

-- It leaves with the line start settled, or at the end of the text.
abbrev pub Settled : Bytes → ℕ → Bool → Tokenizer → Type 0
Settled bytes pos raw t =
    Lines bytes pos raw t × ((t.pending_layout ≡ false) ⊎ (length bytes ≤ t.pos))

pub hash_is_text :
    (s : Tokenizer)
    → s.pos < length s.bytes
    → (get_or s.bytes s.pos 0 == b'#') ≡ true
    → is_newline (peek_byte s 0) ≡ false
unfolding is_newline peek_byte
hash_is_text s inside h =
    let e : s.pos + 0 ≡ s.pos = omega arith in rw (e, peek_byte, is_newline) (ground arith)

comment_line-moves :
    (s : Tokenizer) (width : ℕ)
    → s.pos < length s.bytes
    → (get_or s.bytes s.pos 0 == b'#') ≡ true
    → Lines s.bytes (suc s.pos) s.raw_suite (comment_line s width)
unfolding comment_line
comment_line-moves s width inside h =
    let placed = update_indentation s width in
    let stays = update_indentation-Stays s width in
    let inside' : placed.pos < length placed.bytes = omega (arith, stays.1, ap length stays.0) in
    let h' : (get_or placed.bytes placed.pos 0 == b'#') ≡ true = rw (stays.0, stays.1) h in
    let doc = scan_documentation-moves placed inside' (hash_is_text placed inside' h') in
    let plain = skip_comment-moves s inside (hash_is_text s inside h) in
    ground (arith, stays, doc, plain, skip_comment-raw s)

pub line_round-Falls :
    (bytes : Bytes) (pos : ℕ) (raw : Bool) (s : Tokenizer)
    → Lines bytes pos raw s
    → Falls
        (Lines bytes pos raw)
        (Settled bytes pos raw)
        (λ t. length bytes - t.pos)
        (length bytes - s.pos)
        (line_round s)
unfolding line_round advance_line at_end
line_round-Falls bytes pos raw s h =
    let width = leading_spaces s in
    let moved = record s { pos = s.pos + width } in
    ground
      (arith, ap length h.0, update_indentation-Stays moved width, comment_line-moves moved width)
