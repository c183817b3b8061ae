-- ===== src/Lex/Progress/Raw.antt =====
-- The loop over the lines of a raw suite moves forward and leaves with a result.
use luce_seed.Base.Loop.{Falls, Leaves, iterate, iterate-Leaves}
use luce_seed.Base.{
  ℕ, suc, ◌+◌, ◌-◌, ◌≤◌, ◌<◌, ◌≡◌, ◌⊎◌, inl, inr, refl, ap, ◌∙◌, arith, Bool, true, false, not,
  Bool-cases, List, [], ◌∷◌, Bytes, length, get_or, drop, get_or-drop, length-drop,
}
use luce_seed.Lex.Chars.{Delim}
use luce_seed.Lex.Layout.{
  end_raw_suite, leading_spaces, raw_line, raw_round, skip_to_newline, start_raw,
}
use luce_seed.Lex.Progress.Lines.{Stays, update_indentation-Stays}
use luce_seed.Lex.State.{
  Tokenizer, LayoutRegion, advance, advance_line, at_end, count_while, emit, error, error_at,
  is_newline, peek_byte, remaining, rounds,
}

-- The count stops at the end, or at a byte that fails the test.
count_while-stops :
    (p : ℕ → Bool) (xs : Bytes)
    → (count_while p xs ≡ length xs)
      ⊎ ((count_while p xs < length xs) × (p (get_or xs (count_while p xs) 0) ≡ false))
unfolding count_while
count_while-stops p [] = inl refl
count_while-stops p (x ∷ xs) = elim (Bool-cases (p x)) [
  | inl e ↦ elim (count_while-stops p xs) [
    | inl whole ↦ rw e (inl (omega (arith, whole)))
    | inr (inside, stops) ↦
        let s : count_while p xs + 1 ≡ suc (count_while p xs) = omega arith in
        rw e (rw s (inr (omega arith, stops)))
  ]
  | inr e ↦ rw e (inr (omega arith, e))
]

-- Behind the line stands a newline, or the end.
skip_to_newline-stops :
    (s : Tokenizer)
    → (length s.bytes ≤ (skip_to_newline s).pos)
      ⊎ (is_newline (get_or s.bytes (skip_to_newline s).pos 0) ≡ true)
unfolding skip_to_newline advance remaining
skip_to_newline-stops s =
    let p = λ (c : ℕ). not (is_newline c) in
    let n = count_while p (drop s.pos s.bytes) in
    elim (count_while-stops p (drop s.pos s.bytes)) [
      | inl whole ↦ inl (omega (arith, whole, length-drop s.pos s.bytes))
      | inr (inside, stops) ↦ inr (rw (← get_or-drop s.pos n s.bytes 0) (ground (arith, stops)))
    ]

-- What a line of a raw suite leaves as it is.
abbrev pub Raw : Bytes → ℕ → List Delim → List LayoutRegion → Tokenizer → Type 0
Raw bytes pos delimiters regions t =
    (t.bytes ≡ bytes)
    × (pos ≤ t.pos)
    × (t.raw_suite ≡ true)
    × (t.pending_layout ≡ true)
    × (t.delimiters ≡ delimiters)
    × (t.layout_regions ≡ regions)
    × ((t.pos ≡ t.line_start) ⊎ (length bytes ≤ t.pos))

skip_frame :
    (s : Tokenizer)
    → (s.pos ≤ (skip_to_newline s).pos) × ((skip_to_newline s).pos + 0 ≡ (skip_to_newline s).pos)
unfolding skip_to_newline advance
skip_frame s = omega arith

raw_line-moves :
    (s : Tokenizer)
    → s.pos < length s.bytes
    → s.pos ≤ s.line_start + s.indent_width
    → s.raw_suite ≡ true
    → s.pending_layout ≡ true
    → Raw s.bytes (suc s.pos) s.delimiters s.layout_regions (raw_line s)
unfolding raw_line emit advance_line at_end peek_byte skip_to_newline advance
raw_line-moves s0 inside ahead raw pending =
    let s = record s0 { pos = s0.line_start + s0.indent_width } in
    ground (arith, skip_to_newline-stops s, skip_frame s)

-- The loop leaves with the line start settled, at the end of the text, or with the raw suite given up
-- where a line begins.
abbrev pub GivenUp : List Delim → List LayoutRegion → Tokenizer → Type 0
GivenUp delimiters regions t =
    (t.raw_suite ≡ false)
    × (t.delimiters ≡ delimiters)
    × (t.layout_regions ≡ regions)
    × (t.pos ≡ t.line_start)

abbrev pub RawSettled : Bytes → ℕ → List Delim → List LayoutRegion → Tokenizer → Type 0
RawSettled bytes pos delimiters regions t =
    (t.bytes ≡ bytes)
    × (pos ≤ t.pos)
    × ((t.pending_layout ≡ false) ⊎ ((length bytes ≤ t.pos) ⊎ GivenUp delimiters regions t))

start_raw-frame :
    (s : Tokenizer) (content : ℕ)
    → (s.raw_started ≡ false)
    → (Stays s (start_raw s content)
        × ((start_raw s content).delimiters ≡ s.delimiters)
        × ((start_raw s content).layout_regions ≡ s.layout_regions)
        × ((start_raw s content).indent_width ≡ s.indent_width + 4))
unfolding start_raw emit
start_raw-frame s content h = ground arith

start_raw_started : (s : Tokenizer) (content : ℕ) → s.raw_started ≡ true → start_raw s content ≡ s
unfolding start_raw
start_raw_started s content h = ground arith

-- A line of the suite, at its first byte.
suite_line :
    (s : Tokenizer) (content : ℕ)
    → s.pos < length s.bytes
    → s.pos ≡ s.line_start
    → s.raw_suite ≡ true
    → s.pending_layout ≡ true
    → Raw s.bytes (suc s.pos) s.delimiters s.layout_regions (raw_line (start_raw s content))
suite_line s content inside at raw pending = elim (Bool-cases s.raw_started) [
  | inl started ↦
      rw (start_raw_started s content started) (raw_line-moves s inside (omega arith) raw pending)
  | inr fresh ↦
      let t = start_raw s content in
      let ((b, p, l, r, ls), d, g, w) = start_raw-frame s content fresh in
      let m =
        raw_line-moves t (omega (arith, p, ap length b)) (omega (arith, p, ls, at)) (r ∙ raw)
          (l ∙ pending) in
      (m.0 ∙ b, omega (arith, p), m.2, m.3, m.4 ∙ d, m.5 ∙ g, ground (arith, m, ap length b))
]

raw_round-Falls :
    (bytes : Bytes) (pos : ℕ) (delimiters : List Delim) (regions : List LayoutRegion)
    (s : Tokenizer)
    → Raw bytes pos delimiters regions s
    → Falls
        (Raw bytes pos delimiters regions)
        (RawSettled bytes pos delimiters regions)
        (λ t. length bytes - t.pos)
        (length bytes - s.pos)
        (raw_round s)
unfolding raw_round end_raw_suite advance_line at_end emit error error_at
raw_round-Falls bytes pos delimiters regions s h =
    let width = leading_spaces s in
    let content = s.pos + width in
    ground (
      arith,
      ap length h.0,
      update_indentation-Stays (record s { pos = content; raw_suite = false; raw_started = false })
          width,
      suite_line s content,
    )

-- In a raw suite whose line start is pending, at the first byte of a line or at the end of the text,
-- the loop of `scan_raw_line_start` leaves with a result: in the same text, no further back, with the
-- line start settled, the text at its end, or the raw suite given up where a line begins.
pub raw_round-Leaves :
    (s : Tokenizer)
    → Raw s.bytes s.pos s.delimiters s.layout_regions s
    → Leaves
        (RawSettled s.bytes s.pos s.delimiters s.layout_regions)
        (iterate (rounds s) raw_round s)
raw_round-Leaves s h =
    let b = s.bytes in
    iterate-Leaves (Raw b s.pos s.delimiters s.layout_regions)
      (RawSettled b s.pos s.delimiters s.layout_regions) (λ t. length b - t.pos) raw_round
      (raw_round-Falls b s.pos s.delimiters s.layout_regions) (rounds s) s (omega arith) h
