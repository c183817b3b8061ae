-- ===== src/Lex/Progress/Scanners.antt =====
-- The scanners of literals move forward, and each of their loops leaves with a result.
use luce_seed.Base.Loop.{next, Leaves, iterate, leave}
use luce_seed.Base.{
  ℕ, suc, ◌<◌, ◌≡◌, ◌==◌, ◌||◌, refl, arith, Bool, true, false, if◌then◌else◌, List, [], ◌∷◌,
  length,
}
use luce_seed.Lex.Escape.{scan_escape, refuse_escape, unicode_escape, byte_escape}
use luce_seed.Lex.Chars.{is_ascii_digit, is_digit_for_base, is_hex_digit}
use luce_seed.Lex.Literal.{
  TextStart, body_round, body_scalar, character_round, close_format, emit_text, format_literal,
  open_field, plain_literal, quote_width, triple_quote, scan_character, scan_formatted_text,
  scan_string_body, scan_string_literal, text_round,
}
use luce_seed.Lex.Number.{
  Digits, digit_round, finish_based, finish_decimal, scan_digit_sequence, scan_exponent,
  scan_fraction, scan_number, scan_numeric_suffix,
}
use luce_seed.Lex.Progress.Core.{From, From-trans, Goes, Goes-From, Goes-Leaves, utf8_next-HasWidth}
use luce_seed.Lex.State.{
  Tokenizer, FormattedMode, at_end, column, rounds, starts_with, peek_byte, advance, advance_line,
  emit_at, error, error_at,
}

scan_escape-From :
    (s : Tokenizer) (byte_mode : Bool) → From s (suc s.pos) (scan_escape s byte_mode).0
unfolding scan_escape refuse_escape unicode_escape byte_escape advance error_at
scan_escape-From s byte_mode = ground arith

body_scalar-Goes :
    (byte_mode : Bool) (s : Tokenizer)
    → s.pos < length s.bytes
    → Goes (λ t. t) (λ (r : Tokenizer × Bool). r.0) s (body_scalar byte_mode s)
unfolding body_scalar advance error error_at
body_scalar-Goes byte_mode s h = ground (arith, utf8_next-HasWidth s.bytes s.pos)

body_round-Goes :
    (is_raw byte_mode is_triple : Bool) (line column : ℕ) (s : Tokenizer)
    → Goes
        (λ t. t)
        (λ (r : Tokenizer × Bool). r.0)
        s
        (body_round is_raw byte_mode is_triple line column s)
unfolding body_round advance advance_line error_at at_end
body_round-Goes is_raw byte_mode is_triple line column s =
    ground (arith, scan_escape-From s byte_mode, body_scalar-Goes byte_mode s)

-- The loop of `scan_string_body` leaves with a result from every state: in the same text, no further
-- back, and with the pending line start as it was.
pub scan_string_body-Leaves :
    (s : Tokenizer) (is_raw byte_mode is_triple : Bool) (line column : ℕ)
    → Leaves
        (λ (r : Tokenizer × Bool). From s s.pos r.0)
        (iterate (rounds s) (body_round is_raw byte_mode is_triple line column) s)
scan_string_body-Leaves s is_raw byte_mode is_triple line column =
    Goes-Leaves (λ t. t) (λ (r : Tokenizer × Bool). r.0)
      (body_round is_raw byte_mode is_triple line column)
      (body_round-Goes is_raw byte_mode is_triple line column) (rounds s) s (omega arith)

pub scan_string_body-From :
    (s : Tokenizer) (prefix line column : ℕ)
    → From s (suc s.pos) (scan_string_body s prefix line column).0
unfolding scan_string_body advance
scan_string_body-From s prefix line column =
    let opened = advance s (quote_width (starts_with s triple_quote)) in
    let f =
      Goes-From (λ t. t) (λ (r : Tokenizer × Bool). r.0) _
        (body_round-Goes (prefix == b'r') (prefix == b'b') (starts_with s triple_quote) line column)
        (λ t. (t, false)) (rounds s) opened (omega arith) in
    (f.0, ground (arith, f.1), f.2)

text_round-Goes :
    (mode : FormattedMode) (from : TextStart) (s : Tokenizer)
    → Goes (λ t. t) (λ t. t) s (text_round mode from s)
unfolding text_round close_format open_field emit_text emit_at advance advance_line error_at at_end
text_round-Goes mode from s =
    ground (arith, scan_escape-From s false, utf8_next-HasWidth s.bytes s.pos)

-- The loop of `scan_formatted_text` leaves with a result from every state: in the same text, no further
-- back, and with the pending line start as it was.
pub text_round-Leaves :
    (mode : FormattedMode) (from : TextStart) (s : Tokenizer)
    → Leaves (From s s.pos) (iterate (rounds s) (text_round mode from) s)
text_round-Leaves mode from s =
    Goes-Leaves (λ t. t) (λ t. t) (text_round mode from) (text_round-Goes mode from) (rounds s) s
      (omega arith)

pub scan_formatted_text-From : (s : Tokenizer) → From s s.pos (scan_formatted_text s)
unfolding scan_formatted_text
scan_formatted_text-From s = split s.formatted
  where
    split :
        (modes : List FormattedMode)
        → From s s.pos (elim modes [
          | [] ↦ s
          | mode ∷ outer ↦
              let from : TextStart = record {
                start = s.pos;
                start_line = s.line;
                start_column = column s;
              } in
              leave (λ t. t) (iterate (rounds s) (text_round mode from) s)
        ])
    split [] = (refl, omega arith, refl)
    split (mode ∷ outer) =
        Goes-From (λ t. t) (λ t. t) _ (text_round-Goes mode _) (λ t. t) (rounds s) s (omega arith)

character_round-Goes :
    (start line column : ℕ) (r : Tokenizer × ℕ)
    → Goes (λ (r : Tokenizer × ℕ). r.0) (λ t. t) r.0 (character_round start line column r)
unfolding character_round emit_at advance error error_at at_end
character_round-Goes start line column (s, scalars) =
    ground (arith, scan_escape-From s false, utf8_next-HasWidth s.bytes s.pos)

-- The loop of `scan_character` leaves with a result from every state: in the same text, no further
-- back, and with the pending line start as it was.
pub character_round-Leaves :
    (s : Tokenizer) (start line column scalars : ℕ)
    → Leaves (From s s.pos) (iterate (rounds s) (character_round start line column) (s, scalars))
character_round-Leaves s start line column scalars =
    Goes-Leaves (λ (r : Tokenizer × ℕ). r.0) (λ t. t) (character_round start line column)
      (character_round-Goes start line column) (rounds s) (s, scalars) (omega arith)

pub scan_character-From :
    (s : Tokenizer) (start line column : ℕ)
    → From s (suc s.pos) (scan_character s start line column)
unfolding scan_character advance
scan_character-From s start line column =
    let f =
      Goes-From (λ (r : Tokenizer × ℕ). r.0) (λ t. t) _ (character_round-Goes start line column)
        (λ t. t.0) (rounds s) (advance s 1, 0) (omega arith) in
    (f.0, omega (arith, f.1), f.2)

format_literal-From :
    (s : Tokenizer) (start line column : ℕ)
    → From s (suc s.pos) (format_literal s start line column)
unfolding format_literal advance emit_at
format_literal-From s start line column =
    let f = scan_formatted_text-From _ in (f.0, ground (arith, f.1), f.2)

plain_literal-From :
    (s : Tokenizer) (start line column prefix : ℕ)
    → From s (suc s.pos) (plain_literal s start line column prefix)
unfolding plain_literal emit_at
plain_literal-From s start line column prefix =
    ground (arith, scan_string_body-From s prefix line column)

pub scan_string_literal-From :
    (s : Tokenizer) (start line column prefix : ℕ)
    → From s (suc s.pos) (scan_string_literal s start line column prefix)
unfolding scan_string_literal advance
scan_string_literal-From s start line column prefix =
    let t = advance s 1 in
    let behind : From s (suc s.pos) (format_literal t start line column) =
      let f = format_literal-From t start line column in (f.0, omega (arith, f.1), f.2) in
    let read : From s (suc s.pos) (plain_literal t start line column prefix) =
      let f = plain_literal-From t start line column prefix in (f.0, omega (arith, f.1), f.2) in
    ground (
      arith,
      behind,
      read,
      format_literal-From s start line column,
      plain_literal-From s start line column prefix,
    )

digit_round-Goes :
    (base column pos : ℕ) (d : Digits)
    → Goes
        (λ (d : Digits). d.state)
        (λ (r : Tokenizer × Bool). r.0)
        d.state
        (digit_round base column pos d)
unfolding digit_round advance error error_at peek_byte is_digit_for_base is_hex_digit
digit_round-Goes base column pos d = ground arith

-- The loop of `scan_digit_sequence` leaves with a result from every state: in the same text, no further
-- back, and with the pending line start as it was.
pub digit_round-Leaves :
    (base column pos : ℕ) (d : Digits)
    → Leaves
        (λ (r : Tokenizer × Bool). From d.state d.state.pos r.0)
        (iterate (rounds d.state) (digit_round base column pos) d)
digit_round-Leaves base column pos d =
    Goes-Leaves (λ (d : Digits). d.state) (λ (r : Tokenizer × Bool). r.0)
      (digit_round base column pos) (digit_round-Goes base column pos) (rounds d.state) d
      (omega arith)

scan_digit_sequence-From : (s : Tokenizer) (base : ℕ) → From s s.pos (scan_digit_sequence s base).0
unfolding scan_digit_sequence
scan_digit_sequence-From s base =
    Goes-From (λ (d : Digits). d.state) (λ (r : Tokenizer × Bool). r.0) _
      (digit_round-Goes base _ _) (λ d. (d.state, false)) (rounds s) _ (omega arith)

abbrev at_digit : Tokenizer → Digits
at_digit s = record { state = advance s 1; has_digit = true; after_separator = false }

first_round :
    (s : Tokenizer) (column pos : ℕ)
    → is_ascii_digit (peek_byte s 0) ≡ true
    → digit_round b'd' column pos (record { state = s; has_digit = false; after_separator = false })
      ≡ next (at_digit s)
unfolding digit_round is_digit_for_base
first_round s column pos h = ground arith

digit_inside : (s : Tokenizer) → is_ascii_digit (peek_byte s 0) ≡ true → s.pos < length s.bytes
unfolding is_ascii_digit peek_byte
digit_inside s h = ground arith

-- A sequence that begins with a digit takes that digit.
first_digit :
    (s : Tokenizer)
    → is_ascii_digit (peek_byte s 0) ≡ true
    → From s (suc s.pos) (scan_digit_sequence s b'd').0
unfolding scan_digit_sequence iterate advance
first_digit s h =
    rw (first_round s (column s) s.pos h, scan_digit_sequence, iterate)
      (let f =
          Goes-From (λ (d : Digits). d.state) (λ (r : Tokenizer × Bool). r.0) _
            (digit_round-Goes b'd' (column s) s.pos) (λ d. (d.state, false)) (length s.bytes)
            (at_digit s) (omega (arith, digit_inside s h)) in
        (f.0, omega (arith, f.1), f.2))

scan_numeric_suffix-From : (s : Tokenizer) → From s s.pos (scan_numeric_suffix s).0
unfolding scan_numeric_suffix advance
scan_numeric_suffix-From s = ground arith

module _ (start line column : ℕ) where
  finish_based-From : (s : Tokenizer) → From s s.pos (finish_based s start line column)
  unfolding finish_based error error_at emit_at
  finish_based-From s = ground (arith, scan_numeric_suffix-From s)

  finish_decimal-From :
      (is_float : Bool) (s : Tokenizer) → From s s.pos (finish_decimal is_float s start line column)
  unfolding finish_decimal error_at emit_at
  finish_decimal-From is_float s = ground (arith, scan_numeric_suffix-From s)

  scan_exponent-From :
      (is_float : Bool) (s : Tokenizer) → From s s.pos (scan_exponent is_float s start line column)
  unfolding scan_exponent advance
  scan_exponent-From is_float s =
      let e = advance s 1 in
      let signed = if peek_byte e 0 == b'+' || peek_byte e 0 == b'-' then advance e 1 else e in
      let ahead : From s s.pos signed = ground arith in
      let t = (scan_digit_sequence signed b'd').0 in
      let read = From-trans s signed t ahead (scan_digit_sequence-From signed b'd') in
      let over =
        From-trans s t (finish_decimal true t start line column) read
          (finish_decimal-From true t) in
      ground (arith, read, over, finish_decimal-From is_float s)

  scan_fraction-From : (s : Tokenizer) → From s s.pos (scan_fraction s start line column)
  unfolding scan_fraction advance
  scan_fraction-From s =
      let ahead : From s s.pos (advance s 1) = (refl, omega arith, refl) in
      let t = (scan_digit_sequence (advance s 1) b'd').0 in
      let read = From-trans s (advance s 1) t ahead (scan_digit_sequence-From (advance s 1) b'd') in
      let over =
        From-trans s t (scan_exponent true t start line column) read (scan_exponent-From true t) in
      ground (arith, read, over, scan_exponent-From false s)

  -- A number takes a byte at least.
  pub scan_number-From :
      (s : Tokenizer)
      → is_ascii_digit (peek_byte s 0) ≡ true
      → From s (suc s.pos) (scan_number s start line column)
  unfolding scan_number advance error_at
  scan_number-From s h =
      let base = peek_byte s 1 in
      let two = advance s 2 in
      let ahead : From s (suc s.pos) two = (refl, omega arith, refl) in
      let based = (scan_digit_sequence two base).0 in
      let read = From-trans s two based ahead (scan_digit_sequence-From two base) in
      let over =
        From-trans s based (finish_based based start line column) read (finish_based-From based) in
      let decimal = (scan_digit_sequence s b'd').0 in
      let digits = first_digit s h in
      let whole =
        From-trans s decimal (scan_fraction decimal start line column) digits
          (scan_fraction-From decimal) in
      ground (arith, read, over, digits, whole)
