-- ===== src/Lex/Balance/Scanners.antt =====
-- The scanners of literals and words keep the invariant.
use luce_seed.Base.Loop.{Holds, iterate, leave, leave_inv}
use luce_seed.Base.{
  ℕ, ◌+◌, Bool, true, false, ◌==◌, ◌||◌, refl, arith, if◌then◌else◌, List, [], ◌∷◌,
}
use luce_seed.Lex.Balance.Core.{Inv, IsPlain, is_plain, advance-Inv, emit_at-Inv, error_at-Inv}
use luce_seed.Lex.Escape.{scan_escape, refuse_escape, unicode_escape, byte_escape}
use luce_seed.Lex.Literal.{
  TextStart, body_round, body_scalar, character_round, close_format, emit_text, format_literal,
  open_field, plain_literal, scan_character, scan_formatted_text, scan_string_body,
  scan_string_literal, text_round,
}
use luce_seed.Lex.Number.{
  Digits, digit_round, finish_based, finish_decimal, scan_digit_sequence, scan_exponent,
  scan_fraction, scan_number, scan_numeric_suffix,
}
use luce_seed.Lex.State.{
  Tokenizer, FormattedMode, column, peek_byte, rounds, advance, advance_line, error, error_at,
}
use luce_seed.Lex.Token.{TokenKind}

scan_escape-Inv : (s : Tokenizer) (byte_mode : Bool) → Inv s → Inv (scan_escape s byte_mode).0
unfolding scan_escape refuse_escape unicode_escape byte_escape advance error_at
scan_escape-Inv s byte_mode h = ground arith

-- A result with a flag.
abbrev InvFlag : Tokenizer × Bool → Type 0
InvFlag r = Inv r.0

body_round-Inv :
    (is_raw byte_mode is_triple : Bool) (line column : ℕ) (s : Tokenizer)
    → Inv s
    → Holds Inv InvFlag (body_round is_raw byte_mode is_triple line column s)
unfolding body_round body_scalar advance advance_line error error_at
body_round-Inv is_raw byte_mode is_triple line column s h =
    ground (arith, scan_escape-Inv s byte_mode h)

pub scan_string_body-Inv :
    (s : Tokenizer) (prefix line column : ℕ) → Inv s → Inv (scan_string_body s prefix line column).0
unfolding scan_string_body advance
scan_string_body-Inv s prefix line column h =
    leave_inv Inv InvFlag _ (body_round-Inv _ _ _ line column) (λ t. (t, false)) (λ t i. i) _ _ h

text-IsPlain : IsPlain TokenKind.format_text
unfolding is_plain
text-IsPlain = refl

emit_text-Inv : (from : TextStart) (s : Tokenizer) → Inv s → Inv (emit_text from s)
unfolding emit_text
emit_text-Inv from s h = ground (
  arith,
  emit_at-Inv s TokenKind.format_text from.start s.pos from.start_line from.start_column []
      text-IsPlain h,
)

close_format-Inv :
    (from : TextStart) (triple : Bool) (s : Tokenizer) → Inv s → Inv (close_format from triple s)
unfolding close_format advance
close_format-Inv from triple s h =
    emit_at-Inv _ _ _ _ _ _ _ (unfold is_plain in refl) (emit_text-Inv from s h)

open_field-Inv : (from : TextStart) (s : Tokenizer) → Inv s → Inv (open_field from s)
unfolding open_field advance
open_field-Inv from s h =
    emit_at-Inv _ _ _ _ _ _ _ (unfold is_plain in refl) (emit_text-Inv from s h)

text_round-Inv :
    (mode : FormattedMode) (from : TextStart) (s : Tokenizer)
    → Inv s
    → Holds Inv Inv (text_round mode from s)
unfolding text_round advance advance_line error_at
text_round-Inv mode from s h = ground (
  arith,
  scan_escape-Inv s false h,
  close_format-Inv from mode.is_triple s h,
  open_field-Inv from s h,
)

pub scan_formatted_text-Inv : (s : Tokenizer) → Inv s → Inv (scan_formatted_text s)
unfolding scan_formatted_text
scan_formatted_text-Inv s h = split s.formatted
  where
    split :
        (modes : List FormattedMode)
        → Inv (elim modes [
          | [] ↦ s
          | mode ∷ outer ↦
              let from : TextStart = record {
                start = s.pos;
                start_line = s.line;
                start_column = column s;
              } in
              leave (λ t. t) (iterate (rounds s) (text_round mode from) s)
        ])
    split [] = h
    split (mode ∷ outer) = leave_inv Inv Inv _ (text_round-Inv mode _) (λ t. t) (λ t i. i) _ _ h

format_literal-Inv :
    (s : Tokenizer) (start line column : ℕ) → Inv s → Inv (format_literal s start line column)
unfolding format_literal advance
format_literal-Inv s start line column h =
    scan_formatted_text-Inv _
      (emit_at-Inv _ TokenKind.format_start _ _ _ _ _ (unfold is_plain in refl) h)

plain_literal-Inv :
    (s : Tokenizer) (start line column prefix : ℕ)
    → Inv s
    → Inv (plain_literal s start line column prefix)
unfolding plain_literal
plain_literal-Inv s start line column prefix h =
    let read = (scan_string_body s prefix line column).0 in
    let kept = scan_string_body-Inv s prefix line column h in
    ground (
      arith,
      kept,
      emit_at-Inv read TokenKind.bytes_lit start read.pos line column [] (unfold is_plain in refl)
          kept,
      emit_at-Inv read TokenKind.string_lit start read.pos line column [] (unfold is_plain in refl)
          kept,
    )

pub scan_string_literal-Inv :
    (s : Tokenizer) (start line column prefix : ℕ)
    → Inv s
    → Inv (scan_string_literal s start line column prefix)
unfolding scan_string_literal
scan_string_literal-Inv s start line column prefix h = ground (
  arith,
  format_literal-Inv s start line column h,
  format_literal-Inv (advance s 1) start line column (advance-Inv s h 1),
  plain_literal-Inv s start line column prefix h,
  plain_literal-Inv (advance s 1) start line column prefix (advance-Inv s h 1),
)

character_round-Inv :
    (start line column : ℕ) (r : Tokenizer × ℕ)
    → Inv r.0
    → Holds (λ (t : Tokenizer × ℕ). Inv t.0) Inv (character_round start line column r)
unfolding character_round advance error error_at
character_round-Inv start line column (s, scalars) h = ground (
  arith,
  scan_escape-Inv s false h,
  emit_at-Inv (advance s 1) TokenKind.char_lit start (s.pos + 1) line column []
      (unfold is_plain in refl) h,
)

pub scan_character-Inv :
    (s : Tokenizer) (start line column : ℕ) → Inv s → Inv (scan_character s start line column)
unfolding scan_character advance
scan_character-Inv s start line column h =
    leave_inv (λ (t : Tokenizer × ℕ). Inv t.0) Inv _ (character_round-Inv start line column)
      (λ t. t.0) (λ t i. i) _ _ h

digit_round-Inv :
    (base column pos : ℕ) (d : Digits)
    → Inv d.state
    → Holds (λ (t : Digits). Inv t.state) InvFlag (digit_round base column pos d)
unfolding digit_round advance error error_at
digit_round-Inv base column pos d h = ground arith

scan_digit_sequence-Inv : (s : Tokenizer) (base : ℕ) → Inv s → Inv (scan_digit_sequence s base).0
unfolding scan_digit_sequence
scan_digit_sequence-Inv s base h =
    leave_inv (λ (t : Digits). Inv t.state) InvFlag _ (digit_round-Inv base _ _)
      (λ d. (d.state, false)) (λ t i. i) _ _ h

scan_numeric_suffix-Inv : (s : Tokenizer) → Inv s → Inv (scan_numeric_suffix s).0
unfolding scan_numeric_suffix advance
scan_numeric_suffix-Inv s h = ground arith

module _ (start line column : ℕ) where
  finish_based-Inv : (s : Tokenizer) → Inv s → Inv (finish_based s start line column)
  unfolding finish_based error error_at
  finish_based-Inv s h =
      let t = scan_numeric_suffix s in
      ground (
        arith,
        scan_numeric_suffix-Inv s h,
        emit_at-Inv t.0 TokenKind.int_lit start t.0.pos line column t.1 (unfold is_plain in refl)
            (scan_numeric_suffix-Inv s h),
      )

  finish_decimal-Inv :
      (is_float : Bool) (s : Tokenizer) → Inv s → Inv (finish_decimal is_float s start line column)
  unfolding finish_decimal error_at
  finish_decimal-Inv is_float s h =
      let t = scan_numeric_suffix s in
      let kept = scan_numeric_suffix-Inv s h in
      ground (
        arith,
        kept,
        emit_at-Inv t.0 TokenKind.int_lit start t.0.pos line column t.1 (unfold is_plain in refl)
            kept,
        emit_at-Inv t.0 TokenKind.float_lit start t.0.pos line column t.1 (unfold is_plain in refl)
            kept,
      )

  scan_exponent-Inv :
      (is_float : Bool) (s : Tokenizer) → Inv s → Inv (scan_exponent is_float s start line column)
  unfolding scan_exponent
  scan_exponent-Inv is_float s h =
      let e = advance s 1 in
      let at_e = advance-Inv s h 1 in
      let signed = if peek_byte e 0 == b'+' || peek_byte e 0 == b'-' then advance e 1 else e in
      let at_sign : Inv signed = ground (arith, at_e, advance-Inv e at_e 1) in
      let t = scan_digit_sequence signed b'd' in
      let kept = scan_digit_sequence-Inv signed b'd' at_sign in
      ground (arith, kept, finish_decimal-Inv true t.0 kept, finish_decimal-Inv is_float s h)

  scan_fraction-Inv : (s : Tokenizer) → Inv s → Inv (scan_fraction s start line column)
  unfolding scan_fraction
  scan_fraction-Inv s h =
      let t = scan_digit_sequence (advance s 1) b'd' in
      let kept = scan_digit_sequence-Inv (advance s 1) b'd' (advance-Inv s h 1) in
      ground (arith, kept, scan_exponent-Inv true t.0 kept, scan_exponent-Inv false s h)

  pub scan_number-Inv : (s : Tokenizer) → Inv s → Inv (scan_number s start line column)
  unfolding scan_number
  scan_number-Inv s h =
      let base = peek_byte s 1 in
      let upper : Inv (
          advance
            (error_at s line column start "lucb.lex.number"
              "based integer prefixes must use lowercase `0x`, `0o`, or `0b`")
            2) =
        advance-Inv _
          (error_at-Inv s h line column start "lucb.lex.number"
            "based integer prefixes must use lowercase `0x`, `0o`, or `0b`")
          2 in
      let based = scan_digit_sequence (advance s 2) base in
      let based_kept = scan_digit_sequence-Inv (advance s 2) base (advance-Inv s h 2) in
      let decimal = scan_digit_sequence s b'd' in
      let decimal_kept = scan_digit_sequence-Inv s b'd' h in
      ground (
        arith,
        based_kept,
        decimal_kept,
        finish_based-Inv based.0 based_kept,
        scan_fraction-Inv decimal.0 decimal_kept,
        upper,
      )
