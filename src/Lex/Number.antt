-- ===== src/Lex/Number.antt =====
-- Numeric literals of src/lex/lexer.cpp.
use luce_seed.Base.Loop.{Round, next, done, iterate, leave}
use luce_seed.Base.{ℕ, Bool, true, false, not, ◌&&◌, ◌||◌, [], Bytes, ◌==◌, if◌then◌else◌, is_empty}
use luce_seed.Lex.Chars.{
  is_ascii_alpha, is_ascii_digit, is_digit_for_base, is_float_suffix, is_ident_continue,
  is_integer_suffix,
}
use luce_seed.Lex.State.{
  Tokenizer, advance, column, count_while, emit_at, error, error_at, peek_byte, remaining, rounds,
  slice,
}
use luce_seed.Lex.Token.{TokenKind}

-- The variables of the loop of `scan_digit_sequence`.
pub record Digits : Type 0 where
  pub state : Tokenizer
  pub has_digit : Bool
  pub after_separator : Bool

-- One round; `start_column` and `start_pos` are those of the sequence.
unfoldable pub digit_round : ℕ → ℕ → ℕ → Digits → Round Digits (Tokenizer × Bool)
digit_round base start_column start_pos d =
    let s = d.state in
    let c = peek_byte s 0 in
    if is_digit_for_base c base || c == b'_'
    then (if c == b'_'
        then (if not d.has_digit || d.after_separator
            then done (error s "lucb.lex.number" "underscores must separate numeric digits", false)
            else next
                (record { state = advance s 1; has_digit = d.has_digit; after_separator = true }))
        else next (record { state = advance s 1; has_digit = true; after_separator = false }))
    else if not d.has_digit
    then done (
      error_at s s.line start_column start_pos "lucb.lex.number" "numeric literal requires a digit",
      false,
    )
    else if d.after_separator
    then done (error s "lucb.lex.number" "numeric literal cannot end with underscore", false)
    else done (s, true)

unfoldable pub scan_digit_sequence : Tokenizer → ℕ → Tokenizer × Bool
scan_digit_sequence s base =
    let start : Digits = record { state = s; has_digit = false; after_separator = false } in
    leave (λ d. (d.state, false)) (iterate (rounds s) (digit_round base (column s) s.pos) start)

-- The suffix and the state behind it.
unfoldable pub scan_numeric_suffix : Tokenizer → Tokenizer × Bytes
scan_numeric_suffix s =
    let t = advance s (count_while is_ident_continue (remaining s)) in
    if not (is_ascii_alpha (peek_byte s 0)) then (s, []) else (t, slice t s.pos t.pos)

-- The suffix of a literal with a base prefix, and the token.
unfoldable pub finish_based : Tokenizer → ℕ → ℕ → ℕ → Tokenizer
finish_based s start start_line start_column =
    let (t, suffix) = scan_numeric_suffix s in
    if is_ascii_digit (peek_byte s 0)
    then error s "lucb.lex.number" "digit is not valid for this numeric base"
    else if not (is_empty suffix) && not (is_integer_suffix suffix)
    then error_at t start_line start_column start "lucb.lex.number" "invalid integer literal suffix"
    else emit_at t TokenKind.int_lit start t.pos start_line start_column suffix

-- The suffix of a decimal literal, and the token; the flag says that it has a point or an exponent.
unfoldable pub finish_decimal : Bool → Tokenizer → ℕ → ℕ → ℕ → Tokenizer
finish_decimal is_float s start start_line start_column =
    let (t, suffix) = scan_numeric_suffix s in
    if is_float_suffix suffix
    then emit_at t TokenKind.float_lit start t.pos start_line start_column suffix
    else if not (is_empty suffix) && (is_float || not (is_integer_suffix suffix))
    then error_at t start_line start_column start "lucb.lex.number" "invalid numeric literal suffix"
    else emit_at t (if is_float then TokenKind.float_lit else TokenKind.int_lit) start t.pos
        start_line start_column suffix

-- The exponent of a decimal literal, if there is one.
unfoldable pub scan_exponent : Bool → Tokenizer → ℕ → ℕ → ℕ → Tokenizer
scan_exponent is_float s start start_line start_column =
    let e = advance s 1 in
    let signed = if peek_byte e 0 == b'+' || peek_byte e 0 == b'-' then advance e 1 else e in
    let (t, fine) = scan_digit_sequence signed b'd' in
    if peek_byte s 0 == b'e' || peek_byte s 0 == b'E'
    then (if fine then finish_decimal true t start start_line start_column else t)
    else finish_decimal is_float s start start_line start_column

-- The point and the digits behind it, if a digit follows the point.
unfoldable pub scan_fraction : Tokenizer → ℕ → ℕ → ℕ → Tokenizer
scan_fraction s start start_line start_column =
    let (t, fine) = scan_digit_sequence (advance s 1) b'd' in
    if peek_byte s 0 == b'.' && is_ascii_digit (peek_byte s 1)
    then (if fine then scan_exponent true t start start_line start_column else t)
    else scan_exponent false s start start_line start_column

unfoldable pub scan_number : Tokenizer → ℕ → ℕ → ℕ → Tokenizer
scan_number s start start_line start_column =
    let base = peek_byte s 1 in
    let zero_first = peek_byte s 0 == b'0' in
    let upper =
      error_at s start_line start_column start "lucb.lex.number"
        "based integer prefixes must use lowercase `0x`, `0o`, or `0b`" in
    let (based, based_fine) = scan_digit_sequence (advance s 2) base in
    let (decimal, decimal_fine) = scan_digit_sequence s b'd' in
    if zero_first && (base == b'X' || base == b'O' || base == b'B')
    then advance upper 2
    else if zero_first && (base == b'x' || base == b'o' || base == b'b')
    then (if based_fine then finish_based based start start_line start_column else based)
    else (if decimal_fine then scan_fraction decimal start start_line start_column else decimal)
