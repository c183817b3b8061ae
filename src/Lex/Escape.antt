-- ===== src/Lex/Escape.antt =====
-- `scan_escape` of src/lex/lexer.cpp: one backslash escape. The `int` in which the source gathers a
-- Unicode escape is a number without bound here: it differs from the source's only where more than
-- six digits are read, and there the digit count refuses the escape before the value is looked at.
use luce_seed.Base.{
  ℕ, ◌+◌, ◌*◌, Bool, true, false, ◌&&◌, ◌||◌, not, [], ◌∷◌, String, Bytes, ltb, within, ◌==◌,
  if◌then◌else◌,
}
use luce_seed.Lex.Chars.{is_hex_digit, hex_value}
use luce_seed.Lex.State.{
  Tokenizer, advance, at_end, column, error_at, is_newline, peek_byte, remaining,
}

-- The loop over the hex digits: how many there are, and their value.
unfoldable pub hex_run : Bytes → ℕ → ℕ → ℕ × ℕ
hex_run [] digits scalar = (digits, scalar)
hex_run (c ∷ rest) digits scalar =
    let more = hex_run rest (digits + 1) (scalar * 16 + hex_value c) in
    if is_hex_digit c then more else (digits, scalar)

-- The error at the backslash, which stands at `start`.
unfoldable pub refuse_escape : Tokenizer → ℕ → ℕ → String → Tokenizer × Bool
refuse_escape s col start message = (error_at s s.line col start "lucb.lex.escape" message, false)

-- `\u{…}`, at the `u`.
unfoldable pub unicode_escape : Tokenizer → ℕ → ℕ → Tokenizer × Bool
unicode_escape s col start =
    let opened = advance s 2 in
    let (digits, scalar) = hex_run (remaining opened) 0 0 in
    let read = advance opened digits in
    if digits == 0 || ltb 6 digits || not (peek_byte read 0 == b'}')
    then refuse_escape read col start "Unicode escape must be \\u{HEX}"
    else if ltb 0x10FFFF scalar || within 0xD800 0xDFFF scalar
    then refuse_escape read col start "Unicode escape is not a scalar value"
    else (advance read 1, true)

-- `\xHH`, at the `x`.
unfoldable pub byte_escape : Tokenizer → ℕ → ℕ → Tokenizer × Bool
byte_escape s col start =
    let opened = advance s 1 in
    if not (is_hex_digit (peek_byte opened 0)) || not (is_hex_digit (peek_byte opened 1))
    then refuse_escape opened col start "byte escape must contain two hex digits"
    else (advance opened 2, true)

-- The escapes of one letter.
unfoldable pub is_simple_escape : ℕ → Bool
is_simple_escape c =
    c == b'\\' || c == b'"' || c == b'\'' || c == b'n' || c == b'r' || c == b't' || c == b'0'

unfoldable pub scan_escape : Tokenizer → Bool → Tokenizer × Bool
scan_escape s0 byte_mode =
    let col = column s0 in
    let start = s0.pos in
    let s = advance s0 1 in
    let escaped = peek_byte s 0 in
    if at_end s || is_newline escaped
    then refuse_escape s col start "unterminated literal escape"
    else if is_simple_escape escaped
    then (advance s 1, true)
    else if escaped == b'u' && peek_byte s 1 == b'{'
    then unicode_escape s col start
    else if byte_mode && escaped == b'x'
    then byte_escape s col start
    else refuse_escape s col start "invalid literal escape"
