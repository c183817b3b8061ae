-- ===== src/Lex/Chars.antt =====
-- The character classes, literal suffixes and delimiters of src/lex/lexer.cpp. `char` is signed or
-- not by the platform; every class below has both its bounds in ASCII, so a byte from 128 on, or the
-- negative number that it is as a signed `char`, lies in none of them.
use luce_seed.Base.{
  ℕ, ◌+◌, ◌-◌, Bool, ◌||◌, Bytes, codes, bytes_eq, leb, within, ◌==◌, if◌then◌else◌,
}

unfoldable pub is_ascii_alpha : ℕ → Bool
is_ascii_alpha c = within b'a' b'z' c || within b'A' b'Z' c

unfoldable pub is_ascii_digit : ℕ → Bool
is_ascii_digit c = within b'0' b'9' c

unfoldable pub is_ident_start : ℕ → Bool
unfolding is_ascii_alpha
is_ident_start c = is_ascii_alpha c || c == b'_'

unfoldable pub is_ident_continue : ℕ → Bool
unfolding is_ident_start is_ascii_digit
is_ident_continue c = is_ident_start c || is_ascii_digit c

unfoldable pub is_hex_digit : ℕ → Bool
unfolding is_ascii_digit
is_hex_digit c = is_ascii_digit c || within b'a' b'f' c || within b'A' b'F' c

-- Called on a hex digit only.
unfoldable pub hex_value : ℕ → ℕ
hex_value c = if leb c b'9' then c - b'0' else if leb c b'F' then c - b'A' + 10 else c - b'a' + 10

unfoldable pub is_digit_for_base : ℕ → ℕ → Bool
unfolding is_hex_digit is_ascii_digit
is_digit_for_base c base =
    if base == b'b'
    then c == b'0' || c == b'1'
    else if base == b'o'
    then within b'0' b'7' c
    else if base == b'x'
    then is_hex_digit c
    else is_ascii_digit c

unfoldable pub is_integer_suffix : Bytes → Bool
is_integer_suffix s =
    bytes_eq s (codes "u8")
    || bytes_eq s (codes "u16")
    || bytes_eq s (codes "u32")
    || bytes_eq s (codes "u64")
    || bytes_eq s (codes "usize")
    || bytes_eq s (codes "i8")
    || bytes_eq s (codes "i16")
    || bytes_eq s (codes "i32")
    || bytes_eq s (codes "i64")
    || bytes_eq s (codes "isize")

unfoldable pub is_float_suffix : Bytes → Bool
is_float_suffix s = bytes_eq s (codes "f16") || bytes_eq s (codes "f32") || bytes_eq s (codes "f64")

pub data Delim : Type 0 where
  paren bracket brace format_field : Delim

unfoldable pub closing_for : Delim → ℕ
closing_for paren = b')'
closing_for bracket = b']'
closing_for brace = b'}'
closing_for format_field = b'}'
