-- ===== src/Support/Character.antt =====
-- `parse_char_literal` of src/support/literal.cpp, for a pointer to the result that is not null; `none` stands for
-- false. The bytes of a scalar are put together from fields that do not overlap, so that `|` is a sum.
pub mod RoundTrip
use Prim.Native.Nat.{bit_and}
use luce_seed.Base.{
  ℕ, ◌+◌, ◌-◌, ◌*◌, ◌/◌, ◌^◌, Bool, true, false, not, ◌&&◌, ◌||◌, [], ◌∷◌, Option, none, some,
  Bytes, drop, get_or, length, leb, ltb, take, within, ◌==◌, if◌then◌else◌,
}

-- The digit that a byte stands for; `none` for -1.
unfoldable pub hex_value : ℕ → Option ℕ
hex_value c =
    if within b'0' b'9' c
    then some (c - b'0')
    else if within b'a' b'f' c
    then some (c - b'a' + 10)
    else if within b'A' b'F' c
    then some (c - b'A' + 10)
    else none

-- The escapes of one byte.
unfoldable pub simple_escape : ℕ → Option ℕ
simple_escape e =
    if e == b'n'
    then some 10
    else if e == b't'
    then some 9
    else if e == b'r'
    then some 13
    else if e == b'0'
    then some 0
    else if e == 92 || e == 39 || e == 34
    then some e
    else none

-- One digit of \u{...}; no number past 0x10FFFF comes of it.
unfoldable pub next_digit : ℕ → ℕ → Option ℕ
next_digit d v = elim (hex_value d) [
  | none ↦ none
  | some digit ↦ if ltb (0x10FFFF / 16) v then none else some (v * 16 + digit)
]

-- The loop over the digits: the number, whether there was a digit, and the text from the brace on.
unfoldable pub digits_loop : Bytes → ℕ → Bool → Option (ℕ × Bool × Bytes)
digits_loop [] v any = some (v, any, [])
digits_loop (d ∷ ds) v any =
    if d == b'}'
    then some (v, any, d ∷ ds)
    else elim (next_digit d v) [ none ↦ none | some next ↦ digits_loop ds next true ]

unfoldable pub unicode_escape : Bytes → Option ℕ
unicode_escape inner =
    let loop : Option ℕ = elim (digits_loop (drop 3 inner) 0 false) [
      | none ↦ none
      | some (v, any, rest) ↦ if any && (length rest == 1) then some v else none
    ] in
    if ltb (length inner) 5 || not (get_or inner 2 0 == b'{') then none else loop

unfoldable pub escaped : Bytes → Option ℕ
escaped inner =
    if ltb (length inner) 2
    then none
    else if get_or inner 1 0 == b'u'
    then unicode_escape inner
    else elim (simple_escape (get_or inner 1 0)) [
      | none ↦ none
      | some cp ↦ if length inner == 2 then some cp else none
    ]

-- The low six bits of the byte at `i`, moved up.
unfoldable pub low_bits : Bytes → ℕ → ℕ → ℕ
low_bits inner i shift = bit_and (get_or inner i 0) 0x3F * 2 ^ shift

-- A scalar of two bytes or more.
unfoldable pub scalar_bytes : Bytes → ℕ → Option ℕ
scalar_bytes inner c =
    let n = length inner in
    if (bit_and c 0xE0 == 0xC0) && leb 2 n
    then (if n == 2 then some (bit_and c 0x1F * 2 ^ 6 + low_bits inner 1 0) else none)
    else if (bit_and c 0xF0 == 0xE0) && leb 3 n
    then (if n == 3
        then some (bit_and c 0x0F * 2 ^ 12 + low_bits inner 1 6 + low_bits inner 2 0)
        else none)
    else if (bit_and c 0xF8 == 0xF0) && leb 4 n
    then (if n == 4
        then some (
            bit_and c 0x07 * 2 ^ 18 + low_bits inner 1 12 + low_bits inner 2 6 + low_bits inner 3 0)
        else none)
    else none

unfoldable pub inner_value : Bytes → Option ℕ
inner_value [] = none
inner_value (c ∷ cs) =
    if c == 92
    then escaped (c ∷ cs)
    else if ltb c 0x80
    then (if length (c ∷ cs) == 1 then some c else none)
    else scalar_bytes (c ∷ cs) c

unfoldable pub parse_char_literal : Bytes → Option ℕ
parse_char_literal text =
    let n = length text in
    if ltb n 3 || not (get_or text 0 0 == 39) || not (get_or text (n - 1) 0 == 39)
    then none
    else inner_value (take (n - 2) (drop 1 text))
