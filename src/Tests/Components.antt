-- ===== src/Tests/Components.antt =====
-- The theorems on types, the interpreter's arithmetic, the arena and decimals, at concrete values.
use luce_seed.Base.Int.{ℤ, pos, negsuc, ◌+ℤ◌, ◌-ℤ◌, neg_ℕ, pos_part, neg_part}
use luce_seed.Base.{
  ◌++◌, ℕ, ◌+◌, ◌-◌, ◌*◌, ◌^◌, ◌<◌, ◌≡◌, ◌⊎◌, inl, inr, refl, arith, true, false, not, List, [],
  ◌∷◌, Option, none, some, codes, String, length, ◌==◌,
}
use Prim.Native.Nat.{◌∣◌}
use luce_seed.Check.Kind.{TypeKind, int_bits, is_int}
use luce_seed.Check.Layout.Places.{
  IsInOrder, IsPlacedAt, IsUnnamed, places, structure-IsInOrder, type_offset-IsPlacedAt,
}
use luce_seed.Check.Layout.Exact.{
  exact_field_align, exact_fields_align, exact_fields_end, exact_pad_to, exact_plain_align,
  exact_raise, exact_size_or_one, exact_type_align, exact_type_size,
}
use luce_seed.Check.Layout.Fits.{Fits}
use luce_seed.Check.Layout.Sound.{is_regular}
use luce_seed.Check.Layout.{
  Fields, array, field, no_field, no_offset, plain, plain_size, structure, type_align, type_offset,
  type_size,
}
use luce_seed.Interp.Arith.Convert.{IsConverted, convert_int-exact, int_arith-wraps, residue}
use luce_seed.Interp.Arith.Exact.{IsChecked, int_arith-IsChecked, is_checked}
use luce_seed.Interp.Arith.Saturated.{IsSaturated, int_arith-IsSaturated, is_saturating}
use luce_seed.Interp.Arith.Widths.{value_of}
use luce_seed.Interp.Arith.{convert_int, exact_s, int_arith, value}
use luce_seed.Interp.Value.{Value, v_int}
use luce_seed.Lex.Token.{TokenKind}
use luce_seed.Support.Arena.Apart.{IsLaidOut, alloc_all-IsLaidOut, requests}
use luce_seed.Support.Arena.{Arena, Block, alloc_all, empty_arena}
use luce_seed.Support.Braces.{
  doubled, is_doubled, unescape_format_braces, unescape_format_braces-doubled,
}
use luce_seed.Support.Character.RoundTrip.{parse_char_literal-append_utf8}
use luce_seed.Support.Character.{
  digits_loop, escaped, hex_value, inner_value, low_bits, next_digit, parse_char_literal,
  scalar_bytes, simple_escape, unicode_escape,
}
use luce_seed.Support.Encode.{append_utf8}
use luce_seed.Support.Quoted.RoundTrip.{decode_string_literal-quoted, quoted}
use luce_seed.Support.Quoted.{
  after_newline, decode_string_literal, drop_returns, indent_of, last_line, spaces, strip_lines,
  strip_triple,
}
use luce_seed.Support.Decimal.Big.Exact.{
  IsProduct, IsShifted, mul_add-IsProduct, shift_left-IsShifted,
}
use luce_seed.Support.Decimal.Big.Value.{IsBig, number}
use luce_seed.Support.Decimal.Big.{
  Limbs, at_least, bit_length, bits_in, halve, is_zero, limbs_of, mul_add, mul_loop, order, set,
  shift_bits, shift_left, shift_right_one, strip, subtract, subtract_loop, zeros,
}
use luce_seed.Support.Decimal.Read.{
  fold_zeros, next_given, next_of, read_decimal, read_digits, read_exponent, read_given,
  read_signed, take_digit,
}
use luce_seed.Support.Decimal.Round.Division.{divide-exact}
use luce_seed.Support.Decimal.Round.Rounded.{IsRounded, convert-IsRounded}
use luce_seed.Support.Decimal.Round.Total.{IsQuotient, convert-IsQuotient}
use luce_seed.Support.Decimal.Round.Nearest.{IsNearest, round_to-IsNearest}
use luce_seed.Support.Decimal.Round.{
  Format, convert, decimal_to_bits, divide, format_of, infinity_bits, numerator, of_digits, pack,
  ratio, round_bits, round_tiny, round_to, rounds_up, scale_of, scaled, times_ten,
}
use luce_seed.Base.Words.{u32, u64}

abbrev hundred : Value
unfolding v_int
hundred = v_int TypeKind.i8 100

int_arith-IsChecked_example :
    IsChecked TypeKind.i8
      (exact_s TokenKind.plus (value_of TypeKind.i8 hundred) (value_of TypeKind.i8 hundred))
      (int_arith TypeKind.i8 hundred hundred TokenKind.plus)
int_arith-IsChecked_example =
    int_arith-IsChecked TypeKind.i8 hundred hundred TokenKind.plus (unfold is_int in refl)
      (unfold is_checked in refl)

int_arith-IsSaturated_example :
    IsSaturated TypeKind.i8
      (exact_s TokenKind.star_pipe (value_of TypeKind.i8 hundred) (value_of TypeKind.i8 hundred))
      (int_arith TypeKind.i8 hundred hundred TokenKind.star_pipe)
int_arith-IsSaturated_example =
    int_arith-IsSaturated TypeKind.i8 hundred hundred TokenKind.star_pipe (unfold is_int in refl)
      (unfold is_saturating in refl)

int_arith-wraps_example :
    ((v : Value) × (int_arith TypeKind.u8 hundred hundred TokenKind.plus_percent ≡ value v)
      × (v.u
          ≡ residue
              (int_bits TypeKind.u8)
              (value_of TypeKind.u8 hundred +ℤ value_of TypeKind.u8 hundred)))
    × ((v : Value) × (int_arith TypeKind.u8 hundred hundred TokenKind.minus_percent ≡ value v)
        × (v.u
            ≡ residue
                (int_bits TypeKind.u8)
                (value_of TypeKind.u8 hundred -ℤ value_of TypeKind.u8 hundred)))
int_arith-wraps_example = int_arith-wraps TypeKind.u8 hundred hundred (unfold is_int in refl)

convert_int-exact_example :
    IsConverted TypeKind.u16
      (value_of TypeKind.i32 hundred)
      (convert_int hundred TypeKind.i32 TypeKind.u16 true)
    × ((v : Value) × (convert_int hundred TypeKind.i32 TypeKind.u16 false ≡ value v)
        × (v.u ≡ residue (int_bits TypeKind.u16) (value_of TypeKind.i32 hundred)))
convert_int-exact_example =
    convert_int-exact hundred TypeKind.i32 TypeKind.u16 (unfold is_int in refl)
      (unfold is_int in refl)

-- A byte, and a word behind it.
abbrev two_fields : Fields
two_fields =
    field (codes "tag") (plain TypeKind.u8) 0
      (field (codes "word") (plain TypeKind.u32) 16 no_field)

two_fields-Fits : Fits (structure false 0 0 two_fields)
unfolding exact_type_size exact_type_align exact_fields_end exact_fields_align exact_field_align
    exact_raise exact_pad_to exact_plain_align exact_size_or_one plain_size
two_fields-Fits = (
  (omega arith, omega arith),
  omega arith,
  omega arith,
  (
    (omega arith, omega arith),
    omega arith,
    omega arith,
    tt,
    ((omega arith, omega arith), omega arith, omega arith, tt, (omega arith, omega arith)),
  ),
)

structure-IsInOrder_example :
    let s = structure false 0 0 two_fields in
    IsInOrder 0 (type_size s) (type_align s) (places false 0 two_fields)
    × (type_align s ∣ type_size s)
structure-IsInOrder_example =
    structure-IsInOrder false 0 0 two_fields
      (
        inl refl,
        inl refl,
        (unfold is_regular in refl, inl refl, (unfold is_regular in refl, inr (4, refl), tt)),
      )
      two_fields-Fits

type_offset-IsPlacedAt_example :
    let off = type_offset (structure false 0 0 two_fields) (codes "word") in
    ((off ≡ no_offset) × IsUnnamed (places false 0 two_fields) (codes "word"))
    ⊎ IsPlacedAt (places false 0 two_fields) (codes "word") off
type_offset-IsPlacedAt_example =
    type_offset-IsPlacedAt false 0 0 two_fields (codes "word") two_fields-Fits

-- An `int` holds no size of 2^32 bytes.
size_wraps_around : type_size (array (plain TypeKind.u8) (2 ^ 32)) ≡ 0
unfolding type_size plain_size u32
size_wraps_around = refl

-- The second request, of 128 KiB, does not fit in the chunk of the first.
abbrev three_requests : List (ℕ × ℕ)
three_requests = (3, 3) ∷ (131072, 4) ∷ (0, 0) ∷ []

alloc_all-IsLaidOut_example :
    (r : Arena × List Block) × (alloc_all empty_arena [] (requests three_requests) ≡ some r)
    × IsLaidOut r.0.chunks r.1
    × (length r.1 ≡ length {A = Block} [] + length three_requests)
alloc_all-IsLaidOut_example =
    alloc_all-IsLaidOut empty_arena [] three_requests
      ((omega arith, omega arith), ((omega arith, omega arith), ((omega arith, omega arith), tt)))
      (omega arith, tt) tt

-- 2 ^ 32 - 1, in one limb.
abbrev one_limb : Limbs
one_limb = 4294967295 ∷ []

one_limb-IsBig : IsBig one_limb
one_limb-IsBig = ((omega arith, tt), λ e. omega arith)

mul_add-IsProduct_example : IsProduct (number one_limb * 10 + 7) (mul_add one_limb 10 7)
mul_add-IsProduct_example =
    mul_add-IsProduct one_limb 10 7 one_limb-IsBig (omega arith) (omega arith) (omega arith)

shift_left-IsShifted_example : IsShifted one_limb 45 (shift_left one_limb 45)
shift_left-IsShifted_example = shift_left-IsShifted one_limb 45 one_limb-IsBig

-- One tenth: 2 ^ 17 by 10, the denominator moved up by 14 places.
divide-exact_example :
    let (quotient, rest) = divide (14 + 1) 0 (131072 ∷ []) (163840 ∷ []) in
    IsBig rest × (number (131072 ∷ []) ≡ quotient * 10 + number rest) × (number rest < 10)
divide-exact_example =
    divide-exact 14 10 (131072 ∷ []) (163840 ∷ []) ((omega arith, tt), λ e. omega arith)
      ((omega arith, tt), λ e. omega arith) refl (omega arith) (omega arith)

abbrev binary16 : Format
binary16 = record {
  precision = 11;
  min_exponent = neg_ℕ 14;
  max_exponent = pos 15;
  exponent_bits = 5;
}

-- One tenth.
convert-IsRounded_example :
    (scale : ℤ) × IsRounded binary16
      (1 * 10 ^ 0 * 2 ^ pos_part scale)
      (10 ^ 1 * 2 ^ neg_part scale)
      scale
      (convert binary16 (1 ∷ []) (negsuc 0) false)
convert-IsRounded_example =
    convert-IsRounded binary16 (1 ∷ []) (negsuc 0) (omega arith) (omega arith) (omega arith, tt)
      (omega arith) (omega arith) (omega arith)

convert-IsQuotient_example :
    IsQuotient binary16 1 (negsuc 0) true (convert binary16 (1 ∷ []) (negsuc 0) true)
convert-IsQuotient_example =
    convert-IsQuotient binary16 (1 ∷ []) (negsuc 0) true (omega arith) (omega arith, tt)
      (omega arith) (omega arith) (omega arith)

round_to-IsNearest_example :
    (kept : ℕ) × (round_to binary16 11 14 13107 (not (2 == 0)) (neg_ℕ 4)
      ≡ pack binary16 kept (neg_ℕ 4))
    × IsNearest 131072 (2 ^ (14 - 11) * 10) kept
round_to-IsNearest_example =
    round_to-IsNearest binary16 11 14 13107 131072 10 2 (neg_ℕ 4) refl (omega arith) (omega arith)

-- A tenth, the least subnormal and half of it, the largest number of 16 bits, and what rounds past it.
bits_at : String → ℕ → Option ℕ
unfolding decimal_to_bits of_digits convert round_bits round_tiny round_to pack rounds_up divide
    scaled scale_of ratio times_ten numerator infinity_bits format_of read_decimal read_exponent
    read_signed read_given next_given read_digits next_of take_digit fold_zeros strip is_zero
    mul_loop mul_add bits_in bit_length shift_bits zeros shift_left halve shift_right_one order
    at_least subtract_loop subtract limbs_of set u32 u64 ◌+ℤ◌ ◌-ℤ◌
bits_at text width = decimal_to_bits (codes text) width

decimal_tests :
    (bits_at "0.1" 64 ≡ some 0x3FB999999999999A)
    × (bits_at "4.9e-324" 64 ≡ some 1)
    × (bits_at "2.4703282292062327e-324" 64 ≡ some 0)
    × (bits_at "65519.99" 16 ≡ some 0x7BFF)
    × (bits_at "65520" 16 ≡ some 0x7C00)
    × (bits_at "1_6777_217." 32 ≡ some 0x4B800000)
    × (bits_at "1.2.3" 64 ≡ none)
unfolding bits_at
decimal_tests = (refl, refl, refl, refl, refl, refl, refl)

parse_char_literal-append_utf8_example :
    parse_char_literal (39 ∷ append_utf8 [] 0x20AC ++ 39 ∷ []) ≡ some 0x20AC
parse_char_literal-append_utf8_example =
    parse_char_literal-append_utf8 0x20AC (omega arith) (omega arith)

decode_string_literal-quoted_example :
    decode_string_literal (34 ∷ quoted (codes "say \\hi") ++ 34 ∷ []) ≡ codes "say \\hi"
decode_string_literal-quoted_example = decode_string_literal-quoted (codes "say \\hi")

-- A character by its number, an escape, and one that is too long.
character_tests :
    (parse_char_literal (codes "'\\u{1F600}'") ≡ some 0x1F600)
    × (parse_char_literal (codes "'\\n'") ≡ some 10)
    × (parse_char_literal (codes "'\\u{110000}'") ≡ none)
    × (parse_char_literal (codes "'ab'") ≡ none)
unfolding parse_char_literal inner_value escaped unicode_escape digits_loop next_digit hex_value
    simple_escape scalar_bytes low_bits
character_tests = (refl, refl, refl, refl)

-- Two lines, indented as far as the closing delimiter is.
triple_test : strip_triple (codes "\n    a\n      b\n    ") ≡ codes "a\n  b\n"
unfolding strip_triple strip_lines indent_of spaces last_line drop_returns after_newline
triple_test = refl

unescape_format_braces-doubled_example :
    unescape_format_braces (doubled (codes "a{b}")) ≡ codes "a{b}"
unescape_format_braces-doubled_example = unescape_format_braces-doubled (codes "a{b}")

braces_test : unescape_format_braces (codes "{{a}{b}}") ≡ codes "{a}{b}"
unfolding unescape_format_braces is_doubled
braces_test = refl
