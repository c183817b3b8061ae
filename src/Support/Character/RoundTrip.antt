-- ===== src/Support/Character/RoundTrip.antt =====
-- What `parse_char_literal` reads of what `append_utf8` writes.
use luce_seed.Base.{
  ℕ, ◌+◌, ◌*◌, ◌/◌, ◌%◌, ◌≤◌, ◌<◌, ◌≡◌, ◌≢◌, arith, [], ◌∷◌, ◌++◌, some, ltb, Bool-cases, inl, inr,
  ap, ◌∙◌,
}
use luce_seed.Base.Bits.{bit_and_63}
use luce_seed.Source.Utf8.Masks.{lead_four, lead_three, lead_two, low_five, low_four, low_three}
use luce_seed.Support.Character.{inner_value, low_bits, scalar_bytes, parse_char_literal}
use luce_seed.Support.Encode.Arith.{append_utf8-encoded, encoded}
use luce_seed.Support.Encode.{append_utf8}

-- The forms of two, three and four bytes.
two_bytes :
    (x y : ℕ) → x < 32 → y < 64 → inner_value ((0xC0 + x) ∷ (0x80 + y) ∷ []) ≡ some (x * 64 + y)
unfolding inner_value scalar_bytes low_bits
two_bytes x y hx hy =
    let byte : 0xC0 + x < 256 = omega arith in
    ground (arith, lead_two (0xC0 + x) byte, low_five (0xC0 + x) byte, bit_and_63 (0x80 + y))

three_bytes :
    (x y z : ℕ)
    → x < 16
    → y < 64
    → z < 64
    → inner_value ((0xE0 + x) ∷ (0x80 + y) ∷ (0x80 + z) ∷ []) ≡ some (x * 4096 + y * 64 + z)
unfolding inner_value scalar_bytes low_bits
three_bytes x y z hx hy hz =
    let byte : 0xE0 + x < 256 = omega arith in
    ground (
      arith,
      lead_two (0xE0 + x) byte,
      lead_three (0xE0 + x) byte,
      low_four (0xE0 + x) byte,
      bit_and_63 (0x80 + y),
      bit_and_63 (0x80 + z),
    )

four_bytes :
    (x y z w : ℕ)
    → x < 8
    → y < 64
    → z < 64
    → w < 64
    → inner_value ((0xF0 + x) ∷ (0x80 + y) ∷ (0x80 + z) ∷ (0x80 + w) ∷ [])
      ≡ some (x * 262144 + y * 4096 + z * 64 + w)
unfolding inner_value scalar_bytes low_bits
four_bytes x y z w hx hy hz hw =
    let byte : 0xF0 + x < 256 = omega arith in
    ground (
      arith,
      lead_two (0xF0 + x) byte,
      lead_three (0xF0 + x) byte,
      lead_four (0xF0 + x) byte,
      low_three (0xF0 + x) byte,
      bit_and_63 (0x80 + y),
      bit_and_63 (0x80 + z),
      bit_and_63 (0x80 + w),
    )

one_byte : (v : ℕ) → v < 0x80 → v ≢ 92 → inner_value (v ∷ []) ≡ some v
unfolding inner_value
one_byte v h plain = ground (arith, plain)

-- The quotes around the bytes of a scalar.
between_quotes :
    (v : ℕ) → v ≤ 0x10FFFF → v ≢ 92 → parse_char_literal (39 ∷ encoded v ++ 39 ∷ []) ≡ some v
unfolding parse_char_literal
between_quotes v h plain = elim (Bool-cases (ltb v 0x80)) [
  | inl one ↦ rw one (one_byte v (ground (arith, one)) plain)
  | inr more ↦ rw more (elim (Bool-cases (ltb v 0x800)) [
    | inl two ↦
        rw two
          (two_bytes (v / 64) (v % 64) (ground (arith, two)) (omega arith) ∙ ap some (omega arith))
    | inr longer ↦ rw longer (elim (Bool-cases (ltb v 0x10000)) [
      | inl three ↦ rw three (
          three_bytes (v / 4096) (v / 64 % 64) (v % 64) (ground (arith, three)) (omega arith)
            (omega arith)
          ∙ ap some (omega arith))
      | inr four ↦ rw four (
          four_bytes (v / 262144) (v / 4096 % 64) (v / 64 % 64) (v % 64) (omega (arith, h))
            (omega arith) (omega arith) (omega arith)
          ∙ ap some (omega arith))
    ])
  ])
]

-- For every number of a scalar but that of the backslash, `parse_char_literal` reads back, between quotes, what
-- `append_utf8` wrote.
pub parse_char_literal-append_utf8 :
    (v : ℕ) → v ≤ 0x10FFFF → v ≢ 92 → parse_char_literal (39 ∷ append_utf8 [] v ++ 39 ∷ []) ≡ some v
parse_char_literal-append_utf8 v h plain =
    rw (append_utf8-encoded [] v h) (between_quotes v h plain)
