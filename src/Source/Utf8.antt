-- ===== src/Source/Utf8.antt =====
-- `utf8_next` of src/source/source.cpp: one scalar value read at a byte offset. `none` stands for
-- the result 0, at which the caller's `codepoint` is left alone. A byte is a number below 256.

pub mod Masks
pub mod Forms
use Prim.Native.Nat.{bit_and, bit_or}
use luce_seed.Base.{
  ℕ, zero, suc, ◌+◌, ◌*◌, Bool, ◌&&◌, ◌||◌, Option, none, some, Bytes, length, get_or, ◌-◌, [], ◌∷◌,
  ◌≡◌, refl, ltb, leb, within, ◌==◌, if◌then◌else◌,
}

-- The loop over the continuation bytes: `rounds` are left, the next one at `at`.
unfoldable pub continuation : ℕ → Bytes → ℕ → ℕ → Option ℕ
continuation zero bytes at value = some value
continuation (suc rounds) bytes at value =
    let cont = get_or bytes at 0 in
    let rest = continuation rounds bytes (at + 1) (bit_or (value * 64) (bit_and cont 0x3F)) in
    if bit_and cont 0xC0 == 0x80 then rest else none

-- Overlong, surrogate, or out of range.
unfoldable pub refused : ℕ → ℕ → Bool
refused width value =
    width == 2 && ltb value 0x80
    || width == 3 && ltb value 0x800
    || width == 4 && ltb value 0x10000
    || ltb 0x10FFFF value
    || within 0xD800 0xDFFF value

-- What follows the choice of the width and of the first bits.
unfoldable pub multibyte : Bytes → ℕ → ℕ → ℕ → Option (ℕ × ℕ)
multibyte bytes at width value =
    if ltb (length bytes) (at + width)
    then none
    else elim (continuation (width - 1) bytes (at + 1) value) [
      | none ↦ none
      | some v ↦ if refused width v then none else some (width, v)
    ]

-- The width of the scalar value and the value itself.
unfoldable pub utf8_next : Bytes → ℕ → Option (ℕ × ℕ)
utf8_next bytes at =
    let lead = get_or bytes at 0 in
    if leb (length bytes) at
    then none
    else if ltb lead 0x80
    then some (1, lead)
    else if bit_and lead 0xE0 == 0xC0
    then multibyte bytes at 2 (bit_and lead 0x1F)
    else if bit_and lead 0xF0 == 0xE0
    then multibyte bytes at 3 (bit_and lead 0x0F)
    else if bit_and lead 0xF8 == 0xF0
    then multibyte bytes at 4 (bit_and lead 0x07)
    else none

euro : utf8_next (0x61 ∷ 0xE2 ∷ 0x82 ∷ 0xAC ∷ []) 1 ≡ some (3, 0x20AC)
unfolding utf8_next multibyte continuation refused
euro = refl

overlong : utf8_next (0xC0 ∷ 0x80 ∷ []) 0 ≡ none
unfolding utf8_next multibyte continuation refused
overlong = refl
