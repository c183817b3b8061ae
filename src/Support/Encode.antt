-- ===== src/Support/Encode.antt =====
-- `append_utf8` of src/support/literal.cpp: the UTF-8 encoding of a code point behind `out`.
pub mod Arith
pub mod RoundTrip
use Prim.Native.Nat.{bit_and, bit_or}
use luce_seed.Base.{ℕ, ◌/◌, ◌%◌, ◌^◌, [], ◌∷◌, ◌++◌, ◌≡◌, refl, Bytes, ltb, if◌then◌else◌}

-- `static_cast<char>`, as the byte's value.
abbrev pub char_of : ℕ → ℕ
char_of n = n % 256

unfoldable pub append_utf8 : Bytes → ℕ → Bytes
append_utf8 out cp =
    if ltb cp 0x80
    then out ++ char_of cp ∷ []
    else if ltb cp 0x800
    then out ++ char_of (bit_or 0xC0 (cp / 2 ^ 6)) ∷ char_of (bit_or 0x80 (bit_and cp 0x3F)) ∷ []
    else if ltb cp 0x10000
    then out
      ++ char_of (bit_or 0xE0 (cp / 2 ^ 12))
        ∷ char_of (bit_or 0x80 (bit_and (cp / 2 ^ 6) 0x3F))
        ∷ char_of (bit_or 0x80 (bit_and cp 0x3F))
        ∷ []
    else out
      ++ char_of (bit_or 0xF0 (cp / 2 ^ 18))
        ∷ char_of (bit_or 0x80 (bit_and (cp / 2 ^ 12) 0x3F))
        ∷ char_of (bit_or 0x80 (bit_and (cp / 2 ^ 6) 0x3F))
        ∷ char_of (bit_or 0x80 (bit_and cp 0x3F))
        ∷ []

append_utf8_euro : append_utf8 (0x61 ∷ []) 0x20AC ≡ 0x61 ∷ 0xE2 ∷ 0x82 ∷ 0xAC ∷ []
unfolding append_utf8
append_utf8_euro = refl
