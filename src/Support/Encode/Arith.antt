-- ===== src/Support/Encode/Arith.antt =====
-- The encoding as arithmetic.
use Prim.Native.Nat.{bit_or}
use luce_seed.Base.Bits.{all_below, at_below, bit_and_63}
use luce_seed.Base.{
  ℕ, ◌+◌, ◌/◌, ◌%◌, ◌<◌, ◌≤◌, [], ◌∷◌, ◌++◌, ◌≡◌, ◌⊎◌, refl, arith, Bytes, ltb, ◌==◌, ==_iff,
  if◌then◌else◌,
}
use luce_seed.Support.Encode.{append_utf8}

-- A Unicode scalar value: no surrogate.
abbrev pub IsScalar : ℕ → Type 0
IsScalar v = (v ≤ 0x10FFFF) × ((v < 0xD800) ⊎ (0xDFFF < v))

abbrev pub encoded : ℕ → Bytes
encoded v =
    if ltb v 0x80
    then v ∷ []
    else if ltb v 0x800
    then (0xC0 + v / 64) ∷ (0x80 + v % 64) ∷ []
    else if ltb v 0x10000
    then (0xE0 + v / 4096) ∷ (0x80 + v / 64 % 64) ∷ (0x80 + v % 64) ∷ []
    else (0xF0 + v / 262144) ∷ (0x80 + v / 4096 % 64) ∷ (0x80 + v / 64 % 64) ∷ (0x80 + v % 64) ∷ []

or_0x80 : (x : ℕ) → x < 64 → bit_or 0x80 x ≡ 0x80 + x
unfolding all_below
or_0x80 x h = (==_iff _ _).0 (at_below 64 (λ x. bit_or 0x80 x == 0x80 + x) x refl h)

or_0xC0 : (x : ℕ) → x < 32 → bit_or 0xC0 x ≡ 0xC0 + x
unfolding all_below
or_0xC0 x h = (==_iff _ _).0 (at_below 32 (λ x. bit_or 0xC0 x == 0xC0 + x) x refl h)

or_0xE0 : (x : ℕ) → x < 16 → bit_or 0xE0 x ≡ 0xE0 + x
unfolding all_below
or_0xE0 x h = (==_iff _ _).0 (at_below 16 (λ x. bit_or 0xE0 x == 0xE0 + x) x refl h)

or_0xF0 : (x : ℕ) → x < 8 → bit_or 0xF0 x ≡ 0xF0 + x
unfolding all_below
or_0xF0 x h = (==_iff _ _).0 (at_below 8 (λ x. bit_or 0xF0 x == 0xF0 + x) x refl h)

pub append_utf8-encoded :
    (out : Bytes) (v : ℕ) → v ≤ 0x10FFFF → append_utf8 out v ≡ out ++ encoded v
unfolding append_utf8
append_utf8-encoded out v h = ground (
  arith,
  bit_and_63 v,
  bit_and_63 (v / 64),
  bit_and_63 (v / 4096),
  or_0x80 (v % 64),
  or_0x80 (v / 64 % 64),
  or_0x80 (v / 4096 % 64),
  or_0xC0 (v / 64),
  or_0xE0 (v / 4096),
  or_0xF0 (v / 262144),
)
