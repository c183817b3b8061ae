-- ===== src/Support/Literal.antt =====
-- `parse_int_literal` and `parse_i64_literal` of src/support/literal.cpp.
pub mod Exact
use luce_seed.Base.{
  ℕ, zero, suc, ◌+◌, ◌-◌, ◌*◌, ◌/◌, ◌^◌, Bool, true, false, not, ◌&&◌, ◌||◌, [], ◌∷◌, ◌≡◌, refl,
  Option, none, some, Bytes, codes, drop, length, get_or, ltb, leb, within, ◌==◌, if◌then◌else◌,
}
use luce_seed.Base.Words.{u64, u64_max}

pub record ParsedInt : Type 0 where
  pub is_ok : Bool
  pub value : ℕ
  pub suffix : Bytes

-- What stands for a refused spelling.
abbrev pub no_int : ParsedInt
no_int = record { is_ok = false; value = 0; suffix = [] }

-- The base that the prefix names, and the bytes of the prefix.
unfoldable pub radix : Bytes → ℕ × ℕ
radix text =
    let second = get_or text 1 0 in
    if leb 2 (length text)
      && get_or text 0 0 == b'0'
      && (second == b'x' || second == b'o' || second == b'b')
    then (if second == b'x' then 16 else if second == b'o' then 8 else 2, 2)
    else (10, 0)

-- The digit that a byte stands for.
unfoldable pub digit_of : ℕ → Option ℕ
digit_of c =
    if within b'0' b'9' c
    then some (c - b'0')
    else if within b'a' b'f' c
    then some (c - b'a' + 10)
    else if within b'A' b'F' c
    then some (c - b'A' + 10)
    else none

-- The loop over the digits, and what follows it.
unfoldable pub int_loop : ℕ → Bytes → ℕ → Bool → ParsedInt
int_loop base [] value any =
    if any then record { is_ok = true; value = value; suffix = [] } else no_int
int_loop base (c ∷ rest) value any =
    let skipped = int_loop base rest value any in
    let taken = λ (digit : ℕ). int_loop base rest (u64 (value * base + digit)) true in
    if c == b'_' then skipped else elim (digit_of c) [
      | some digit ↦
          if leb base digit
          then no_int
          else if ltb ((u64_max - digit) / base) value
          then no_int
          else taken digit
      | none ↦
          if within b'a' b'z' c && any
          then record { is_ok = true; value = value; suffix = c ∷ rest }
          else no_int
    ]

unfoldable pub parse_int_literal : Bytes → ParsedInt
parse_int_literal text = let (base, width) = radix text in int_loop base (drop width text) 0 false

-- `none` stands for the result false, at which `out` is left alone.
unfoldable pub parse_i64_literal : Bytes → Option ℕ
parse_i64_literal text =
    let p = parse_int_literal text in
    if not p.is_ok then none else if ltb (2 ^ 63 - 1) p.value then none else some p.value

byte_literal :
    parse_int_literal (codes "0xF_Fu8") ≡ record { is_ok = true; value = 255; suffix = codes "u8" }
unfolding parse_int_literal radix int_loop digit_of u64
byte_literal = refl
