-- ===== src/Interp/Value.antt =====
-- The integer part of `Value` of src/interp/value.h: its constructors and readers.
use luce_seed.Base.Int.{ℤ, pos, negsuc}
use luce_seed.Base.{
  ℕ, ◌+◌, ◌-◌, ◌%◌, ◌^◌, Bool, true, false, ◌&&◌, Option, none, some, ltb, leb, ◌==◌, if◌then◌else◌,
}
use luce_seed.Check.Kind.{TypeKind, int_bits, int_mask, is_int}

-- The fields that the integer operators read. The type is given by its kind.
pub record Value : Type 0 where
  pub kind : TypeKind
  pub type : Option TypeKind
  pub b : Bool
  pub u : ℕ
  pub present : Bool

abbrev pub v_unit : Value
v_unit = record { kind = TypeKind.unit; type = none; b = false; u = 0; present = true }

-- `u & int_mask(bits)`: the mask is one less than a power of two.
unfoldable pub masked : ℕ → ℕ → ℕ
masked bits u = u % (int_mask bits + 1)

unfoldable pub v_int : TypeKind → ℕ → Value
v_int t u = record v_unit {
  kind = t;
  type = some t;
  u = if is_int t then masked (int_bits t) u else u;
}

abbrev pub v_bool : Bool → Value
v_bool x = record v_unit { kind = TypeKind.boolean; b = x }

-- The width that a value is read at.
unfoldable pub bits_of : TypeKind → ℕ
bits_of t = if int_bits t == 0 then 64 else int_bits t

-- `static_cast<int64_t>`, and `static_cast<uint64_t>` back.
unfoldable pub to_i64 : ℕ → ℤ
to_i64 u = if ltb u (2 ^ 63) then pos u else negsuc (2 ^ 64 - 1 - u)

unfoldable pub to_u64 : ℤ → ℕ
to_u64 (pos n) = n % 2 ^ 64
to_u64 (negsuc n) = 2 ^ 64 - 1 - n % 2 ^ 64

-- The bits above the width are set for a negative number: `u | ~int_mask(bits)`.
unfoldable pub sign_extended : ℕ → ℕ → ℤ
sign_extended bits u =
    if ltb bits 64 && leb (2 ^ (bits - 1)) u
    then to_i64 (u + (2 ^ 64 - 1 - int_mask bits))
    else to_i64 u

unfoldable pub as_s : Value → TypeKind → ℤ
as_s v t = sign_extended (bits_of t) (masked (bits_of t) v.u)

unfoldable pub as_u : Value → TypeKind → ℕ
as_u v t = masked (bits_of t) v.u
