-- ===== src/Check/Kind.antt =====
-- `TypeKind` of src/check/type.h, and the questions that src/check/type.cpp answers by the kind alone.
use luce_seed.Base.Int.{ℤ, pos, negsuc}
use luce_seed.Base.{ℕ, ◌-◌, ◌*◌, ◌^◌, Bool, true, false, not, ◌&&◌, ◌||◌, leb, if◌then◌else◌}

pub data TypeKind : Type 0 where
  error never unit boolean i8 i16 i32 i64 isize u8 u16 u32 u64 usize f16 f32 f64 : TypeKind
  character str structure untyped_int void_type pointer array span optional fallible : TypeKind
  error_val error_code enumeration union module_type c_str allocator param interface fmt : TypeKind
  atomic tuple func : TypeKind

-- `sizeof(void*)` and `sizeof(size_t)` on the 64-bit hosts.
abbrev pub pointer_bytes : ℕ
pointer_bytes = 8

abbrev pub pointer_bits : ℕ
pointer_bits = pointer_bytes * 8

unfoldable pub is_signed_int : TypeKind → Bool
is_signed_int TypeKind.i8 = true
is_signed_int TypeKind.i16 = true
is_signed_int TypeKind.i32 = true
is_signed_int TypeKind.i64 = true
is_signed_int TypeKind.isize = true
is_signed_int _ = false

unfoldable pub is_int : TypeKind → Bool
is_int TypeKind.i8 = true
is_int TypeKind.i16 = true
is_int TypeKind.i32 = true
is_int TypeKind.i64 = true
is_int TypeKind.isize = true
is_int TypeKind.u8 = true
is_int TypeKind.u16 = true
is_int TypeKind.u32 = true
is_int TypeKind.u64 = true
is_int TypeKind.usize = true
is_int _ = false

unfoldable pub is_unsigned_int : TypeKind → Bool
unfolding is_int is_signed_int
is_unsigned_int t = is_int t && not (is_signed_int t)

unfoldable pub is_float_kind : TypeKind → Bool
is_float_kind TypeKind.f16 = true
is_float_kind TypeKind.f32 = true
is_float_kind TypeKind.f64 = true
is_float_kind _ = false

unfoldable pub float_kind_bits : TypeKind → ℕ
float_kind_bits TypeKind.f16 = 16
float_kind_bits TypeKind.f32 = 32
float_kind_bits _ = 64

unfoldable pub float_bits : TypeKind → ℕ
unfolding is_float_kind float_kind_bits
float_bits t = if is_float_kind t then float_kind_bits t else 0

unfoldable pub is_numeric : TypeKind → Bool
unfolding is_int is_float_kind
is_numeric t = is_int t || is_float_kind t

-- An untyped integer computes as `i64` does.
unfoldable pub int_bits : TypeKind → ℕ
int_bits TypeKind.untyped_int = 64
int_bits TypeKind.i8 = 8
int_bits TypeKind.u8 = 8
int_bits TypeKind.i16 = 16
int_bits TypeKind.u16 = 16
int_bits TypeKind.i32 = 32
int_bits TypeKind.u32 = 32
int_bits TypeKind.i64 = 64
int_bits TypeKind.u64 = 64
int_bits TypeKind.isize = pointer_bits
int_bits TypeKind.usize = pointer_bits
int_bits _ = 0

-- A width below zero does not occur; at zero the mask is zero.
unfoldable pub int_mask : ℕ → ℕ
int_mask bits = if leb 64 bits then 2 ^ 64 - 1 else 2 ^ bits - 1

unfoldable pub int_max_signed : ℕ → ℕ
int_max_signed bits = if leb 64 bits then 2 ^ 63 - 1 else 2 ^ (bits - 1) - 1

unfoldable pub int_max_unsigned : ℕ → ℕ
unfolding int_mask
int_max_unsigned bits = int_mask bits

unfoldable pub int_min : TypeKind → ℤ
int_min t =
    if not (is_signed_int t)
    then pos 0
    else if leb 64 (int_bits t)
    then negsuc (2 ^ 63 - 1)
    else negsuc (int_max_signed (int_bits t))
