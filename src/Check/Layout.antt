-- ===== src/Check/Layout.antt =====
-- `type_size`, `type_align`, `layout_struct` and `type_offset` of src/check/type.cpp. A type is the tree
-- that they look at: nothing behind a pointer, a span or a function, and of a declaration its fields or
-- cases. An `int` is its 32 bits, as a number below 2^32.
pub mod Exact
pub mod Fits
pub mod Computed
pub mod Rounding
pub mod Sound
pub mod Places
use luce_seed.Base.Words.{u32}
use luce_seed.Base.{ℕ, ◌+◌, ◌-◌, ◌*◌, ◌%◌, ◌^◌, Bool, Bytes, bytes_eq, ltb, ◌==◌, if◌then◌else◌}
use luce_seed.Check.Kind.{TypeKind, pointer_bytes}

mutual
  -- A structure has its `packed` flag, `align_to`, and the alignment that a literal of its declaration
  -- asks for; a field has the one that its own literal asks for. 0 asks for none.
  pub data Ty : Type 0 where
    plain : TypeKind → Ty
    array : Ty → ℕ → Ty
    optional fallible atomic : Ty → Ty
    tuple : Tys → Ty
    structure : Bool → ℕ → ℕ → Fields → Ty
    union : Fields → Ty
    int_enum : Ty → Ty
    enumeration : Cases → Ty

  pub data Tys : Type 0 where
    nil : Tys
    cons : Ty → Tys → Tys

  pub data Fields : Type 0 where
    no_field : Fields
    field : Bytes → Ty → ℕ → Fields → Fields

  pub data Cases : Type 0 where
    no_case : Cases
    enum_case : Tys → Cases → Cases

-- `<` on `int`: the sign bit counts down.
unfoldable pub lt_int : ℕ → ℕ → Bool
lt_int a b = ltb (u32 (a + 2 ^ 31)) (u32 (b + 2 ^ 31))

-- `off % align` for an alignment above 0: the sign of the remainder is that of `off`.
unfoldable pub rem_int : ℕ → ℕ → ℕ
rem_int off align = if ltb off (2 ^ 31) then off % align else u32 (2 ^ 32 - (2 ^ 32 - off) % align)

unfoldable pub pad_to : ℕ → ℕ → ℕ
pad_to off align =
    let rem = rem_int off align in
    if lt_int 1 align
    then (if rem == 0 then off else u32 (off + u32 (align + (2 ^ 32 - rem))))
    else off

-- `if (a > align) { align = a; }`
unfoldable pub raise : ℕ → ℕ → ℕ
raise align a = if lt_int align a then a else align

-- The sizes of the kinds without parts.
unfoldable pub plain_size : TypeKind → ℕ
plain_size TypeKind.boolean = 1
plain_size TypeKind.i8 = 1
plain_size TypeKind.u8 = 1
plain_size TypeKind.i16 = 2
plain_size TypeKind.u16 = 2
plain_size TypeKind.f16 = 2
plain_size TypeKind.i32 = 4
plain_size TypeKind.u32 = 4
plain_size TypeKind.f32 = 4
plain_size TypeKind.error_code = 4
plain_size TypeKind.i64 = 8
plain_size TypeKind.u64 = 8
plain_size TypeKind.f64 = 8
plain_size TypeKind.isize = pointer_bytes
plain_size TypeKind.usize = pointer_bytes
plain_size TypeKind.character = 4
plain_size TypeKind.str = pointer_bytes + pointer_bytes
plain_size TypeKind.pointer = pointer_bytes
plain_size TypeKind.c_str = pointer_bytes
plain_size TypeKind.func = pointer_bytes
plain_size TypeKind.allocator = pointer_bytes + 4
plain_size TypeKind.interface = pointer_bytes * 2
plain_size TypeKind.fmt = pointer_bytes + pointer_bytes
plain_size TypeKind.span = pointer_bytes + pointer_bytes
plain_size TypeKind.error_val = 4 + pointer_bytes + pointer_bytes
plain_size _ = 0

-- The end of `type_align`: the size, or 1.
unfoldable pub size_or_one : ℕ → ℕ
size_or_one n = if lt_int 0 n then n else 1

unfoldable pub plain_align : TypeKind → ℕ
plain_align TypeKind.pointer = pointer_bytes
plain_align TypeKind.span = pointer_bytes
plain_align TypeKind.str = pointer_bytes
plain_align TypeKind.c_str = pointer_bytes
plain_align TypeKind.allocator = pointer_bytes
plain_align TypeKind.interface = pointer_bytes
plain_align TypeKind.func = pointer_bytes
plain_align k = size_or_one (plain_size k)

-- `field_align`, or 1 in a packed structure.
unfoldable pub field_align : Bool → ℕ → ℕ → ℕ
field_align packed natural raised =
    let a = raise natural (u32 raised) in if packed then 1 else if lt_int a 1 then 1 else a

unfoldable mutual
  pub type_size : Ty → ℕ
  type_size (plain k) = plain_size k
  type_size (array t n) = u32 (type_size t * u32 n)
  type_size (optional t) = pad_to (u32 (type_size t + 1)) (type_align t)
  type_size (fallible t) = pad_to (u32 (pad_to (type_size t) 8 + 24 + 1)) (raise 8 (type_align t))
  type_size (atomic t) = type_size t
  type_size (tuple ts) = pad_to (tuple_end 0 ts) (tuple_align 1 ts)
  type_size (structure packed align_to raised fs) =
      pad_to (fields_end packed 0 fs)
        (raise (raise (fields_align packed 1 fs) (u32 raised)) align_to)
  type_size (union fs) = pad_to (union_end 0 fs) (fields_align_natural 1 fs)
  type_size (int_enum t) = type_size t
  type_size (enumeration cs) =
      pad_to (u32 (pad_to 4 (cases_align 4 cs) + cases_end 0 cs)) (cases_align 4 cs)

  pub type_align : Ty → ℕ
  type_align (plain k) = plain_align k
  type_align (array t n) = type_align t
  type_align (optional t) = type_align t
  type_align (fallible t) = raise 8 (type_align t)
  type_align (atomic t) = size_or_one (type_size t)
  type_align (tuple ts) = tuple_align 1 ts
  type_align (structure packed align_to raised fs) =
      raise (raise (fields_align packed 1 fs) (u32 raised)) align_to
  type_align (union fs) = fields_align_natural 1 fs
  type_align (int_enum t) = type_align t
  type_align (enumeration cs) = cases_align 4 cs

  -- The end of the components, from `size` on, and the greatest alignment.
  pub tuple_end : ℕ → Tys → ℕ
  tuple_end size nil = size
  tuple_end size (cons t ts) = tuple_end (u32 (pad_to size (type_align t) + type_size t)) ts

  pub tuple_align : ℕ → Tys → ℕ
  tuple_align align nil = align
  tuple_align align (cons t ts) = tuple_align (raise align (type_align t)) ts

  pub fields_end : Bool → ℕ → Fields → ℕ
  fields_end packed size no_field = size
  fields_end packed size (field name t raised fs) =
      fields_end packed (u32 (pad_to size (field_align packed (type_align t) raised) + type_size t))
        fs

  pub fields_align : Bool → ℕ → Fields → ℕ
  fields_align packed align no_field = align
  fields_align packed align (field name t raised fs) =
      fields_align packed (raise align (field_align packed (type_align t) raised)) fs

  -- A union takes the greatest size, and looks at the alignments of the types alone.
  pub union_end : ℕ → Fields → ℕ
  union_end size no_field = size
  union_end size (field name t raised fs) = union_end (raise size (type_size t)) fs

  pub fields_align_natural : ℕ → Fields → ℕ
  fields_align_natural align no_field = align
  fields_align_natural align (field name t raised fs) =
      fields_align_natural (raise align (type_align t)) fs

  -- The greatest payload of a case, padded to its own alignment.
  pub cases_end : ℕ → Cases → ℕ
  cases_end size no_case = size
  cases_end size (enum_case ts cs) =
      cases_end (raise size (pad_to (tuple_end 0 ts) (tuple_align 1 ts))) cs

  pub cases_align : ℕ → Cases → ℕ
  cases_align align no_case = align
  cases_align align (enum_case ts cs) = cases_align (raise align (tuple_align 1 ts)) cs

-- The offset of a field of a structure, from the result so far; the last field of the name counts.
unfoldable pub offset_in : Bool → ℕ → Bytes → Fields → ℕ → ℕ
unfolding type_size type_align
offset_in packed size want no_field found = found
offset_in packed size want (field name t raised fs) found =
    let at = pad_to size (field_align packed (type_align t) raised) in
    offset_in packed (u32 (at + type_size t)) want fs (if bytes_eq name want then at else found)

-- -1
abbrev pub no_offset : ℕ
no_offset = 2 ^ 32 - 1

unfoldable pub type_offset : Ty → Bytes → ℕ
type_offset (union fs) want = 0
type_offset (structure packed align_to raised fs) want = offset_in packed 0 want fs no_offset
type_offset _ want = no_offset
