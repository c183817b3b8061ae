-- ===== src/Check/Layout/Exact.antt =====
-- The layout of a type in numbers without a bound.
use luce_seed.Base.{ℕ, ◌+◌, ◌-◌, ◌*◌, ◌%◌, Bool, leb, ltb, ◌==◌, if◌then◌else◌}
use luce_seed.Check.Kind.{TypeKind, pointer_bytes}
use luce_seed.Check.Layout.{
  Cases, Fields, Ty, Tys, array, atomic, cons, enum_case, enumeration, fallible, field, int_enum,
  nil, no_case, no_field, optional, plain, plain_size, structure, tuple, union,
}

unfoldable pub exact_pad_to : ℕ → ℕ → ℕ
exact_pad_to off align =
    let rem = off % align in
    if leb align 1 then off else if rem == 0 then off else off + (align - rem)

unfoldable pub exact_raise : ℕ → ℕ → ℕ
exact_raise align a = if ltb align a then a else align

-- The end of `exact_type_align`: the size, or 1.
unfoldable pub exact_size_or_one : ℕ → ℕ
exact_size_or_one n = if n == 0 then 1 else n

unfoldable pub exact_plain_align : TypeKind → ℕ
exact_plain_align TypeKind.pointer = pointer_bytes
exact_plain_align TypeKind.span = pointer_bytes
exact_plain_align TypeKind.str = pointer_bytes
exact_plain_align TypeKind.c_str = pointer_bytes
exact_plain_align TypeKind.allocator = pointer_bytes
exact_plain_align TypeKind.interface = pointer_bytes
exact_plain_align TypeKind.func = pointer_bytes
exact_plain_align k = exact_size_or_one (plain_size k)

-- `exact_field_align`, or 1 in a packed structure.
unfoldable pub exact_field_align : Bool → ℕ → ℕ → ℕ
exact_field_align packed natural raised =
    let a = exact_raise natural raised in if packed then 1 else if ltb a 1 then 1 else a

unfoldable mutual
  pub exact_type_size : Ty → ℕ
  exact_type_size (plain k) = plain_size k
  exact_type_size (array t n) = exact_type_size t * n
  exact_type_size (optional t) = exact_pad_to (exact_type_size t + 1) (exact_type_align t)
  exact_type_size (fallible t) =
      exact_pad_to (exact_pad_to (exact_type_size t) 8 + 24 + 1)
        (exact_raise 8 (exact_type_align t))
  exact_type_size (atomic t) = exact_type_size t
  exact_type_size (tuple ts) = exact_pad_to (exact_tuple_end 0 ts) (exact_tuple_align 1 ts)
  exact_type_size (structure packed align_to raised fs) =
      exact_pad_to (exact_fields_end packed 0 fs)
        (exact_raise (exact_raise (exact_fields_align packed 1 fs) raised) align_to)
  exact_type_size (union fs) = exact_pad_to (exact_union_end 0 fs) (exact_fields_align_natural 1 fs)
  exact_type_size (int_enum t) = exact_type_size t
  exact_type_size (enumeration cs) =
      exact_pad_to (exact_pad_to 4 (exact_cases_align 4 cs) + exact_cases_end 0 cs)
        (exact_cases_align 4 cs)

  pub exact_type_align : Ty → ℕ
  exact_type_align (plain k) = exact_plain_align k
  exact_type_align (array t n) = exact_type_align t
  exact_type_align (optional t) = exact_type_align t
  exact_type_align (fallible t) = exact_raise 8 (exact_type_align t)
  exact_type_align (atomic t) = exact_size_or_one (exact_type_size t)
  exact_type_align (tuple ts) = exact_tuple_align 1 ts
  exact_type_align (structure packed align_to raised fs) =
      exact_raise (exact_raise (exact_fields_align packed 1 fs) raised) align_to
  exact_type_align (union fs) = exact_fields_align_natural 1 fs
  exact_type_align (int_enum t) = exact_type_align t
  exact_type_align (enumeration cs) = exact_cases_align 4 cs

  -- The end of the components, from `size` on, and the greatest alignment.
  pub exact_tuple_end : ℕ → Tys → ℕ
  exact_tuple_end size nil = size
  exact_tuple_end size (cons t ts) =
      exact_tuple_end (exact_pad_to size (exact_type_align t) + exact_type_size t) ts

  pub exact_tuple_align : ℕ → Tys → ℕ
  exact_tuple_align align nil = align
  exact_tuple_align align (cons t ts) =
      exact_tuple_align (exact_raise align (exact_type_align t)) ts

  pub exact_fields_end : Bool → ℕ → Fields → ℕ
  exact_fields_end packed size no_field = size
  exact_fields_end packed size (field name t raised fs) =
      exact_fields_end packed
        (exact_pad_to size (exact_field_align packed (exact_type_align t) raised)
          + exact_type_size t)
        fs

  pub exact_fields_align : Bool → ℕ → Fields → ℕ
  exact_fields_align packed align no_field = align
  exact_fields_align packed align (field name t raised fs) =
      exact_fields_align packed
        (exact_raise align (exact_field_align packed (exact_type_align t) raised)) fs

  -- A union takes the greatest size, and looks at the alignments of the types alone.
  pub exact_union_end : ℕ → Fields → ℕ
  exact_union_end size no_field = size
  exact_union_end size (field name t raised fs) =
      exact_union_end (exact_raise size (exact_type_size t)) fs

  pub exact_fields_align_natural : ℕ → Fields → ℕ
  exact_fields_align_natural align no_field = align
  exact_fields_align_natural align (field name t raised fs) =
      exact_fields_align_natural (exact_raise align (exact_type_align t)) fs

  -- The greatest payload of a case, padded to its own alignment.
  pub exact_cases_end : ℕ → Cases → ℕ
  exact_cases_end size no_case = size
  exact_cases_end size (enum_case ts cs) =
      exact_cases_end
        (exact_raise size (exact_pad_to (exact_tuple_end 0 ts) (exact_tuple_align 1 ts))) cs

  pub exact_cases_align : ℕ → Cases → ℕ
  exact_cases_align align no_case = align
  exact_cases_align align (enum_case ts cs) =
      exact_cases_align (exact_raise align (exact_tuple_align 1 ts)) cs
