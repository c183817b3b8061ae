-- ===== src/Check/Layout/Computed.antt =====
-- What `type_size` and `type_align` compute in `int` is the exact size and alignment of a type that fits.
use luce_seed.Base.{ℕ, ◌+◌, ◌*◌, ◌≡◌, refl, arith, Bool}
use luce_seed.Base.Words.{u32}
use luce_seed.Check.Layout.Exact.{
  exact_cases_align, exact_cases_end, exact_fields_align, exact_fields_align_natural,
  exact_fields_end, exact_pad_to, exact_plain_align, exact_raise, exact_tuple_align,
  exact_tuple_end, exact_type_align, exact_type_size, exact_union_end,
}
use luce_seed.Check.Layout.Fits.{
  CasesFit, FieldsFit, Fits, Fits-AreInts, IsInt, TupleFits, UnionFits, field_align-IsInt,
  field_align_lem, left-IsInt, pad_to_lem, plain-AreInts, raise-IsInt, raise_lem, size_or_one_lem,
  word_lem,
}
use luce_seed.Check.Kind.{TypeKind}
use luce_seed.Check.Layout.{
  Cases, Fields, Ty, Tys, array, atomic, cases_align, cases_end, cons, enum_case, enumeration,
  fallible, field, fields_align, fields_align_natural, fields_end, int_enum, nil, no_case, no_field,
  optional, pad_to, plain, plain_align, plain_size, structure, tuple, tuple_align, tuple_end,
  type_align, type_size, union, union_end,
}

-- The size is padded to the alignment, and a part is placed behind it.
pub placed_lem :
    (size align own : ℕ)
    → IsInt size
    → IsInt align
    → IsInt (exact_pad_to size align + own)
    → (pad_to size align ≡ exact_pad_to size align)
      × (u32 (exact_pad_to size align + own) ≡ exact_pad_to size align + own)
placed_lem size align own hs ha hp =
    (pad_to_lem size align hs ha (left-IsInt (exact_pad_to size align) own hp), word_lem _ hp)

plain_lem : (k : TypeKind) → plain_align k ≡ exact_plain_align k
unfolding plain_align exact_plain_align exact_type_size
plain_lem k = let one = size_or_one_lem (plain_size k) (plain-AreInts k).0 in ground (arith, one)

mutual
  unfolding type_size type_align exact_type_size exact_type_align

  pub computed :
      (t : Ty) → Fits t → (type_size t ≡ exact_type_size t) × (type_align t ≡ exact_type_align t)
  computed (plain k) h = (refl, plain_lem k)
  computed (array t n) (bound, count, h) =
      let (size, align) = computed t h in
      (rw (size, word_lem n count) (word_lem (exact_type_size t * n) bound.0), align)
  computed (optional t) (bound, sum, h) =
      let (size, align) = computed t h in
      (
        rw (size, align, word_lem _ sum)
            (pad_to_lem (exact_type_size t + 1) (exact_type_align t) sum bound.1 bound.0),
        align,
      )
  computed (fallible t) (bound, sum, h) =
      let (size, align) = computed t h in
      let own = Fits-AreInts t h in
      let eight : IsInt 8 = omega arith in
      let value : IsInt (exact_pad_to (exact_type_size t) 8) = omega (arith, sum) in
      let raised = raise_lem 8 (exact_type_align t) eight own.1 in
      (
        rw (size, align, pad_to_lem (exact_type_size t) 8 own.0 eight value, word_lem _ sum, raised)
            (pad_to_lem _ _ sum bound.1 bound.0),
        rw align raised,
      )
  computed (atomic t) (bound, h) =
      let (size, align) = computed t h in
      (size, rw size (size_or_one_lem (exact_type_size t) bound.0))
  computed (tuple ts) (bound, h) =
      let (size, align, whole, power) = tuple_computed 0 1 ts h in
      (rw (size, align) (pad_to_lem _ _ whole bound.1 bound.0), align)
  computed (structure packed align_to raised fs) (bound, to, literal, h) =
      let (size, align, whole, own) = fields_computed packed 0 1 fs h in
      let first = raise_lem _ raised own literal in
      let second =
        raise_lem (exact_raise (exact_fields_align packed 1 fs) raised) align_to
          (raise-IsInt (exact_fields_align packed 1 fs) raised own literal) to in
      (
        rw (size, align, word_lem raised literal, first, second)
            (pad_to_lem _ _ whole bound.1 bound.0),
        rw (align, word_lem raised literal, first) second,
      )
  computed (union fs) (bound, h) =
      let (size, align, whole, power) = union_computed 0 1 fs h in
      (rw (size, align) (pad_to_lem _ _ whole bound.1 bound.0), align)
  computed (int_enum t) (bound, h) = computed t h
  computed (enumeration cs) (bound, sum, h) =
      let (size, align) = cases_computed 0 4 cs h in
      let four : IsInt 4 = omega arith in
      let (tag, whole) = placed_lem 4 (exact_cases_align 4 cs) _ four bound.1 sum in
      (rw (size, align, tag, whole) (pad_to_lem _ _ sum bound.1 bound.0), align)

  -- The end and the alignment of a tuple, and that they are `int`.
  tuple_computed :
      (size align : ℕ) (ts : Tys)
      → TupleFits size align ts
      → (tuple_end size ts ≡ exact_tuple_end size ts)
        × (tuple_align align ts ≡ exact_tuple_align align ts)
        × IsInt (exact_tuple_end size ts)
        × IsInt (exact_tuple_align align ts)
  tuple_computed size align nil h = (refl, refl, h.0, h.1)
  tuple_computed size align (cons t ts) (so_far, sum, h, rest) =
      let (own, natural) = computed t h in
      let bound = Fits-AreInts t h in
      let (pad, next) = placed_lem size (exact_type_align t) _ so_far.0 bound.1 sum in
      let raised = raise_lem align (exact_type_align t) so_far.1 bound.1 in
      rw (own, natural, pad, next, raised) (tuple_computed _ _ ts rest)

  fields_computed :
      (packed : Bool) (size align : ℕ) (fs : Fields)
      → FieldsFit packed size align fs
      → (fields_end packed size fs ≡ exact_fields_end packed size fs)
        × (fields_align packed align fs ≡ exact_fields_align packed align fs)
        × IsInt (exact_fields_end packed size fs)
        × IsInt (exact_fields_align packed align fs)
  fields_computed packed size align no_field h = (refl, refl, h.0, h.1)
  fields_computed packed size align (field name t raised fs) (so_far, sum, literal, h, rest) =
      let (own, natural) = computed t h in
      let bound = Fits-AreInts t h in
      let asked = field_align_lem packed (exact_type_align t) raised bound.1 literal in
      let small = field_align-IsInt packed (exact_type_align t) raised bound.1 literal in
      let (pad, next) = placed_lem size _ _ so_far.0 small sum in
      let up = raise_lem align _ so_far.1 small in
      rw (own, natural, asked, pad, next, up) (fields_computed packed _ _ fs rest)

  union_computed :
      (size align : ℕ) (fs : Fields)
      → UnionFits size align fs
      → (union_end size fs ≡ exact_union_end size fs)
        × (fields_align_natural align fs ≡ exact_fields_align_natural align fs)
        × IsInt (exact_union_end size fs)
        × IsInt (exact_fields_align_natural align fs)
  union_computed size align no_field h = (refl, refl, h.0, h.1)
  union_computed size align (field name t raised fs) (so_far, h, rest) =
      let (own, natural) = computed t h in
      let bound = Fits-AreInts t h in
      let greater = raise_lem size (exact_type_size t) so_far.0 bound.0 in
      let up = raise_lem align (exact_type_align t) so_far.1 bound.1 in
      rw (own, natural, greater, up) (union_computed _ _ fs rest)

  cases_computed :
      (size align : ℕ) (cs : Cases)
      → CasesFit size align cs
      → (cases_end size cs ≡ exact_cases_end size cs)
        × (cases_align align cs ≡ exact_cases_align align cs)
  cases_computed size align no_case h = (refl, refl)
  cases_computed size align (enum_case ts cs) (so_far, sum, h, rest) =
      let (own, natural, whole, power) = tuple_computed 0 1 ts h in
      let pad = pad_to_lem (exact_tuple_end 0 ts) (exact_tuple_align 1 ts) whole power sum in
      let greater = raise_lem size _ so_far.0 sum in
      let up = raise_lem align _ so_far.1 power in
      rw (own, natural, pad, greater, up) (cases_computed _ _ cs rest)
