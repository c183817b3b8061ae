-- ===== src/Check/Layout/Places.antt =====
-- Where the fields of a structure lie.
use Prim.Native.Nat.{◌∣◌}
use luce_seed.Base.{
  ℕ, ◌+◌, ◌≤◌, ◌≡◌, ◌≢◌, ◌↔◌, ◌⊎◌, inl, inr, refl, sym, arith, Bool, true, false, List, [], ◌∷◌,
  Bytes, bytes_eq, bytes_eq_iff, if◌then◌else◌,
}
use luce_seed.Check.Layout.Rounding.{
  IsPower, IsPower-dvd, IsPower-positive, pad_to_bounds, raise_le,
}
use luce_seed.Check.Layout.Sound.{FieldsRegular, IsRegular, field_align-IsPower, sound}
use luce_seed.Check.Layout.Computed.{computed, placed_lem}
use luce_seed.Check.Layout.Exact.{
  exact_field_align, exact_fields_align, exact_fields_end, exact_pad_to, exact_raise,
  exact_type_align, exact_type_size,
}
use luce_seed.Check.Layout.Fits.{FieldsFit, Fits, Fits-AreInts, field_align-IsInt, field_align_lem}
use luce_seed.Check.Layout.{
  Fields, field, no_field, no_offset, offset_in, structure, type_align, type_offset, type_size,
}

-- A field with the alignment that it is placed on.
pub record Place : Type 0 where
  pub name : Bytes
  pub offset : ℕ
  pub size : ℕ
  pub align : ℕ

-- The fields in order, each behind the one before.
abbrev pub places : Bool → ℕ → Fields → List Place
places packed size no_field = []
places packed size (field name t raised fs) =
    let align = exact_field_align packed (exact_type_align t) raised in
    let at = exact_pad_to size align in
    record { name = name; offset = at; size = exact_type_size t; align = align }
    ∷ places packed (at + exact_type_size t) fs

-- Each field begins where the one before it has ended, or behind, on a multiple of its alignment, which
-- divides that of the structure; and the last ends within the structure.
abbrev pub IsInOrder : ℕ → ℕ → ℕ → List Place → Type 0
IsInOrder low size align [] = low ≤ size
IsInOrder low size align (p ∷ rest) =
    (low ≤ p.offset)
    × (p.align ∣ p.offset)
    × (p.align ∣ align)
    × IsInOrder (p.offset + p.size) size align rest

fields_align_le :
    (packed : Bool) (fs : Fields) (align : ℕ) → align ≤ exact_fields_align packed align fs
unfolding exact_type_size
fields_align_le packed no_field align = omega arith
fields_align_le packed (field name t raised fs) align =
    let r = raise_le align (exact_field_align packed (exact_type_align t) raised) in
    omega (
      arith,
      r,
      fields_align_le packed fs
          (exact_raise align (exact_field_align packed (exact_type_align t) raised)),
    )

module _ (packed : Bool) (size align : ℕ) (whole : IsPower align) where
  in_order :
      (fs : Fields) (low so_far : ℕ)
      → FieldsRegular fs
      → exact_fields_end packed low fs ≤ size
      → exact_fields_align packed so_far fs ≤ align
      → IsInOrder low size align (places packed low fs)
  unfolding exact_type_size
  in_order no_field low so_far h e a = e
  in_order (field name t raised fs) low so_far h e a =
      let own = exact_field_align packed (exact_type_align t) raised in
      let power = field_align-IsPower packed (sound t h.0).0 h.1 in
      let pad = pad_to_bounds low own (IsPower-positive power) in
      let le = fields_align_le packed fs (exact_raise so_far own) in
      let r = raise_le so_far own in
      (
        pad.1,
        pad.0,
        IsPower-dvd power whole (omega (arith, le, r, a)),
        in_order fs (exact_pad_to low own + exact_type_size t) (exact_raise so_far own) h.2 e a,
      )

-- In a structure of regular fields, with every size, alignment and length below 2^31, each field begins behind
-- the one before it, on a multiple of its alignment, and ends within the structure; its alignment
-- divides that of the structure, which divides the structure's size.
pub structure-IsInOrder :
    (packed : Bool) (align_to raised : ℕ) (fs : Fields)
    → IsRegular (structure packed align_to raised fs)
    → Fits (structure packed align_to raised fs)
    → let s = structure packed align_to raised fs in
      IsInOrder 0 (type_size s) (type_align s) (places packed 0 fs) × (type_align s ∣ type_size s)
unfolding exact_type_size exact_type_align
structure-IsInOrder packed align_to raised fs h fits =
    let s = structure packed align_to raised fs in
    let (size, align) = computed s fits in
    let (power, divides) = sound s h in
    let own = exact_fields_align packed 1 fs in
    let a = raise_le own raised in
    let b = raise_le (exact_raise own raised) align_to in
    let pad =
      pad_to_bounds (exact_fields_end packed 0 fs) (exact_type_align s) (IsPower-positive power) in
    rw (size, align)
      (
        in_order packed (exact_type_size s) (exact_type_align s) power fs 0 1 h.2 pad.1
            (omega (arith, a, b)),
        divides,
      )

-- One of the fields has the name and begins at the offset.
abbrev pub IsPlacedAt : List Place → Bytes → ℕ → Type 0
IsPlacedAt [] want off = ⊥
IsPlacedAt (p ∷ rest) want off = ((p.name ≡ want) × (p.offset ≡ off)) ⊎ IsPlacedAt rest want off

abbrev pub IsUnnamed : List Place → Bytes → Type 0
IsUnnamed [] want = Unit
IsUnnamed (p ∷ rest) want = (p.name ≢ want) × IsUnnamed rest want

-- What the loop finds, from a result so far.
abbrev Found : List Place → Bytes → ℕ → ℕ → Type 0
Found ps want so_far off = ((off ≡ so_far) × IsUnnamed ps want) ⊎ IsPlacedAt ps want off

offset_in-Found :
    (packed : Bool) (want : Bytes) (fs : Fields) (size align so_far : ℕ)
    → FieldsFit packed size align fs
    → Found (places packed size fs) want so_far (offset_in packed size want fs so_far)
unfolding offset_in
offset_in-Found packed want no_field size align so_far h = inl (refl, tt)
offset_in-Found packed want (field name t raised fs) size align so_far
      (ints, sum, literal, h, rest) =
    let (own, natural) = computed t h in
    let bound = Fits-AreInts t h in
    let asked = field_align_lem packed (exact_type_align t) raised bound.1 literal in
    let small = field_align-IsInt packed (exact_type_align t) raised bound.1 literal in
    let (pad, next) = placed_lem size _ _ ints.0 small sum in
    rw (own, natural, asked, pad, next)
      (step (bytes_eq name want) (bytes_eq_iff name want) _
        (offset_in-Found packed want fs (at + exact_type_size t) _ _ rest))
  where
    at : ℕ
    at = exact_pad_to size (exact_field_align packed (exact_type_align t) raised)

    later : List Place
    later = places packed (at + exact_type_size t) fs

    step :
        (same : Bool)
        → ((same ≡ true) ↔ (name ≡ want))
        → (r : ℕ) → Found later want (if same then at else so_far) r
        → Found (places packed size (field name t raised fs)) want so_far r
    step true iff r (inl (e, u)) = inr (inl (iff.0 refl, sym e))
    step true iff r (inr p) = inr (inr p)
    step false iff r (inl (e, u)) = inl (e, (λ n. ground (arith, iff.1 n), u))
    step false iff r (inr p) = inr (inr p)

-- `type_offset` of a structure with every size, alignment and length below 2^31 gives the place of a field of
-- that name, or -1 where there is none.
pub type_offset-IsPlacedAt :
    (packed : Bool) (align_to raised : ℕ) (fs : Fields) (want : Bytes)
    → Fits (structure packed align_to raised fs)
    → let off = type_offset (structure packed align_to raised fs) want in
      ((off ≡ no_offset) × IsUnnamed (places packed 0 fs) want)
      ⊎ IsPlacedAt (places packed 0 fs) want off
unfolding type_offset
type_offset-IsPlacedAt packed align_to raised fs want fits =
    offset_in-Found packed want fs 0 1 no_offset fits.3
