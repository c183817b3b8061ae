-- ===== src/Check/Layout/Fits.antt =====
-- Where every number that the layout computes with is below 2^31, `int` computes the exact layout.
use luce_seed.Base.{ℕ, zero, suc, ◌+◌, ◌^◌, ◌<◌, ◌≡◌, refl, arith, Bool, ltb}
use luce_seed.Base.Words.{u32}
use luce_seed.Check.Kind.{TypeKind}
use luce_seed.Check.Layout.Exact.{
  exact_cases_align, exact_cases_end, exact_field_align, exact_pad_to, exact_plain_align,
  exact_raise, exact_size_or_one, exact_tuple_align, exact_tuple_end, exact_type_align,
  exact_type_size,
}
use luce_seed.Check.Layout.{
  Cases, Fields, Ty, Tys, array, atomic, cons, enum_case, enumeration, fallible, field, field_align,
  int_enum, lt_int, nil, no_case, no_field, optional, pad_to, plain, plain_size, raise, rem_int,
  size_or_one, structure, tuple, union,
}
use native.Mathlib.Nat.{mod-lt}

-- What an `int` that is not negative holds.
abbrev pub IsInt : ℕ → Type 0
IsInt n = n < 2 ^ 31

-- The size and the alignment of a type.
abbrev pub AreInts : Ty → Type 0
AreInts t = IsInt (exact_type_size t) × IsInt (exact_type_align t)

-- Every size, alignment and length on the way is an `int`.
abbrev mutual
  pub Fits : Ty → Type 0
  Fits (plain k) = Unit
  Fits (array t n) = AreInts (array t n) × IsInt n × Fits t
  Fits (optional t) = AreInts (optional t) × IsInt (exact_type_size t + 1) × Fits t
  Fits (fallible t) =
      AreInts (fallible t) × IsInt (exact_pad_to (exact_type_size t) 8 + 24 + 1) × Fits t
  Fits (atomic t) = AreInts (atomic t) × Fits t
  Fits (tuple ts) = AreInts (tuple ts) × TupleFits 0 1 ts
  Fits (structure packed align_to raised fs) =
      AreInts (structure packed align_to raised fs)
      × IsInt align_to
      × IsInt raised
      × FieldsFit packed 0 1 fs
  Fits (union fs) = AreInts (union fs) × UnionFits 0 1 fs
  Fits (int_enum t) = AreInts (int_enum t) × Fits t
  Fits (enumeration cs) =
      AreInts (enumeration cs)
      × IsInt (exact_pad_to 4 (exact_cases_align 4 cs) + exact_cases_end 0 cs)
      × CasesFit 0 4 cs

  -- From a size and an alignment so far.
  pub TupleFits : ℕ → ℕ → Tys → Type 0
  TupleFits size align nil = IsInt size × IsInt align
  TupleFits size align (cons t ts) =
      (IsInt size × IsInt align)
      × IsInt (exact_pad_to size (exact_type_align t) + exact_type_size t)
      × Fits t
      × TupleFits (exact_pad_to size (exact_type_align t) + exact_type_size t)
          (exact_raise align (exact_type_align t)) ts

  pub FieldsFit : Bool → ℕ → ℕ → Fields → Type 0
  FieldsFit packed size align no_field = IsInt size × IsInt align
  FieldsFit packed size align (field name t raised fs) =
      (IsInt size × IsInt align)
      × IsInt (
          exact_pad_to size (exact_field_align packed (exact_type_align t) raised)
          + exact_type_size t)
      × IsInt raised
      × Fits t
      × FieldsFit packed
          (exact_pad_to size (exact_field_align packed (exact_type_align t) raised)
            + exact_type_size t)
          (exact_raise align (exact_field_align packed (exact_type_align t) raised)) fs

  pub UnionFits : ℕ → ℕ → Fields → Type 0
  UnionFits size align no_field = IsInt size × IsInt align
  UnionFits size align (field name t raised fs) =
      (IsInt size × IsInt align)
      × Fits t
      × UnionFits (exact_raise size (exact_type_size t)) (exact_raise align (exact_type_align t)) fs

  pub CasesFit : ℕ → ℕ → Cases → Type 0
  CasesFit size align no_case = IsInt size × IsInt align
  CasesFit size align (enum_case ts cs) =
      (IsInt size × IsInt align)
      × IsInt (exact_pad_to (exact_tuple_end 0 ts) (exact_tuple_align 1 ts))
      × TupleFits 0 1 ts
      × CasesFit (exact_raise size (exact_pad_to (exact_tuple_end 0 ts) (exact_tuple_align 1 ts)))
          (exact_raise align (exact_tuple_align 1 ts)) cs

pub word_lem : (n : ℕ) → IsInt n → u32 n ≡ n
unfolding u32
word_lem n h = omega (arith, h)

lt_int_lem : (a b : ℕ) → IsInt a → IsInt b → lt_int a b ≡ ltb a b
unfolding lt_int u32
lt_int_lem a b ha hb = ground (arith, ha, hb)

pub raise_lem : (a b : ℕ) → IsInt a → IsInt b → raise a b ≡ exact_raise a b
unfolding raise exact_raise
raise_lem a b ha hb = rw (lt_int_lem a b ha hb) refl

pub raise-IsInt : (a b : ℕ) → IsInt a → IsInt b → IsInt (exact_raise a b)
unfolding exact_raise
raise-IsInt a b ha hb = ground (arith, ha, hb)

pub size_or_one_lem : (n : ℕ) → IsInt n → size_or_one n ≡ exact_size_or_one n
unfolding size_or_one exact_size_or_one
size_or_one_lem n h = rw (lt_int_lem 0 n (omega arith) h) (ground arith)

pub field_align_lem :
    (packed : Bool) (a raised : ℕ)
    → IsInt a
    → IsInt raised
    → field_align packed a raised ≡ exact_field_align packed a raised
unfolding field_align exact_field_align
field_align_lem packed a raised ha hr =
    rw
      (
        word_lem raised hr,
        raise_lem a raised ha hr,
        lt_int_lem (exact_raise a raised) 1 (raise-IsInt a raised ha hr) (omega arith),
      )
      refl

pub field_align-IsInt :
    (packed : Bool) (a raised : ℕ)
    → IsInt a
    → IsInt raised
    → IsInt (exact_field_align packed a raised)
unfolding exact_field_align
field_align-IsInt packed a raised ha hr =
    let both = raise-IsInt a raised ha hr in ground (arith, both)

pub pad_to_lem :
    (off align : ℕ)
    → IsInt off
    → IsInt align
    → IsInt (exact_pad_to off align)
    → pad_to off align ≡ exact_pad_to off align
unfolding pad_to exact_pad_to rem_int u32
pad_to_lem off zero ho ha hp = rw (lt_int_lem 1 0 (omega arith) ha) (ground arith)
pad_to_lem off (suc align) ho ha hp =
    let below = mod-lt off {m = suc align} (omega arith) in
    rw (lt_int_lem 1 (suc align) (omega arith) ha) (ground (arith, ho, ha, hp, below))

-- A size to which another is added is one itself.
pub left-IsInt : (a b : ℕ) → IsInt (a + b) → IsInt a
left-IsInt a b h = omega (arith, h)

pub plain-AreInts : (k : TypeKind) → AreInts (plain k)
unfolding exact_type_size exact_plain_align exact_size_or_one plain_size
plain-AreInts k = ground arith

pub Fits-AreInts : (t : Ty) → Fits t → AreInts t
Fits-AreInts (plain k) h = plain-AreInts k
Fits-AreInts (array t n) h = h.0
Fits-AreInts (optional t) h = h.0
Fits-AreInts (fallible t) h = h.0
Fits-AreInts (atomic t) h = h.0
Fits-AreInts (tuple ts) h = h.0
Fits-AreInts (structure packed align_to raised fs) h = h.0
Fits-AreInts (union fs) h = h.0
Fits-AreInts (int_enum t) h = h.0
Fits-AreInts (enumeration cs) h = h.0
