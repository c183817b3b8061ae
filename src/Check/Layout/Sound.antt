-- ===== src/Check/Layout/Sound.antt =====
-- Alignments are powers of two that divide the sizes, for types in which each part asks for such a one.
use Prim.Native.Nat.{◌∣◌}
use luce_seed.Base.{
  ℕ, zero, suc, ◌%◌, ◌^◌, ◌≡◌, ◌⊎◌, inl, inr, refl, arith, Bool, true, false, ltb, ◌==◌,
}
use luce_seed.Check.Kind.{TypeKind}
use luce_seed.Check.Layout.Rounding.{IsPower, IsPower-positive, pad_to_bounds, raise-IsPower}
use luce_seed.Check.Layout.Exact.{
  exact_field_align, exact_pad_to, exact_plain_align, exact_raise, exact_size_or_one,
  exact_type_align, exact_type_size, exact_tuple_align, exact_fields_align,
  exact_fields_align_natural, exact_cases_align,
}
use luce_seed.Check.Layout.{
  Cases, Fields, Ty, Tys, array, atomic, cons, enum_case, enumeration, fallible, field, int_enum,
  nil, no_case, no_field, optional, plain, plain_size, structure, tuple, union,
}
use native.Mathlib.Nat.{dvd-mul_right_of_dvd, dvd_of_mod-eq-zero, dvd_refl}

-- The kinds whose size is a multiple of a power of two that is their alignment.
unfoldable pub is_regular : TypeKind → Bool
is_regular TypeKind.error_val = false
is_regular TypeKind.allocator = false
is_regular _ = true

-- An alignment that a literal asks for: none, or a power of two.
abbrev pub IsAsked : ℕ → Type 0
IsAsked n = (n ≡ 0) ⊎ IsPower n

abbrev mutual
  pub IsRegular : Ty → Type 0
  IsRegular (plain k) = is_regular k ≡ true
  IsRegular (array t n) = IsRegular t
  IsRegular (optional t) = IsRegular t
  IsRegular (fallible t) = IsRegular t
  IsRegular (atomic t) = IsRegular t × IsPower (exact_size_or_one (exact_type_size t))
  IsRegular (tuple ts) = AllRegular ts
  IsRegular (structure packed align_to raised fs) =
      IsAsked align_to × IsAsked raised × FieldsRegular fs
  IsRegular (union fs) = FieldsRegular fs
  IsRegular (int_enum t) = IsRegular t
  IsRegular (enumeration cs) = CasesRegular cs

  pub AllRegular : Tys → Type 0
  AllRegular nil = Unit
  AllRegular (cons t ts) = IsRegular t × AllRegular ts

  pub FieldsRegular : Fields → Type 0
  FieldsRegular no_field = Unit
  FieldsRegular (field name t raised fs) = IsRegular t × IsAsked raised × FieldsRegular fs

  pub CasesRegular : Cases → Type 0
  CasesRegular no_case = Unit
  CasesRegular (enum_case ts cs) = AllRegular ts × CasesRegular cs

plain_sound :
    (k : TypeKind)
    → is_regular k ≡ true
    → ((exact_plain_align k ≡ 2 ^ 0)
        ⊎ ((exact_plain_align k ≡ 2 ^ 1)
            ⊎ ((exact_plain_align k ≡ 2 ^ 2)
                ⊎ ((exact_plain_align k ≡ 2 ^ 3) ⊎ (exact_plain_align k ≡ 2 ^ 4)))))
      × (plain_size k % exact_plain_align k ≡ 0)
unfolding is_regular exact_plain_align plain_size exact_size_or_one
plain_sound k h = ground (arith, h)

small-IsPower :
    (a : ℕ)
    → ((a ≡ 2 ^ 0) ⊎ ((a ≡ 2 ^ 1) ⊎ ((a ≡ 2 ^ 2) ⊎ ((a ≡ 2 ^ 3) ⊎ (a ≡ 2 ^ 4)))))
    → IsPower a
small-IsPower a (inl e) = (0, e)
small-IsPower a (inr (inl e)) = (1, e)
small-IsPower a (inr (inr (inl e))) = (2, e)
small-IsPower a (inr (inr (inr (inl e)))) = (3, e)
small-IsPower a (inr (inr (inr (inr e)))) = (4, e)

pub raise-asked : {a n : ℕ} → IsPower a → IsAsked n → IsPower (exact_raise a n)
raise-asked {a} {n} p (inl zero_asked) = rw (zero_asked) (unfold exact_raise in ground (arith, p))
raise-asked p (inr q) = raise-IsPower p q

-- The alignment is a power of two and divides the size.
abbrev pub IsSound : ℕ → ℕ → Type 0
IsSound align size = IsPower align × (align ∣ size)

pub one-IsPower : IsPower 1
one-IsPower = (0, refl)

padded-IsSound : {align : ℕ} (size : ℕ) → IsPower align → IsSound align (exact_pad_to size align)
padded-IsSound {align} size p = (p, (pad_to_bounds size align (IsPower-positive p)).0)

pub field_align-IsPower :
    (packed : Bool) {natural raised : ℕ}
    → IsPower natural
    → IsAsked raised
    → IsPower (exact_field_align packed natural raised)
unfolding exact_field_align
field_align-IsPower true p q = one-IsPower
field_align-IsPower false {natural} {raised} p q =
    let power = raise-asked p q in
    let positive : ltb (exact_raise natural raised) 1 ≡ false =
      let one = IsPower-positive power in ground (arith, one) in
    rw positive power

size_divides : (n : ℕ) → exact_size_or_one n ∣ n
unfolding exact_size_or_one
size_divides zero = dvd_of_mod-eq-zero 1 (omega arith)
size_divides (suc n) = let e : (suc n == 0) ≡ false = ground arith in rw e (dvd_refl (suc n))

mutual
  unfolding exact_type_size exact_type_align

  pub sound : (t : Ty) → IsRegular t → IsSound (exact_type_align t) (exact_type_size t)
  sound (plain k) h =
      let s = plain_sound k h in
      (small-IsPower (exact_plain_align k) s.0, dvd_of_mod-eq-zero (exact_plain_align k) s.1)
  sound (array t n) h = let s = sound t h in (s.0, dvd-mul_right_of_dvd (exact_type_align t) s.1 n)
  sound (optional t) h = padded-IsSound _ (sound t h).0
  sound (fallible t) h = padded-IsSound _ (raise-IsPower (3, refl) (sound t h).0)
  sound (atomic t) h = (h.1, size_divides (exact_type_size t))
  sound (tuple ts) h = padded-IsSound _ (tuple-IsPower ts one-IsPower h)
  sound (structure packed align_to raised fs) h =
      padded-IsSound _
        (raise-asked (raise-asked (fields-IsPower packed fs one-IsPower h.2) h.1) h.0)
  sound (union fs) h = padded-IsSound _ (union-IsPower fs one-IsPower h)
  sound (int_enum t) h = sound t h
  sound (enumeration cs) h = padded-IsSound _ (cases-IsPower cs (2, refl) h)

  tuple-IsPower :
      (ts : Tys) {align : ℕ} → IsPower align → AllRegular ts → IsPower (exact_tuple_align align ts)
  tuple-IsPower nil p h = p
  tuple-IsPower (cons t ts) p h = tuple-IsPower ts (raise-IsPower p (sound t h.0).0) h.1

  pub fields-IsPower :
      (packed : Bool) (fs : Fields) {align : ℕ}
      → IsPower align
      → FieldsRegular fs
      → IsPower (exact_fields_align packed align fs)
  fields-IsPower packed no_field p h = p
  fields-IsPower packed (field name t raised fs) p h =
      fields-IsPower packed fs (raise-IsPower p (field_align-IsPower packed (sound t h.0).0 h.1))
        h.2

  union-IsPower :
      (fs : Fields) {align : ℕ}
      → IsPower align
      → FieldsRegular fs
      → IsPower (exact_fields_align_natural align fs)
  union-IsPower no_field p h = p
  union-IsPower (field name t raised fs) p h =
      union-IsPower fs (raise-IsPower p (sound t h.0).0) h.2

  cases-IsPower :
      (cs : Cases) {align : ℕ}
      → IsPower align
      → CasesRegular cs
      → IsPower (exact_cases_align align cs)
  cases-IsPower no_case p h = p
  cases-IsPower (enum_case ts cs) p h =
      cases-IsPower cs (raise-IsPower p (tuple-IsPower ts one-IsPower h.0)) h.1
