-- ===== src/Support/Literal/Exact.antt =====
-- `parse_int_literal` against exact arithmetic.
use luce_seed.Base.Words.{u64, u64-eq_of_le, u64_max}
use luce_seed.Base.{
  ℕ, ◌+◌, ◌-◌, ◌*◌, ◌/◌, ◌≤◌, ◌<◌, ◌≡◌, ◌⊎◌, inl, inr, refl, arith, Bool, true, false, not, ◌&&◌,
  Bool-cases, List, [], ◌∷◌, Option, none, some, Bytes, drop, ltb, leb, within, ◌==◌, if◌then◌else◌,
  is_empty,
}
use luce_seed.Support.Literal.{ParsedInt, digit_of, int_loop, no_int, parse_int_literal, radix}

-- A byte behind the separators: a digit of the base, the suffix, or neither.
pub data Piece : Type 0 where
  digit : ℕ → Piece
  suffix_start wrong : Piece

abbrev pub piece : ℕ → ℕ → Piece
piece base c = elim (digit_of c) [
  | some d ↦ if leb base d then Piece.wrong else Piece.digit d
  | none ↦ if within b'a' b'z' c then Piece.suffix_start else Piece.wrong
]

-- The digits of a spelling and its suffix, if each byte before the suffix is a digit or a separator.
abbrev pub consume : ℕ → Bytes → Piece → Option (List ℕ × Bytes) → Option (List ℕ × Bytes)
consume c rest (Piece.digit d) none = none
consume c rest (Piece.digit d) (some (ds, suffix)) = some (d ∷ ds, suffix)
consume c rest Piece.suffix_start later = some ([], c ∷ rest)
consume c rest Piece.wrong later = none

abbrev pub digits_of : ℕ → Bytes → Option (List ℕ × Bytes)
digits_of base [] = some ([], [])
digits_of base (c ∷ rest) =
    let later = digits_of base rest in
    if c == b'_' then later else consume c rest (piece base c) later

-- The number that the digits stand for, behind `acc`, without any bound.
abbrev pub number_from : ℕ → ℕ → List ℕ → ℕ
number_from base acc [] = acc
number_from base acc (d ∷ ds) = number_from base (acc * base + d) ds

-- What a parser gives that reads one digit at least and holds at most 64 bits.
abbrev pub read_exactly : ℕ → ℕ → Bool → Option (List ℕ × Bytes) → ParsedInt
read_exactly base acc any none = no_int
read_exactly base acc any (some (ds, suffix)) =
    if is_empty ds && not any
    then no_int
    else if ltb u64_max (number_from base acc ds)
    then no_int
    else record { is_ok = true; value = number_from base acc ds; suffix = suffix }

abbrev pub IsBase : ℕ → Type 0
IsBase base = (base ≡ 2) ⊎ ((base ≡ 8) ⊎ ((base ≡ 10) ⊎ (base ≡ 16)))

-- The test before the multiplication is exact.
overflow_test :
    (base value d : ℕ)
    → IsBase base
    → d < base
    → (((u64_max - d) / base < value) → u64_max < value * base + d)
      × ((value ≤ (u64_max - d) / base) → value * base + d ≤ u64_max)
overflow_test base value d (inl e) h = rw e (ground arith)
overflow_test base value d (inr (inl e)) h = rw e (ground arith)
overflow_test base value d (inr (inr (inl e))) h = rw e (ground arith)
overflow_test base value d (inr (inr (inr e))) h = rw e (ground arith)

scaled_le : (base acc : ℕ) → IsBase base → acc ≤ acc * base
scaled_le base acc (inl e) = rw e (omega arith)
scaled_le base acc (inr (inl e)) = rw e (omega arith)
scaled_le base acc (inr (inr (inl e))) = rw e (omega arith)
scaled_le base acc (inr (inr (inr e))) = rw e (omega arith)

number_from_le : (base : ℕ) → IsBase base → (acc : ℕ) (ds : List ℕ) → acc ≤ number_from base acc ds
number_from_le base b acc [] = omega arith
number_from_le base b acc (d ∷ ds) =
    omega (arith, scaled_le base acc b, number_from_le base b (acc * base + d) ds)

-- One byte of the loop, by what it is.
module _ (base : ℕ) (b : IsBase base) (value : ℕ) (any : Bool) (c : ℕ) (rest : Bytes) where
  digit_round :
      (d : ℕ)
      → d < base
      → ((v : ℕ)
          → v ≤ u64_max
          → int_loop base rest v true ≡ read_exactly base v true (digits_of base rest))
      → (if ltb ((u64_max - d) / base) value
          then no_int
          else int_loop base rest (u64 (value * base + d)) true)
        ≡ read_exactly base value any (consume c rest (Piece.digit d) (digits_of base rest))
  digit_round d h ih = elim (Bool-cases (ltb ((u64_max - d) / base) value)) [
    | inl over ↦
        rw over (
          refused (digits_of base rest) ((overflow_test base value d b h).0 (ground (arith, over))))
    | inr fits ↦
        let bound = (overflow_test base value d b h).1 (ground (arith, fits)) in
        rw (fits, u64-eq_of_le (value * base + d) bound, ih (value * base + d) bound)
          (taken (digits_of base rest))
  ]
    where
      refused :
          (later : Option (List ℕ × Bytes))
          → u64_max < value * base + d
          → no_int ≡ read_exactly base value any (consume c rest (Piece.digit d) later)
      refused none over = refl
      refused (some (ds, suffix)) over =
          let le = number_from_le base b (value * base + d) ds in ground (arith, le)

      taken :
          (later : Option (List ℕ × Bytes))
          → read_exactly base (value * base + d) true later
            ≡ read_exactly base value any (consume c rest (Piece.digit d) later)
      taken none = refl
      taken (some ([], suffix)) = refl
      taken (some (e ∷ ds, suffix)) = refl

-- What the loop does with a byte that is no separator.
module _ (base : ℕ) (b : IsBase base) (value : ℕ) (any : Bool) (c : ℕ) (rest : Bytes)
    (bound : value ≤ u64_max)
    (ih : (v : ℕ)
      → v ≤ u64_max
      → int_loop base rest v true ≡ read_exactly base v true (digits_of base rest)) where
  byte_round :
      (elim (digit_of c) [
        | some d ↦
            if leb base d
            then no_int
            else if ltb ((u64_max - d) / base) value
            then no_int
            else int_loop base rest (u64 (value * base + d)) true
        | none ↦
            if within b'a' b'z' c && any
            then record { is_ok = true; value = value; suffix = c ∷ rest }
            else no_int
      ])
      ≡ read_exactly base value any (consume c rest (piece base c) (digits_of base rest))
  byte_round = by_digit (digit_of c)
    where
      by_digit :
          (found : Option ℕ)
          → (elim found [
            | some d ↦
                if leb base d
                then no_int
                else if ltb ((u64_max - d) / base) value
                then no_int
                else int_loop base rest (u64 (value * base + d)) true
            | none ↦
                if within b'a' b'z' c && any
                then record { is_ok = true; value = value; suffix = c ∷ rest }
                else no_int
          ])
            ≡ read_exactly base value any (
                consume c rest
                  (elim found [
                    | some d ↦ if leb base d then Piece.wrong else Piece.digit d
                    | none ↦ if within b'a' b'z' c then Piece.suffix_start else Piece.wrong
                  ])
                  (digits_of base rest))
      by_digit none = ground arith
      by_digit (some d) = elim (Bool-cases (leb base d)) [
        | inl out ↦ rw out refl
        | inr fits ↦ rw fits (digit_round base b value any c rest d (ground (arith, fits)) ih)
      ]

int_loop-exact :
    (base : ℕ) (text : Bytes) (value : ℕ) (any : Bool)
    → IsBase base
    → value ≤ u64_max
    → int_loop base text value any ≡ read_exactly base value any (digits_of base text)
unfolding int_loop
int_loop-exact base [] value any b h = ground arith
int_loop-exact base (c ∷ rest) value any b h = elim (Bool-cases (c == b'_')) [
  | inl separator ↦ rw separator (int_loop-exact base rest value any b h)
  | inr other ↦
      rw other (byte_round base b value any c rest h (λ v i. int_loop-exact base rest v true b i))
]

radix-IsBase : (text : Bytes) → IsBase (radix text).0
unfolding radix
radix-IsBase text = ground arith

-- `parse_int_literal` reads a spelling as exact arithmetic does: behind the prefix of its base, it
-- accepts just the spellings of one digit at least whose digits, separators left out, stand for a
-- number of at most 64 bits, and gives this number and the suffix. No multiplication wraps round.
pub parse_int_literal-exact :
    (text : Bytes)
    → parse_int_literal text
      ≡ read_exactly (radix text).0 0 false (digits_of (radix text).0 (drop (radix text).1 text))
unfolding parse_int_literal
parse_int_literal-exact text =
    int_loop-exact (radix text).0 (drop (radix text).1 text) 0 false (radix-IsBase text)
      (omega arith)
