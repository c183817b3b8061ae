-- ===== src/Support/Decimal/Big.antt =====
-- `Big` of src/support/decimal.cpp: unsigned integers in limbs of 32 bits, the least significant first.
-- A number is the list of its limbs in use; the limbs above them are zero in the source. `none` stands
-- for the result false, at which the caller gives up.
pub mod Value
pub mod Exact
pub mod Length
use luce_seed.Base.{
  ℕ, zero, suc, ◌+◌, ◌-◌, ◌*◌, ◌/◌, ◌%◌, ◌^◌, Bool, true, false, not, List, [], ◌∷◌, ◌++◌, Option,
  none, some, ◌≡◌, refl, length, leb, ltb, ◌==◌, if◌then◌else◌, is_empty,
}
use luce_seed.Base.Words.{u32, u64}
use luce_seed.Lex.Keyword.{Order, less, more, same}

abbrev pub k_limbs : ℕ
k_limbs = 192

abbrev pub Limbs : Type 0
Limbs = List ℕ

-- `while (used > 0 && limb[used - 1] == 0) used--`
unfoldable pub strip : Limbs → Limbs
strip [] = []
strip (x ∷ xs) = elim (strip xs) [ [] ↦ if x == 0 then [] else x ∷ [] | y ∷ ys ↦ x ∷ y ∷ ys ]

-- The loop of `set`, with fuel: a value of 64 bits has two limbs.
unfoldable pub limbs_of : ℕ → ℕ → Limbs
limbs_of zero v = []
limbs_of (suc fuel) v = let rest = limbs_of fuel (v / 2 ^ 32) in if v == 0 then [] else u32 v ∷ rest

unfoldable pub set : ℕ → Limbs
set v = limbs_of 3 v

unfoldable pub is_zero : Limbs → Bool
is_zero limbs = is_empty limbs

-- The loop of `mul_add`: the new limbs and the carry behind them.
unfoldable pub mul_loop : ℕ → ℕ → Limbs → Limbs × ℕ
mul_loop m carry [] = ([], carry)
mul_loop m carry (x ∷ xs) =
    let t = u64 (x * m + carry) in
    let (rest, out) = mul_loop m (t / 2 ^ 32) xs in (u32 t ∷ rest, out)

unfoldable pub mul_add : Limbs → ℕ → ℕ → Option Limbs
mul_add limbs m a =
    let (rest, carry) = mul_loop m a limbs in
    if carry == 0
    then some rest
    else if length limbs == k_limbs
    then none
    else some (rest ++ u32 carry ∷ [])

-- The number of bits of a limb: `while (top != 0) { n++; top >>= 1; }`, with fuel.
unfoldable pub bits_in : ℕ → ℕ → ℕ
bits_in zero top = 0
bits_in (suc fuel) top = let rest = bits_in fuel (top / 2) in if top == 0 then 0 else suc rest

-- The top limb is the last of the list.
unfoldable pub bit_length : Limbs → ℕ
bit_length [] = 0
bit_length (x ∷ []) = bits_in 33 x
bit_length (x ∷ y ∷ ys) = 32 + bit_length (y ∷ ys)

-- The loop of `shift_left` for the bits below 32: a limb takes the high bits of the one below it, which
-- its own bits, moved up, do not meet; one more limb takes those of the top.
unfoldable pub shift_bits : ℕ → ℕ → Limbs → Limbs
shift_bits rest carry [] = carry ∷ []
shift_bits rest carry (x ∷ xs) =
    let t = u64 (x * 2 ^ rest) in (u32 t + carry) ∷ shift_bits rest (t / 2 ^ 32) xs

unfoldable pub zeros : ℕ → Limbs → Limbs
zeros zero limbs = limbs
zeros (suc words) limbs = 0 ∷ zeros words limbs

unfoldable pub shift_left : Limbs → ℕ → Option Limbs
shift_left limbs bits =
    let words = bits / 32 in
    if bits == 0
    then some limbs
    else if is_empty limbs
    then some limbs
    else if ltb k_limbs (length limbs + words + 1)
    then none
    else some (strip (zeros words (shift_bits (bits % 32) 0 limbs)))

-- The loop of `shift_right_one`: a limb takes the lowest bit of the one above it.
unfoldable pub halve : Limbs → Limbs
halve [] = []
halve (x ∷ []) = (x / 2) ∷ []
halve (x ∷ y ∷ ys) = (x / 2 + y % 2 * 2 ^ 31) ∷ halve (y ∷ ys)

unfoldable pub shift_right_one : Limbs → Limbs
shift_right_one limbs = strip (halve limbs)

-- The loop of `at_least` from the top, for numbers of equally many limbs.
unfoldable pub order : Limbs → Limbs → Order
order (x ∷ xs) (y ∷ ys) = elim (order xs ys) [
  | same ↦ if ltb x y then less else if ltb y x then more else same
  | less ↦ less
  | more ↦ more
]
order _ _ = same

unfoldable pub at_least : Limbs → Limbs → Bool
at_least a b =
    if not (length a == length b)
    then ltb (length b) (length a)
    else elim (order a b) [ less ↦ false | same ↦ true | more ↦ true ]

-- The loop of `subtract`; a limb that is missing counts as zero.
unfoldable pub subtract_loop : ℕ → Limbs → Limbs → Limbs
subtract_loop borrow [] ys = []
subtract_loop borrow (x ∷ xs) [] =
    let short = ltb x borrow in
    (if short then x + 2 ^ 32 - borrow else x - borrow)
    ∷ subtract_loop (if short then 1 else 0) xs []
subtract_loop borrow (x ∷ xs) (y ∷ ys) =
    let short = ltb x (y + borrow) in
    (if short then x + 2 ^ 32 - (y + borrow) else x - (y + borrow))
    ∷ subtract_loop (if short then 1 else 0) xs ys

unfoldable pub subtract : Limbs → Limbs → Limbs
subtract a b = strip (subtract_loop 0 a b)
