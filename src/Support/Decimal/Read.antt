-- ===== src/Support/Decimal/Read.antt =====
-- The reading loops of `decimal_to_bits` in src/support/decimal.cpp: the digits of the literal, its point and
-- its exponent.
use luce_seed.Base.{
  ℕ, ◌+◌, ◌-◌, ◌*◌, Bool, true, false, not, ◌&&◌, ◌||◌, List, [], ◌∷◌, Option, none, some, Bytes,
  ltb, ◌==◌, if◌then◌else◌, ◌>>=◌, within, is_empty,
}
use luce_seed.Base.Int.{ℤ, pos, ◌+ℤ◌, ◌-ℤ◌, neg_ℕ}

abbrev pub k_digit_cap : ℕ
k_digit_cap = 800

-- The digits that are kept, the last one first, how many they are, whether a digit other than zero was dropped,
-- and the decimal exponent of the digit behind the last one kept.
pub record Digits : Type 0 where
  pub kept : List ℕ
  pub count : ℕ
  pub sticky : Bool
  pub exponent : ℤ
  pub seen_digit : Bool
  pub seen_point : Bool

abbrev pub no_digits : Digits
no_digits = record {
  kept = [];
  count = 0;
  sticky = false;
  exponent = pos 0;
  seen_digit = false;
  seen_point = false;
}

-- One digit of the literal.
unfoldable pub take_digit : ℕ → Digits → Digits
take_digit c d =
    let exponent = if d.seen_point then d.exponent -ℤ pos 1 else d.exponent in
    let s : Digits = record d { seen_digit = true; exponent = exponent } in
    if (d.count == 0) && (c == b'0')
    then s
    else if ltb d.count k_digit_cap
    then record s { kept = (c - b'0') ∷ d.kept; count = d.count + 1 }
    else record s { exponent = exponent +ℤ pos 1; sticky = d.sticky || not (c == b'0') }

-- What a byte of the literal does to the loop: it goes on, stops at the exponent, or returns false.
pub data Next : Type 0 where
  go_on : Digits → Next
  stop bad : Next

unfoldable pub next_of : ℕ → Digits → Next
next_of c d =
    if c == b'_'
    then go_on d
    else if c == b'.'
    then (if d.seen_point then bad else go_on (record d { seen_point = true }))
    else if c == b'e' || c == b'E'
    then stop
    else if within b'0' b'9' c
    then go_on (take_digit c d)
    else bad

-- The loop over the digits, and the text from the `e` on, which is empty if there is none.
unfoldable pub read_digits : Bytes → Digits → Option (Digits × Bytes)
read_digits [] d = some (d, [])
read_digits (c ∷ cs) d = elim (next_of c d) [
  | go_on next ↦ read_digits cs next
  | stop ↦ some (d, c ∷ cs)
  | bad ↦ none
]

-- One byte of the exponent. Whatever is larger is an overflow or a zero.
unfoldable pub next_given : ℕ → ℕ → Option ℕ
next_given c given =
    if c == b'_'
    then some given
    else if within b'0' b'9' c
    then some (if ltb given 100000 then given * 10 + (c - b'0') else given)
    else none

-- The loop over the digits of the exponent.
unfoldable pub read_given : Bytes → ℕ → Option ℕ
read_given [] given = some given
read_given (c ∷ cs) given = elim (next_given c given) [
  | some next ↦ read_given cs next
  | none ↦ none
]

-- The exponent behind its sign.
unfoldable pub read_signed : Bool → Bytes → Option ℤ
read_signed negative text = if is_empty text then none else elim (read_given text 0) [
  | some given ↦ some (if negative then neg_ℕ given else pos given)
  | none ↦ none
]

-- The exponent that the literal gives, from its `e` on; zero if there is none.
unfoldable pub read_exponent : Bytes → Option ℤ
read_exponent [] = some (pos 0)
read_exponent (e ∷ []) = none
read_exponent (e ∷ c ∷ cs) =
    if c == b'+' || c == b'-' then read_signed (c == b'-') cs else read_signed false (c ∷ cs)

-- The digits and the exponent of the literal as a whole.
unfoldable pub read_decimal : Bytes → Option Digits
read_decimal text = do
  (d, rest) ← read_digits text no_digits
  if not d.seen_digit
      then none
      else do given ← read_exponent rest; some (record d { exponent = d.exponent +ℤ given })

-- The zeros at the end move into the exponent.
unfoldable pub fold_zeros : List ℕ → ℤ → List ℕ × ℤ
fold_zeros [] exponent = ([], exponent)
fold_zeros (c ∷ cs) exponent =
    let folded = fold_zeros cs (exponent +ℤ pos 1) in if c == 0 then folded else (c ∷ cs, exponent)
