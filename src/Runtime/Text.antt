-- ===== src/Runtime/Text.antt =====
-- The text helpers of src/runtime/lucb_rt.c. A text is its bytes, and `n` their number.
pub mod Valid
pub mod Scalar
use Prim.Native.Nat.{bit_and, bit_or, bit_xor}
use luce_seed.Base.Words.{u32, u64}
use luce_seed.Base.{
  ℕ, zero, suc, ◌+◌, ◌-◌, ◌*◌, ◌/◌, ◌^◌, Bool, true, false, not, ◌&&◌, Option, none, some, List, [],
  ◌∷◌, Bytes, length, get_or, ltb, leb, ◌==◌, if◌then◌else◌,
}
use luce_seed.Runtime.Word.{Outcome, done, stop}

-- The loop over the continuation bytes, `rounds` left, that refuses any other byte.
unfoldable pub tail : ℕ → Bytes → ℕ → ℕ → Option ℕ
tail zero s at cp = some cp
tail (suc rounds) s at cp =
    let x = get_or s at 0 in
    let rest = tail rounds s (at + 1) (bit_or (cp * 64) (bit_and x 0x3F)) in
    if not (bit_and x 0xC0 == 0x80) then none else rest

-- A round of `lb_utf8_ok` after the width and the first bits are chosen: the width, or a return of 0.
unfoldable pub ok_width : Bytes → ℕ → ℕ → ℕ → Option ℕ
ok_width s i w first =
    if ltb (length s) (i + w) then none else elim (tail (w - 1) s (i + 1) first) [
      | none ↦ none
      | some cp ↦
          if w == 2 && ltb cp 0x80
          then none
          else if w == 3 && ltb cp 0x800
          then none
          else if w == 4 && ltb cp 0x10000
          then none
          else if leb 0xD800 cp && leb cp 0xDFFF
          then none
          else if ltb 0x10FFFF cp
          then none
          else some w
    ]

unfoldable pub ok_round : Bytes → ℕ → Option ℕ
ok_round s i =
    let c = get_or s i 0 in
    if ltb c 0x80
    then ok_width s i 1 c
    else if bit_and c 0xE0 == 0xC0
    then ok_width s i 2 (bit_and c 0x1F)
    else if bit_and c 0xF0 == 0xE0
    then ok_width s i 3 (bit_and c 0x0F)
    else if bit_and c 0xF8 == 0xF0
    then ok_width s i 4 (bit_and c 0x07)
    else none

-- A round moves on by at least a byte, so that one round for each byte left is enough.
unfoldable pub ok_from : ℕ → Bytes → ℕ → Bool
ok_from zero s i = leb (length s) i
ok_from (suc fuel) s i =
    if leb (length s) i
    then true
    else elim (ok_round s i) [ none ↦ false | some w ↦ ok_from fuel s (i + w) ]

unfoldable pub utf8_ok : Bytes → Bool
utf8_ok s = ok_from (length s) s 0

unfoldable pub check_utf8 : Bytes → Outcome (Unit {0})
check_utf8 s = if utf8_ok s then done tt else stop "invalid_utf8"

-- The loop of `lb_utf8_scalar`, which tests no byte.
unfoldable pub scalar_tail : ℕ → Bytes → ℕ → ℕ → ℕ
scalar_tail zero s at cp = cp
scalar_tail (suc rounds) s at cp =
    scalar_tail rounds s (at + 1) (u32 (bit_or (cp * 64) (bit_and (get_or s at 0) 0x3F)))

-- A width that the text is too short for is cut to what is left.
unfoldable pub scalar_of : Bytes → ℕ → ℕ → ℕ → ℕ × ℕ
scalar_of s i w first =
    let width = if ltb (length s) (i + w) then length s - i else w in
    (width, scalar_tail (width - 1) s (i + 1) first)

-- `lb_utf8_scalar`: the width, and the scalar value.
unfoldable pub utf8_scalar : Bytes → ℕ → ℕ × ℕ
utf8_scalar s i =
    let c = get_or s i 0 in
    if leb 0xF0 c
    then scalar_of s i 4 (bit_and c 0x07)
    else if leb 0xE0 c
    then scalar_of s i 3 (bit_and c 0x0F)
    else if leb 0xC0 c
    then scalar_of s i 2 (bit_and c 0x1F)
    else scalar_of s i 1 c
