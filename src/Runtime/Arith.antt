-- ===== src/Runtime/Arith.antt =====
-- The integer helpers of src/runtime/lucb_rt.h and src/runtime/lucb_rt.c. An `int64_t` is a number of ℤ,
-- a `uint64_t` one of ℕ, and a helper that traps gives an `Outcome`.
use luce_seed.Base.Int.{ℤ, pos, negsuc, ◌+ℤ◌, ◌-ℤ◌, ◌*ℤ◌, eqb_ℤ, is_negative, tdiv, tmod}
use luce_seed.Base.Words.{u64, u64_max}
use luce_seed.Base.{
  ℕ, ◌+◌, ◌-◌, ◌*◌, ◌/◌, ◌%◌, ◌^◌, Bool, not, ◌&&◌, Option, none, some, ltb, leb, ◌==◌,
  if◌then◌else◌,
}
use luce_seed.Interp.Arith.{cut, differ, shifted_right}
use luce_seed.Interp.Value.{to_i64, to_u64}
use luce_seed.Runtime.Word.{Outcome, done, is_outside, mask_bits, sext, smax, smin, stop, zext}

-- The result of a builtin that reports overflow, where it is a number of the width.
unfoldable pub checked : ℤ → ℕ → Outcome ℤ
checked exact bits =
    if is_outside (cut exact) bits then stop "integer overflow" else done (cut exact).0

unfoldable pub add_s : ℤ → ℤ → ℕ → Outcome ℤ
add_s a b bits = checked (sext a bits +ℤ sext b bits) bits

unfoldable pub sub_s : ℤ → ℤ → ℕ → Outcome ℤ
sub_s a b bits = checked (sext a bits -ℤ sext b bits) bits

unfoldable pub mul_s : ℤ → ℤ → ℕ → Outcome ℤ
mul_s a b bits = checked (sext a bits *ℤ sext b bits) bits

unfoldable pub add_u : ℕ → ℕ → ℕ → Outcome ℕ
add_u a b bits =
    let x = zext a bits in
    let y = zext b bits in
    let r = u64 (x + y) in
    if leb 64 bits
    then (if ltb (u64_max - y) x then stop "integer overflow" else done r)
    else if ltb (mask_bits bits) r
    then stop "integer overflow"
    else done r

unfoldable pub sub_u : ℕ → ℕ → ℕ → Outcome ℕ
sub_u a b bits =
    let x = zext a bits in
    let y = zext b bits in if ltb x y then stop "integer overflow" else done (x - y)

-- `b != 0 && a > mask_bits(bits) / b`
unfoldable pub product_is_outside : ℕ → ℕ → ℕ → Bool
product_is_outside a b bits = not (b == 0) && ltb (mask_bits bits / b) a

unfoldable pub mul_u : ℕ → ℕ → ℕ → Outcome ℕ
mul_u a b bits =
    let x = zext a bits in
    let y = zext b bits in
    if product_is_outside x y bits then stop "integer overflow" else done (zext (u64 (x * y)) bits)

unfoldable pub div_s : ℤ → ℤ → ℕ → Outcome ℤ
div_s a b bits =
    let x = sext a bits in
    let y = sext b bits in
    if eqb_ℤ y (pos 0)
    then stop "division by zero"
    else if eqb_ℤ x (smin bits) && eqb_ℤ y (negsuc 0)
    then stop "integer overflow"
    else done (tdiv x y)

unfoldable pub div_u : ℕ → ℕ → ℕ → Outcome ℕ
div_u a b bits =
    let y = zext b bits in if y == 0 then stop "division by zero" else done (zext a bits / y)

unfoldable pub mod_s : ℤ → ℤ → ℕ → Outcome ℤ
mod_s a b bits =
    let x = sext a bits in
    let y = sext b bits in
    if eqb_ℤ y (pos 0)
    then stop "division by zero"
    else if eqb_ℤ x (smin bits) && eqb_ℤ y (negsuc 0)
    then stop "integer overflow"
    else done (tmod x y)

unfoldable pub mod_u : ℕ → ℕ → ℕ → Outcome ℕ
mod_u a b bits =
    let y = zext b bits in if y == 0 then stop "division by zero" else done (zext a bits % y)

-- The `lb_q` helpers answer 0 in place of a trap, and write `*out` only where they answer 1.
unfoldable pub quiet : ℤ → ℕ → Option ℤ
quiet exact bits = if is_outside (cut exact) bits then none else some (cut exact).0

unfoldable pub qadd_s : ℤ → ℤ → ℕ → Option ℤ
qadd_s a b bits = quiet (sext a bits +ℤ sext b bits) bits

unfoldable pub qadd_u : ℕ → ℕ → ℕ → Option ℕ
qadd_u a b bits =
    let x = zext a bits in
    let y = zext b bits in
    let r = u64 (x + y) in
    if leb 64 bits
    then (if ltb (u64_max - y) x then none else some r)
    else if ltb (mask_bits bits) r
    then none
    else some r

unfoldable pub qsub_s : ℤ → ℤ → ℕ → Option ℤ
qsub_s a b bits = quiet (sext a bits -ℤ sext b bits) bits

unfoldable pub qsub_u : ℕ → ℕ → ℕ → Option ℕ
qsub_u a b bits =
    let x = zext a bits in let y = zext b bits in if ltb x y then none else some (x - y)

unfoldable pub qmul_s : ℤ → ℤ → ℕ → Option ℤ
qmul_s a b bits = quiet (sext a bits *ℤ sext b bits) bits

unfoldable pub qmul_u : ℕ → ℕ → ℕ → Option ℕ
qmul_u a b bits =
    let x = zext a bits in
    let y = zext b bits in
    if product_is_outside x y bits then none else some (zext (u64 (x * y)) bits)

unfoldable pub neg_s : ℤ → ℕ → Outcome ℤ
neg_s a bits =
    let x = sext a bits in
    if eqb_ℤ x (smin bits) then stop "integer overflow" else done (pos 0 -ℤ x)

-- `sext((int64_t)(r & mask_bits(bits)), bits)`
unfoldable pub wrapped : ℕ → ℕ → ℤ
wrapped r bits = sext (to_i64 (zext r bits)) bits

unfoldable pub addw_s : ℤ → ℤ → ℕ → ℤ
addw_s a b bits = wrapped (u64 (to_u64 (sext a bits) + to_u64 (sext b bits))) bits

unfoldable pub addw_u : ℕ → ℕ → ℕ → ℕ
addw_u a b bits = zext (u64 (a + b)) bits

unfoldable pub subw_s : ℤ → ℤ → ℕ → ℤ
subw_s a b bits = wrapped (u64 (to_u64 (sext a bits) + 2 ^ 64 - to_u64 (sext b bits))) bits

unfoldable pub subw_u : ℕ → ℕ → ℕ → ℕ
subw_u a b bits = zext (u64 (a + 2 ^ 64 - b)) bits

unfoldable pub mulw_s : ℤ → ℤ → ℕ → ℤ
mulw_s a b bits = wrapped (u64 (to_u64 (sext a bits) * to_u64 (sext b bits))) bits

unfoldable pub mulw_u : ℕ → ℕ → ℕ → ℕ
mulw_u a b bits = zext (u64 (a * b)) bits

unfoldable pub negw_s : ℤ → ℕ → ℤ
negw_s a bits = wrapped (u64 (2 ^ 64 - to_u64 (sext a bits))) bits

unfoldable pub negw_u : ℕ → ℕ → ℕ
negw_u a bits = zext (u64 (2 ^ 64 - zext a bits)) bits

unfoldable pub saturated : Bool → ℤ → ℕ → ℤ
saturated low exact bits =
    if is_outside (cut exact) bits then (if low then smin bits else smax bits) else (cut exact).0

unfoldable pub adds_s : ℤ → ℤ → ℕ → ℤ
adds_s a b bits = let x = sext a bits in saturated (is_negative x) (x +ℤ sext b bits) bits

unfoldable pub adds_u : ℕ → ℕ → ℕ → ℕ
adds_u a b bits =
    let x = zext a bits in
    let y = zext b bits in
    let r = u64 (x + y) in
    if leb 64 bits
    then (if ltb (u64_max - y) x then u64_max else r)
    else if ltb (mask_bits bits) r
    then mask_bits bits
    else r

unfoldable pub subs_s : ℤ → ℤ → ℕ → ℤ
subs_s a b bits = let x = sext a bits in saturated (is_negative x) (x -ℤ sext b bits) bits

unfoldable pub subs_u : ℕ → ℕ → ℕ → ℕ
subs_u a b bits = let x = zext a bits in let y = zext b bits in if ltb x y then 0 else x - y

unfoldable pub muls_s : ℤ → ℤ → ℕ → ℤ
muls_s a b bits =
    let x = sext a bits in
    let y = sext b bits in saturated (differ (is_negative x) (is_negative y)) (x *ℤ y) bits

unfoldable pub muls_u : ℕ → ℕ → ℕ → ℕ
muls_u a b bits =
    let x = zext a bits in
    let y = zext b bits in
    if product_is_outside x y bits then mask_bits bits else zext (u64 (x * y)) bits

unfoldable pub shl_s : ℤ → ℕ → ℕ → Outcome ℤ
shl_s a n bits =
    if leb bits n
    then stop "shift count out of range"
    else done (wrapped (u64 (to_u64 (sext a bits) * 2 ^ n)) bits)

unfoldable pub shl_u : ℕ → ℕ → ℕ → Outcome ℕ
shl_u a n bits =
    if leb bits n
    then stop "shift count out of range"
    else done (zext (u64 (zext a bits * 2 ^ n)) bits)

unfoldable pub shr_s : ℤ → ℕ → ℕ → Outcome ℤ
shr_s a n bits =
    if leb bits n then stop "shift count out of range" else done (shifted_right (sext a bits) n)

unfoldable pub shr_u : ℕ → ℕ → ℕ → Outcome ℕ
shr_u a n bits = if leb bits n then stop "shift count out of range" else done (zext a bits / 2 ^ n)

unfoldable pub not_u : ℕ → ℕ → ℕ
not_u a bits = zext (u64_max - u64 a) bits
