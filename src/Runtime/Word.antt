-- ===== src/Runtime/Word.antt =====
-- The word helpers of src/runtime/lucb_rt.h: a width's mask and bounds, and a word cut to its width.
use luce_seed.Base.Int.{ℤ, pos, negsuc, ltb_ℤ}
use luce_seed.Base.Words.{u64_max}
use luce_seed.Base.{ℕ, ◌+◌, ◌-◌, ◌%◌, ◌^◌, Bool, ◌||◌, String, leb, ◌==◌, if◌then◌else◌}
use luce_seed.Interp.Value.{to_i64, to_u64}

-- What a call gives, or the message that `lb_trap` stops the program with.
pub data Outcome {ℓ} (A : Type ℓ) : Type ℓ where
  done : A → Outcome A
  stop : String → Outcome A

infixl 5 ◌>>=◌
abbrev pub ◌>>=◌ {ℓ κ} : {A : Type ℓ} {B : Type κ} → Outcome A → (A → Outcome B) → Outcome B
done x >>= next = next x
stop message >>= next = stop message

-- A width below zero does not occur.
unfoldable pub mask_bits : ℕ → ℕ
mask_bits bits = if leb 64 bits then u64_max else if bits == 0 then 0 else 2 ^ bits - 1

unfoldable pub smin : ℕ → ℤ
smin bits =
    if bits == 0
    then pos 0
    else if leb 64 bits
    then negsuc (2 ^ 63 - 1)
    else negsuc (2 ^ (bits - 1) - 1)

unfoldable pub smax : ℕ → ℤ
smax bits =
    if bits == 0 then pos 0 else if leb 64 bits then pos (2 ^ 63 - 1) else pos (2 ^ (bits - 1) - 1)

-- `a & mask_bits(bits)`: the mask is one less than a power of two.
unfoldable pub zext : ℕ → ℕ → ℕ
zext a bits = a % (mask_bits bits + 1)

-- The sign bit is the greatest one that the mask leaves, and `~mask_bits(bits)` the bits above it.
unfoldable pub sext : ℤ → ℕ → ℤ
sext a bits =
    let u = zext (to_u64 a) bits in
    if bits == 0
    then pos 0
    else if leb 64 bits
    then a
    else if leb (2 ^ (bits - 1)) u
    then to_i64 (u + (u64_max - mask_bits bits))
    else to_i64 u

-- `overflow || r < smin(bits) || r > smax(bits)`
unfoldable pub is_outside : ℤ × Bool → ℕ → Bool
is_outside (r, overflow) bits = overflow || ltb_ℤ r (smin bits) || ltb_ℤ (smax bits) r
