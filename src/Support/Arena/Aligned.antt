-- ===== src/Support/Arena/Aligned.antt =====
-- The mask of `Arena::alloc` rounds up to a multiple of the alignment.
use Prim.Native.Nat.{bit_and}
use luce_seed.Base.Bits.{bit_and_digit, bit_and-zero_right, mod-double}
use luce_seed.Base.{ℕ, zero, suc, ◌+◌, ◌-◌, ◌*◌, ◌/◌, ◌%◌, ◌^◌, ◌≤◌, ◌<◌, ◌≡◌, sym, ◌∙◌, arith}
use luce_seed.Base.Words.{u64, u64-eq_of_le}
use luce_seed.Support.Arena.{aligned, cleared}
use native.Mathlib.Nat.{div-add-mod', mod-lt, two-pow-succ, one-le-pow, mod-one, mul-mod_left}

-- The low bits are the remainder.
pub bit_and-low : (k n : ℕ) → bit_and n (2 ^ k - 1) ≡ n % 2 ^ k
bit_and-low zero n = bit_and-zero_right n ∙ sym (mod-one n)
bit_and-low (suc k) n =
    let positive = one-le-pow k 2 (omega arith) in
    let double = two-pow-succ k in
    let half : (2 ^ suc k - 1) / 2 ≡ 2 ^ k - 1 = omega (arith, positive, double) in
    let odd : (2 ^ suc k - 1) % 2 ≡ 1 = omega (arith, positive, double) in
    bit_and_digit n (2 ^ suc k - 1)
    ∙ rw (half, odd, bit_and-low k (n / 2), double, mod-double n (2 ^ k) positive) (omega arith)

-- Rounding up without wrap-around. For an alignment that is a power of two the result is a multiple of it, no smaller than what was
-- used, and by less than the alignment greater.
pub cleared_bounds :
    (used k : ℕ)
    → (cleared (used + 2 ^ k - 1) (2 ^ k) % 2 ^ k ≡ 0)
      × (used ≤ cleared (used + 2 ^ k - 1) (2 ^ k))
      × (cleared (used + 2 ^ k - 1) (2 ^ k) < used + 2 ^ k)
unfolding cleared
cleared_bounds used k =
    let n = used + 2 ^ k - 1 in
    let positive = one-le-pow k 2 (omega arith) in
    let below = mod-lt n {m = 2 ^ k} positive in
    let split = div-add-mod' n (2 ^ k) in
    let rounded : n - n % 2 ^ k ≡ n / 2 ^ k * 2 ^ k = omega (arith, split) in
    rw (bit_and-low k n) (
      rw rounded (mul-mod_left (n / 2 ^ k) (2 ^ k)),
      omega (arith, below, positive),
      omega (arith, below, positive),
    )

-- So it is in `size_t` where the sum is no more than 2^64.
pub aligned_bounds :
    (used k : ℕ)
    → used + 2 ^ k ≤ 2 ^ 64
    → (aligned used (2 ^ k) % 2 ^ k ≡ 0)
      × (used ≤ aligned used (2 ^ k))
      × (aligned used (2 ^ k) < used + 2 ^ k)
unfolding aligned
aligned_bounds used k fits =
    let word : u64 (used + 2 ^ k - 1) ≡ used + 2 ^ k - 1 =
      u64-eq_of_le (used + 2 ^ k - 1) (omega (arith, fits)) in
    rw word (cleared_bounds used k)
