-- ===== src/Base/Words.antt =====
-- Unsigned machine words as numbers, with their wrap-around.
use luce_seed.Base.{ℕ, ◌-◌, ◌%◌, ◌^◌, ◌<◌, ◌≤◌, ◌≡◌, arith}

-- `static_cast<uint32_t>`
unfoldable pub u32 : ℕ → ℕ
u32 n = n % 2 ^ 32

-- `static_cast<uint64_t>`
unfoldable pub u64 : ℕ → ℕ
u64 n = n % 2 ^ 64

abbrev pub u64_max : ℕ
u64_max = 2 ^ 64 - 1

pub u32-eq_of_lt : (n : ℕ) → n < 2 ^ 32 → u32 n ≡ n
unfolding u32
u32-eq_of_lt n h = omega arith

pub u64-eq_of_le : (n : ℕ) → n ≤ u64_max → u64 n ≡ n
unfolding u64
u64-eq_of_le n h = omega arith
