-- ===== src/Runtime/Fixed.antt =====
-- The allocator over a fixed buffer, from `lb_alloc_bytes` and `lb_resize_bytes` of
-- src/runtime/lucb_rt.c, with a block given by its offset in the buffer.
pub mod Packed
use Prim.Native.Nat.{bit_and}
use luce_seed.Base.Words.{u64}
use luce_seed.Base.{
  ℕ, ◌+◌, ◌-◌, ◌*◌, Bool, true, false, ◌&&◌, List, [], ◌∷◌, ltb, leb, ◌==◌, if◌then◌else◌,
}

-- `lb_fixed`, whose buffer is not null.
pub record Fixed : Type 0 where
  pub cap : ℕ
  pub used : ℕ

pub record Span : Type 0 where
  pub start : ℕ
  pub length : ℕ

-- No block, the block of no bytes that stands nowhere, or a block of the buffer.
pub data Given : Type 0 where
  refused nowhere : Given
  given : Span → Given

-- `(n + (a - 1)) & ~(a - 1)`
unfoldable pub align_up : ℕ → ℕ → ℕ
align_up n a = if leb a 1 then n else let m = u64 (n + (a - 1)) in m - bit_and m (a - 1)

unfoldable pub alloc_bytes : Fixed → ℕ → ℕ → Fixed × Given
alloc_bytes f size align =
    let start = align_up f.used (if ltb align 1 then 1 else align) in
    if size == 0
    then (f, nowhere)
    else if ltb f.cap (u64 (start + size))
    then (f, refused)
    else (record f { used = u64 (start + size) }, given (record { start = start; length = size }))

-- Only the block that ends where the used part ends can grow or shrink.
unfoldable pub resize_bytes : Fixed → Span → ℕ → Fixed × Given
resize_bytes f block size =
    if size == block.length
    then (f, given block)
    else if (block.start + block.length == f.used) && leb size (f.cap - block.start)
    then (
      record f { used = block.start + size },
      given (record { start = block.start; length = size }),
    )
    else (f, refused)
