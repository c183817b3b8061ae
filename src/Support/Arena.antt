-- ===== src/Support/Arena.antt =====
-- `Arena` of src/support/arena.cpp: storage handed out in chunks and never taken back.
pub mod Aligned
pub mod Apart
use Prim.Native.Nat.{bit_and}
use luce_seed.Base.Words.{u64}
use luce_seed.Base.{
  ℕ, ◌+◌, ◌-◌, ◌*◌, Bool, true, false, List, [], ◌∷◌, Option, none, some, ◌≡◌, refl, length, leb,
  ltb, ◌==◌, if◌then◌else◌,
}

-- The bytes of a chunk are not looked at; `size` is `data.size()`.
pub record Chunk : Type 0 where
  pub size : ℕ
  pub used : ℕ

-- The newest chunk stands in front.
pub record Arena : Type 0 where
  pub chunk_size : ℕ
  pub used : ℕ
  pub chunks : List Chunk

abbrev pub empty_arena : Arena
empty_arena = record { chunk_size = 64 * 1024; used = 0; chunks = [] }

-- What a pointer into the arena says: the chunk, counted from the oldest, and the bytes in it.
pub record Block : Type 0 where
  pub chunk : ℕ
  pub offset : ℕ
  pub size : ℕ

-- `n & ~(align - 1)`
unfoldable pub cleared : ℕ → ℕ → ℕ
cleared n align = n - bit_and n (align - 1)

-- `(used + align - 1) & ~(align - 1)`, in `size_t`; the alignment is not 0.
unfoldable pub aligned : ℕ → ℕ → ℕ
aligned used align = cleared (u64 (used + align - 1)) align

unfoldable pub at_least_one : ℕ → ℕ
at_least_one n = if n == 0 then 1 else n

-- Place `bytes` in the front chunk if they fit there.
unfoldable pub place : Arena → ℕ → ℕ → List Chunk → Option (Arena × Block)
place s bytes align [] = none
place s bytes align (chunk ∷ older) =
    let at = aligned chunk.used align in
    let taken : Chunk = record chunk { used = u64 (at + bytes) } in
    let block : Block = record { chunk = length older; offset = at; size = bytes } in
    if leb (u64 (at + bytes)) chunk.size
    then some (record s { used = u64 (s.used + bytes); chunks = taken ∷ older }, block)
    else none

-- A new chunk is of the usual size, or of the request and its alignment where that is more.
unfoldable pub fresh_chunk : Arena → ℕ → ℕ → Chunk
fresh_chunk s bytes align = record {
  size = if ltb s.chunk_size (u64 (bytes + align)) then u64 (bytes + align) else s.chunk_size;
  used = 0;
}

-- `alloc` behind the two defaults; `none` stands for `std::abort`.
unfoldable pub alloc_sized : Arena → ℕ → ℕ → Option (Arena × Block)
alloc_sized s bytes align =
    let fresh = place s bytes align (fresh_chunk s bytes align ∷ s.chunks) in
    elim (place s bytes align s.chunks) [ some r ↦ some r | none ↦ fresh ]

unfoldable pub alloc : Arena → ℕ → ℕ → Option (Arena × Block)
alloc s bytes align = alloc_sized s (at_least_one bytes) (at_least_one align)

-- A sequence of requests, each a size and an alignment; the newest block stands in front.
unfoldable pub alloc_all : Arena → List Block → List (ℕ × ℕ) → Option (Arena × List Block)
alloc_all s blocks [] = some (s, blocks)
alloc_all s blocks ((bytes, align) ∷ rest) = elim (alloc s bytes align) [
  | none ↦ none
  | some (t, block) ↦ alloc_all t (block ∷ blocks) rest
]
