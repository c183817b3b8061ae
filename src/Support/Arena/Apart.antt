-- ===== src/Support/Arena/Apart.antt =====
-- The blocks of an arena lie in their chunks and apart from each other.
use luce_seed.Base.{
  ℕ, ◌+◌, ◌%◌, ◌^◌, ◌≤◌, ◌<◌, ◌≡◌, ◌≢◌, ◌⊎◌, refl, sym, ◌∙◌, arith, List, [], ◌∷◌, Option, none,
  some, length, ◌==◌, if◌then◌else◌,
}
use luce_seed.Base.Words.{u64, u64-eq_of_le}
use native.Mathlib.Nat.{mod-eq_of_lt, one-le-pow, pow-le-pow_right}
use luce_seed.Support.Arena.Aligned.{aligned_bounds}
use luce_seed.Support.Arena.{
  Arena, Block, Chunk, aligned, alloc, alloc_all, alloc_sized, at_least_one, fresh_chunk, place,
}

-- What is used of a chunk, and its size; chunks are counted from the oldest.
abbrev pub used_at : List Chunk → ℕ → ℕ
used_at [] i = 0
used_at (c ∷ older) i = if i == length older then c.used else used_at older i

abbrev pub size_at : List Chunk → ℕ → ℕ
size_at [] i = 0
size_at (c ∷ older) i = if i == length older then c.size else size_at older i

-- The block lies in the used part of its chunk, and that part in the chunk.
abbrev pub IsHeld : List Chunk → Block → Type 0
IsHeld chunks b =
    (b.chunk < length chunks)
    × (b.offset + b.size ≤ used_at chunks b.chunk)
    × (used_at chunks b.chunk ≤ size_at chunks b.chunk)

abbrev pub IsApart : Block → Block → Type 0
IsApart b c =
    (b.chunk ≢ c.chunk) ⊎ ((b.offset + b.size ≤ c.offset) ⊎ (c.offset + c.size ≤ b.offset))

abbrev pub AllApart : Block → List Block → Type 0
AllApart b [] = Unit
AllApart b (c ∷ rest) = IsApart b c × AllApart b rest

-- Every block is held, and every two are apart.
abbrev pub IsLaidOut : List Chunk → List Block → Type 0
IsLaidOut chunks [] = Unit
IsLaidOut chunks (b ∷ rest) = IsHeld chunks b × AllApart b rest × IsLaidOut chunks rest

-- What a request gives: a block that is held, of the size asked for and on its alignment, while what
-- was held before is held still and apart from it.
abbrev pub IsGiven : List Chunk → ℕ → ℕ → Arena → Block → Type 0
IsGiven chunks bytes align t b =
    IsHeld t.chunks b
    × (b.size ≡ bytes)
    × (b.offset % align ≡ 0)
    × ((c : Block) → IsHeld chunks c → IsHeld t.chunks c × IsApart b c)

-- A new chunk has 2^63 bytes at most, and so does the newest one, of which no more is used.
abbrev pub IsSmall : List Chunk → Type 0
IsSmall [] = Unit
IsSmall (c ∷ older) = (c.used ≤ c.size) × (c.size ≤ 2 ^ 63)

abbrev pub IsBounded : Arena → Type 0
IsBounded s = (s.chunk_size ≤ 2 ^ 63) × IsSmall s.chunks

module _ (s : Arena) (bytes k : ℕ) (modest : bytes ≤ 2 ^ 62) (le : k ≤ 62)
    (usual : s.chunk_size ≤ 2 ^ 63) where
  power : 2 ^ k ≤ 2 ^ 62
  power = pow-le-pow_right {n = 2} (omega arith) le

  -- In a chunk that is there.
  place-IsGiven :
      (chunks : List Chunk) (t : Arena) (b : Block)
      → IsSmall chunks
      → place s bytes (2 ^ k) chunks ≡ some (t, b)
      → IsGiven chunks bytes (2 ^ k) t b × IsBounded t
  unfolding place
  place-IsGiven [] t b small e = absurd (ground arith)
  place-IsGiven (chunk ∷ older) t b small e =
      let bounds = aligned_bounds chunk.used k (omega (arith, small, power)) in
      let word : u64 (aligned chunk.used (2 ^ k) + bytes) ≡ aligned chunk.used (2 ^ k) + bytes =
        u64-eq_of_le _ (omega (arith, small, bounds, modest, power)) in
      let met = rw (place, word) at e in
      (
        (
          ground (arith, met, bounds),
          ground (arith, met),
          ground (arith, met, bounds),
          λ c h. ground (arith, met, h, bounds),
        ),
        ground (arith, met, usual, small),
      )

  fresh_size :
      (bytes + 2 ^ k ≤ (fresh_chunk s bytes (2 ^ k)).size)
      × ((fresh_chunk s bytes (2 ^ k)).size ≤ 2 ^ 63)
  unfolding fresh_chunk
  fresh_size =
      let word : u64 (bytes + 2 ^ k) ≡ bytes + 2 ^ k =
        u64-eq_of_le _ (omega (arith, modest, power)) in
      rw word (ground (arith, modest, power, usual))

  -- In a new chunk there is room.
  fresh-IsGiven :
      (r : Arena × Block) × (place s bytes (2 ^ k) (fresh_chunk s bytes (2 ^ k) ∷ s.chunks)
        ≡ some r)
      × IsGiven s.chunks bytes (2 ^ k) r.0 r.1
      × IsBounded r.0
  fresh-IsGiven =
      let (t, b) = found.0 in
      let ((held, size, offset, kept), bounded) =
        place-IsGiven (fresh_chunk s bytes (2 ^ k) ∷ s.chunks) found.0.0 found.0.1
          (unfold fresh_chunk in (omega arith, fresh_size.1)) found.1 in
      (found.0, found.1, (held, size, offset, λ c h. kept c (older c h)), bounded)
    where
      start : aligned 0 (2 ^ k) ≡ 0
      start =
          let bounds = aligned_bounds 0 k (omega (arith, power)) in
          sym (mod-eq_of_lt (omega (arith, bounds))) ∙ bounds.0

      found :
          (r : Arena × Block) × (place s bytes (2 ^ k) (fresh_chunk s bytes (2 ^ k) ∷ s.chunks)
            ≡ some r)
      found =
          let room = fresh_size in
          let word : u64 (0 + bytes) ≡ bytes =
            u64-eq_of_le (0 + bytes) (omega (arith, modest)) ∙ omega arith in
          let used : (fresh_chunk s bytes (2 ^ k)).used ≡ 0 = unfold fresh_chunk in refl in
          (
            (
              record s {
                used = u64 (s.used + bytes);
                chunks = record (fresh_chunk s bytes (2 ^ k)) { used = bytes } ∷ s.chunks;
              },
              record { chunk = length s.chunks; offset = 0; size = bytes },
            ),
            unfold place in rw (used, start, word) (ground (arith, room)),
          )

      older : (c : Block) → IsHeld s.chunks c → IsHeld (fresh_chunk s bytes (2 ^ k) ∷ s.chunks) c
      older c h = ground (arith, h)

-- A request whose alignment is a power of two is always met, where the sizes keep `size_t` from wrapping
-- around: the block is as large as was asked, a byte at least, lies in its chunk on a multiple of the
-- alignment, and apart from every block given out before; and those stay where they are.
pub alloc-IsGiven :
    (s : Arena) (bytes k : ℕ)
    → bytes ≤ 2 ^ 62
    → k ≤ 62
    → IsBounded s
    → (r : Arena × Block) × (alloc s bytes (2 ^ k) ≡ some r)
      × IsGiven s.chunks (at_least_one bytes) (2 ^ k) r.0 r.1
      × IsBounded r.0
unfolding alloc alloc_sized
alloc-IsGiven s bytes k modest le bounded =
    rw (one_at_least k) (by_place (place s (at_least_one bytes) (2 ^ k) s.chunks) refl)
  where
    one_at_least : (k : ℕ) → at_least_one (2 ^ k) ≡ 2 ^ k
    one_at_least k =
        unfold at_least_one in let p = one-le-pow k 2 (omega arith) in ground (arith, p)

    still_modest : at_least_one bytes ≤ 2 ^ 62
    still_modest = unfold at_least_one in ground (arith, modest)

    by_place :
        (found : Option (Arena × Block))
        → place s (at_least_one bytes) (2 ^ k) s.chunks ≡ found
        → (r : Arena × Block) × (alloc_sized s (at_least_one bytes) (2 ^ k) ≡ some r)
          × IsGiven s.chunks (at_least_one bytes) (2 ^ k) r.0 r.1
          × IsBounded r.0
    by_place (some (t, b)) e =
        let (given, small) =
          place-IsGiven s (at_least_one bytes) k still_modest le bounded.0 s.chunks t b bounded.1
            e in
        ((t, b), rw (e, alloc_sized) refl, given, small)
    by_place none e =
        let (r, found, given, small) =
          fresh-IsGiven s (at_least_one bytes) k still_modest le bounded.0 in
        (r, rw (e, alloc_sized) found, given, small)

-- Requests by size and the logarithm of the alignment.
abbrev pub requests : List (ℕ × ℕ) → List (ℕ × ℕ)
requests [] = []
requests ((bytes, k) ∷ rest) = (bytes, 2 ^ k) ∷ requests rest

-- Sizes and alignments that keep the sums of `Arena::alloc` within 64 bits.
abbrev pub AreModest : List (ℕ × ℕ) → Type 0
AreModest [] = Unit
AreModest ((bytes, k) ∷ rest) = ((bytes ≤ 2 ^ 62) × (k ≤ 62)) × AreModest rest

-- What held and apart blocks become when one more is given out.
kept-IsLaidOut :
    (chunks : List Chunk) (bytes align : ℕ) (t : Arena) (b : Block) (blocks : List Block)
    → IsGiven chunks bytes align t b
    → IsLaidOut chunks blocks
    → IsLaidOut t.chunks blocks × AllApart b blocks
kept-IsLaidOut chunks bytes align t b [] g h = (tt, tt)
kept-IsLaidOut chunks bytes align t b (c ∷ rest) g h =
    let (held, apart) = g.3 c h.0 in
    let (laid, all) = kept-IsLaidOut chunks bytes align t b rest g h.2 in
    ((held, h.1, laid), (apart, all))

-- Requests of at most 2^62 bytes, with powers of two up to 2^62 for alignments, to an arena whose newest
-- chunk and new chunks have 2^63 bytes at most: from a state whose blocks lie in the used part of their
-- chunks and apart from each other, every sequence of them is met, and all blocks, old and new, lie in
-- the used part of their chunks and apart.
pub alloc_all-IsLaidOut :
    (s : Arena) (blocks : List Block) (rs : List (ℕ × ℕ))
    → AreModest rs
    → IsBounded s
    → IsLaidOut s.chunks blocks
    → (r : Arena × List Block) × (alloc_all s blocks (requests rs) ≡ some r)
      × IsLaidOut r.0.chunks r.1
      × (length r.1 ≡ length blocks + length rs)
unfolding alloc_all
alloc_all-IsLaidOut s blocks [] modest bounded h = ((s, blocks), refl, h, omega arith)
alloc_all-IsLaidOut s blocks ((bytes, k) ∷ rest) modest bounded h =
    let ((t, b), met, given, small) = alloc-IsGiven s bytes k modest.0.0 modest.0.1 bounded in
    let (laid, apart) = kept-IsLaidOut s.chunks (at_least_one bytes) (2 ^ k) t b blocks given h in
    let (r, e, all, count) =
      alloc_all-IsLaidOut t (b ∷ blocks) rest modest.1 small (given.0, apart, laid) in
    (r, rw (met, alloc_all) e, all, omega (arith, count))
