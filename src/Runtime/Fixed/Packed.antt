-- ===== src/Runtime/Fixed/Packed.antt =====
-- The blocks of the allocator over a fixed buffer.
use luce_seed.Base.Words.{u64, u64-eq_of_le}
use luce_seed.Base.{
  ℕ, ◌+◌, ◌-◌, ◌^◌, ◌&&◌, ◌≤◌, ◌<◌, ◌≡◌, inl, inr, refl, arith, false, Bool-cases, List, [], ◌∷◌,
  ltb, leb, ◌==◌,
}
use luce_seed.Runtime.Fixed.{Fixed, Given, Span, align_up, alloc_bytes, given, resize_bytes}
use luce_seed.Support.Arena.Aligned.{cleared_bounds}
use luce_seed.Support.Arena.{cleared}
use native.Mathlib.Nat.{one-le-pow, pow-le-pow_right}

-- A request for a block with an alignment of a power of two, or for another size of the newest block.
pub data Request : Type 0 where
  allocate resize_newest : ℕ → ℕ → Request

-- Newest first, each block ends where the next newer one begins, or before.
abbrev pub AreInOrder : ℕ → List Span → Type 0
AreInOrder top [] = Unit
AreInOrder top (b ∷ older) = (b.start + b.length ≤ top) × AreInOrder b.start older

-- All blocks lie apart from each other in the used part, which lies in the buffer.
abbrev pub IsPacked : Fixed → List Span → Type 0
IsPacked f blocks = (f.used ≤ f.cap) × AreInOrder f.used blocks

abbrev keep : List Span → Fixed × Given → Fixed × List Span
keep blocks (f, given b) = (f, b ∷ blocks)
keep blocks (f, _) = (f, blocks)

abbrev replace : Span → List Span → Fixed × Given → Fixed × List Span
replace b older (f, given c) = (f, c ∷ older)
replace b older (f, _) = (f, b ∷ older)

abbrev pub serve : Request → Fixed → List Span → Fixed × List Span
serve (allocate size k) f blocks = keep blocks (alloc_bytes f size (2 ^ k))
serve (resize_newest size k) f [] = (f, [])
serve (resize_newest size k) f (b ∷ older) = replace b older (resize_bytes f b size)

abbrev pub serve_all : List Request → Fixed → List Span → Fixed × List Span
serve_all [] f blocks = (f, blocks)
serve_all (r ∷ rest) f blocks = let now = serve r f blocks in serve_all rest now.0 now.1

-- Sizes and alignments that a sum of three does not take beyond 64 bits.
abbrev pub IsModest : Request → Type 0
IsModest (allocate size k) = (size ≤ 2 ^ 62) × (k ≤ 62)
IsModest (resize_newest size k) = Unit

abbrev pub AreModest : List Request → Type 0
AreModest [] = Unit
AreModest (r ∷ rest) = IsModest r × AreModest rest

align_up_bounds :
    (used k : ℕ)
    → used ≤ 2 ^ 62
    → k ≤ 62
    → (used ≤ align_up used (2 ^ k)) × (align_up used (2 ^ k) < used + 2 ^ k)
unfolding align_up cleared
align_up_bounds used k small le =
    let positive = one-le-pow k 2 (omega arith) in
    let power : 2 ^ k ≤ 2 ^ 62 = pow-le-pow_right {n = 2} (omega arith) le in
    let word : u64 (used + (2 ^ k - 1)) ≡ used + (2 ^ k - 1) =
      u64-eq_of_le (used + (2 ^ k - 1)) (omega (arith, small, power)) in
    let bounds = cleared_bounds used k in
    let same : used + 2 ^ k - 1 ≡ used + (2 ^ k - 1) = omega (arith, positive) in
    elim (Bool-cases (leb (2 ^ k) 1)) [
      | inl one ↦ rw one (omega arith, omega (arith, positive))
      | inr more ↦ rw (more, word) (rw same at bounds.1, rw same at bounds.2)
    ]

raise :
    (top top' : ℕ) (blocks : List Span)
    → top ≤ top'
    → AreInOrder top blocks
    → AreInOrder top' blocks
raise top top' [] h packed = tt
raise top top' (b ∷ older) h packed = (omega (arith, h, packed.0), packed.1)

allocate-IsPacked :
    (f : Fixed) (blocks : List Span) (size k : ℕ)
    → f.cap ≤ 2 ^ 62
    → size ≤ 2 ^ 62
    → k ≤ 62
    → IsPacked f blocks
    → let (g, now) = serve (allocate size k) f blocks in (IsPacked g now × (g.cap ≡ f.cap))
unfolding alloc_bytes
allocate-IsPacked f blocks size k small modest le packed =
    let positive = one-le-pow k 2 (omega arith) in
    let power : 2 ^ k ≤ 2 ^ 62 = pow-le-pow_right {n = 2} (omega arith) le in
    let at_least : ltb (2 ^ k) 1 ≡ false = ground (arith, positive) in
    let (up, near) = align_up_bounds f.used k (omega (arith, small, packed.0)) le in
    let start = align_up f.used (2 ^ k) in
    let word : u64 (start + size) ≡ start + size =
      u64-eq_of_le (start + size) (omega (arith, small, modest, packed.0, near, power)) in
    rw at_least (elim (Bool-cases (size == 0)) [
      | inl none ↦ rw none (packed, refl)
      | inr some ↦
          rw (some, word)
            (elim (Bool-cases (ltb f.cap (start + size))) [
              | inl full ↦ rw full (packed, refl)
              | inr fits ↦ rw fits (
                (ground (arith, fits), (omega arith, raise f.used start blocks up packed.1)),
                refl,
              )
            ])
    ])

resize-IsPacked :
    (f : Fixed) (blocks : List Span) (size k : ℕ)
    → IsPacked f blocks
    → let (g, now) = serve (resize_newest size k) f blocks in (IsPacked g now × (g.cap ≡ f.cap))
unfolding resize_bytes
resize-IsPacked f [] size k packed = (packed, refl)
resize-IsPacked f (b ∷ older) size k packed = elim (Bool-cases (size == b.length)) [
  | inl same ↦ rw same (packed, refl)
  | inr other ↦
      rw other (elim (Bool-cases ((b.start + b.length == f.used) && leb size (f.cap - b.start))) [
        | inl fits ↦
            rw fits ((ground (arith, fits, packed.0, packed.1.0), (omega arith, packed.1.1)), refl)
        | inr full ↦ rw full (packed, refl)
      ])
]

-- Over a buffer of at most 2^62 bytes, every sequence of requests for blocks of at most 2^62 bytes,
-- with powers of two up to 2^62 for alignments, and for other sizes of the newest block keeps the
-- blocks apart from each other and in the used part, which stays in the buffer.
pub serve_all-IsPacked :
    (rs : List Request) (f : Fixed) (blocks : List Span)
    → f.cap ≤ 2 ^ 62
    → AreModest rs
    → IsPacked f blocks
    → IsPacked (serve_all rs f blocks).0 (serve_all rs f blocks).1
serve_all-IsPacked [] f blocks small modest packed = packed
serve_all-IsPacked (allocate size k ∷ rest) f blocks small modest packed =
    let (now, same) = allocate-IsPacked f blocks size k small modest.0.0 modest.0.1 packed in
    serve_all-IsPacked rest _ _ (rw same small) modest.1 now
serve_all-IsPacked (resize_newest size k ∷ rest) f blocks small modest packed =
    let (now, same) = resize-IsPacked f blocks size k packed in
    serve_all-IsPacked rest _ _ (rw same small) modest.1 now
