-- ===== src/Runtime/Text/Scalar.antt =====
-- The decoder that a compiled program uses on text that was checked, against the reader of source text.
use Prim.Native.Nat.{bit_and, bit_or}
use luce_seed.Base.Bits.{bit_and_63, bit_or_shift6}
use luce_seed.Base.Words.{u32, u32-eq_of_lt}
use luce_seed.Base.{
  ℕ, zero, suc, ◌+◌, ◌-◌, ◌*◌, ◌%◌, ◌<◌, ◌≤◌, ◌≡◌, inl, inr, refl, arith, true, false, Option-cases,
  some, Bytes, length, get_or, ltb, leb,
}
use luce_seed.Runtime.Text.Valid.{Walks, after, at_end, utf8_ok_iff, utf8_next-advances}
use luce_seed.Runtime.Text.{scalar_of, scalar_tail, utf8_ok, utf8_scalar}
use luce_seed.Source.Utf8.Forms.{AreBytes, get_or-byte}
use luce_seed.Source.Utf8.Masks.{lead_four, lead_three, lead_two, low_five, low_four, low_three}
use luce_seed.Source.Utf8.{continuation, multibyte, utf8_next}

-- With so many rounds to come, the value stays below 2^32 from below here.
abbrev limit : ℕ → ℕ
limit zero = 0x800000
limit (suc zero) = 0x20000
limit (suc (suc zero)) = 0x800
limit (suc (suc (suc zero))) = 0x20
limit _ = 0

limit_lem : (n cp : ℕ) → cp < limit (suc n) → (cp * 64 + 63 < limit n) × (cp < 0x20000)
limit_lem zero cp h = (omega (arith, h), omega (arith, h))
limit_lem (suc zero) cp h = (omega (arith, h), omega (arith, h))
limit_lem (suc (suc zero)) cp h = (omega (arith, h), omega (arith, h))
limit_lem (suc (suc (suc n))) cp h = absurd (omega (arith, h))

scalar_tail-continuation :
    (n : ℕ) (s : Bytes) (at cp v : ℕ)
    → cp < limit n
    → continuation n s at cp ≡ some v
    → scalar_tail n s at cp ≡ v
unfolding continuation scalar_tail
scalar_tail-continuation zero s at cp v small h = ground (arith, h)
scalar_tail-continuation (suc n) s at cp v small h =
    let x = get_or s at 0 in
    let next = bit_or (cp * 64) (bit_and x 0x3F) in
    let value : next ≡ cp * 64 + x % 64 =
      rw (bit_and_63 x, bit_or_shift6 cp (x % 64) (omega arith)) refl in
    let (below, fits) = limit_lem n cp small in
    let word : u32 next ≡ next = u32-eq_of_lt next (omega (arith, value, fits)) in
    let rest : continuation n s (at + 1) next ≡ some v = ground (arith, h) in
    rw word (scalar_tail-continuation n s (at + 1) next v (omega (arith, value, below)) rest)

-- The longer forms.
multibyte-scalar_of :
    (s : Bytes) (i w first : ℕ) (width cp : ℕ)
    → first < limit (w - 1)
    → multibyte s i w first ≡ some (width, cp)
    → scalar_of s i w first ≡ (width, cp)
unfolding multibyte scalar_of
multibyte-scalar_of s i w first width cp small h =
    elim (Option-cases (continuation (w - 1) s (i + 1) first)) [
      | inl stopped ↦ absurd (ground (arith, rw stopped at h))
      | inr (v, read) ↦
          let kept = rw read at h in
          let tail = scalar_tail-continuation (w - 1) s (i + 1) first v small read in
          let fits : ltb (length s) (i + w) ≡ false = ground (arith, kept) in
          let same : (w ≡ width) × (v ≡ cp) = ground (arith, kept) in
          rw (fits, tail) (ground (arith, same))
    ]

one_byte : (s : Bytes) (i c : ℕ) → i < length s → scalar_of s i 1 c ≡ (1, c)
unfolding scalar_of scalar_tail
one_byte s i c h = ground (arith, h)

-- A scalar value that the reader reads, with its width, is what the decoder gives there.
utf8_scalar_lem :
    (s : Bytes) (i w cp : ℕ) → AreBytes s → utf8_next s i ≡ some (w, cp) → utf8_scalar s i ≡ (w, cp)
unfolding utf8_next utf8_scalar
utf8_scalar_lem s i w cp bytes h =
    let c = get_or s i 0 in
    let byte = get_or-byte s i bytes in
    let (moves, inside) = utf8_next-advances s i w cp h in
    let past : leb (length s) i ≡ false = ground (arith, inside) in
    let read = rw (past, lead_two c byte, lead_three c byte, lead_four c byte) at h in
    let two =
      multibyte-scalar_of s i 2 (bit_and c 0x1F) w cp (rw (low_five c byte) (omega arith)) in
    let three =
      multibyte-scalar_of s i 3 (bit_and c 0x0F) w cp (rw (low_four c byte) (omega arith)) in
    let four =
      multibyte-scalar_of s i 4 (bit_and c 0x07) w cp (rw (low_three c byte) (omega arith)) in
    let one = one_byte s i c inside in ground (arith, read, one, two, three, four)

-- From the offset on, the decoder and the reader give the same, at each offset that their widths reach.
pub data Decodes (s : Bytes) : ℕ → Type 0 where
  ended : {i : ℕ} → length s ≤ i → Decodes s i
  decoded :
      {i : ℕ} (w cp : ℕ)
      → utf8_next s i ≡ some (w, cp)
      → utf8_scalar s i ≡ (w, cp)
      → Decodes s (i + w)
      → Decodes s i

Walks-Decodes : (s : Bytes) (i : ℕ) → AreBytes s → Walks s i → Decodes s i
Walks-Decodes s i bytes (at_end h) = ended h
Walks-Decodes s i bytes (after w cp read walk) =
    decoded w cp read (utf8_scalar_lem s i w cp bytes read) (Walks-Decodes s (i + w) bytes walk)

-- In a text of bytes that a compiled program takes for valid, the decoder that tests no byte gives,
-- from the start to the end, the widths and the scalar values that the reader of source text gives.
pub utf8_ok-Decodes : (s : Bytes) → AreBytes s → utf8_ok s ≡ true → Decodes s 0
utf8_ok-Decodes s bytes ok = Walks-Decodes s 0 bytes ((utf8_ok_iff s).0 ok)
