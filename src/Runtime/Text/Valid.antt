-- ===== src/Runtime/Text/Valid.antt =====
-- The text that a compiled program takes for valid, against the reader of source text.
use Prim.Native.Nat.{bit_and, bit_or}
use luce_seed.Base.{
  ℕ, zero, suc, ◌+◌, ◌-◌, ◌*◌, ◌<◌, ◌≤◌, ◌≡◌, ◌↔◌, inl, inr, refl, arith, true, false, Bool-cases,
  Option, Option-cases, none, some, Bytes, length, get_or, ltb, leb,
}
use luce_seed.Runtime.Text.{ok_from, ok_round, ok_width, tail, utf8_ok}
use luce_seed.Source.Utf8.{continuation, multibyte, refused, utf8_next}

-- The width of what the reader reads.
abbrev width_of : Option (ℕ × ℕ) → Option ℕ
width_of none = none
width_of (some (w, cp)) = some w

tail-continuation : (n : ℕ) (s : Bytes) (at cp : ℕ) → tail n s at cp ≡ continuation n s at cp
unfolding tail continuation
tail-continuation zero s at cp = refl
tail-continuation (suc n) s at cp =
    rw (tail-continuation n s (at + 1) (bit_or (cp * 64) (bit_and (get_or s at 0) 0x3F)))
      (ground arith)

ok_width-multibyte :
    (s : Bytes) (i w first : ℕ) → ok_width s i w first ≡ width_of (multibyte s i w first)
unfolding ok_width multibyte refused
ok_width-multibyte s i w first = rw (tail-continuation (w - 1) s (i + 1) first) (ground arith)

one_byte : (s : Bytes) (i c : ℕ) → i < length s → c < 0x80 → ok_width s i 1 c ≡ some 1
unfolding ok_width tail
one_byte s i c lt small = ground (arith, lt, small)

pub utf8_next-advances :
    (s : Bytes) (i w cp : ℕ) → utf8_next s i ≡ some (w, cp) → (1 ≤ w) × (i < length s)
unfolding utf8_next multibyte
utf8_next-advances s i w cp h = ground (arith, h)

ok_round-utf8_next : (s : Bytes) (i : ℕ) → i < length s → ok_round s i ≡ width_of (utf8_next s i)
unfolding ok_round utf8_next
ok_round-utf8_next s i lt =
    let c = get_or s i 0 in
    rw
      (
        ok_width-multibyte s i 2 (bit_and c 0x1F),
        ok_width-multibyte s i 3 (bit_and c 0x0F),
        ok_width-multibyte s i 4 (bit_and c 0x07),
      )
      (elim (Bool-cases (ltb c 0x80)) [
        | inl ascii ↦
            let past : leb (length s) i ≡ false = ground (arith, lt) in
            rw (ascii, past) (one_byte s i c lt (ground (arith, ascii)))
        | inr other ↦ ground (arith, other, lt)
      ])

-- The text from the offset on is read to its end, one scalar value after the other.
pub data Walks (s : Bytes) : ℕ → Type 0 where
  at_end : {i : ℕ} → length s ≤ i → Walks s i
  after : {i : ℕ} (w cp : ℕ) → utf8_next s i ≡ some (w, cp) → Walks s (i + w) → Walks s i

ok_from-Walks : (fuel : ℕ) (s : Bytes) (i : ℕ) → ok_from fuel s i ≡ true → Walks s i
unfolding ok_from
ok_from-Walks zero s i h = at_end (ground (arith, h))
ok_from-Walks (suc fuel) s i h = elim (Bool-cases (leb (length s) i)) [
  | inl past ↦ at_end (ground (arith, past))
  | inr inside ↦
      let lt : i < length s = ground (arith, inside) in
      let next = rw (inside, ok_round-utf8_next s i lt) at h in
      elim (Option-cases (utf8_next s i)) [
        | inl refused ↦ absurd (ground (arith, rw refused at next))
        | inr ((w, cp), read) ↦ after w cp read (ok_from-Walks fuel s (i + w) (rw read at next))
      ]
]

Walks-ok_from :
    (fuel : ℕ) (s : Bytes) (i : ℕ) → length s - i ≤ fuel → Walks s i → ok_from fuel s i ≡ true
unfolding ok_from
Walks-ok_from zero s i enough walk = ground (arith, enough)
Walks-ok_from (suc fuel) s i enough (at_end past) = ground (arith, past)
Walks-ok_from (suc fuel) s i enough (after w cp read walk) =
    let (moves, lt) = utf8_next-advances s i w cp read in
    let inside : leb (length s) i ≡ false = ground (arith, lt) in
    rw (inside, ok_round-utf8_next s i lt, read)
      (Walks-ok_from fuel s (i + w) (omega (arith, enough, moves, lt)) walk)

-- The check of a compiled program accepts exactly the texts that the reader of source text reads to
-- the end, one scalar value after the other.
pub utf8_ok_iff : (s : Bytes) → (utf8_ok s ≡ true) ↔ Walks s 0
unfolding utf8_ok
utf8_ok_iff s = (ok_from-Walks (length s) s 0, Walks-ok_from (length s) s 0 (omega arith))
