-- ===== src/Source/Utf8/Forms.antt =====
-- `utf8_next` as arithmetic on the bytes that it reads.
use luce_seed.Base.Bits.{bit_and_63, bit_or_shift6}
use luce_seed.Base.{
  ℕ, zero, suc, ◌+◌, ◌-◌, ◌*◌, ◌%◌, ◌<◌, Bool, ◌&&◌, Option, none, some, Bytes, length, get_or, ltb,
  leb, within, ◌==◌, if◌then◌else◌, ◌≡◌, arith, ◌∷◌, [],
}
use luce_seed.Source.Utf8.{continuation, refused, multibyte, utf8_next}
use luce_seed.Source.Utf8.Masks.{
  lead_two, lead_three, lead_four, continues, low_five, low_four, low_three,
}

-- Every element is a byte.
abbrev pub AreBytes : Bytes → Type 0
AreBytes [] = Unit
AreBytes (x ∷ xs) = (x < 256) × AreBytes xs

pub get_or-byte : (bytes : Bytes) (i : ℕ) → AreBytes bytes → get_or bytes i 0 < 256
get_or-byte [] i h = omega arith
get_or-byte (x ∷ xs) zero h = h.0
get_or-byte (x ∷ xs) (suc i) h = get_or-byte xs i h.1

abbrev pub is_cont : ℕ → Bool
is_cont = within 0x80 0xBF

-- One round of the loop.
continuation-suc :
    (rounds : ℕ) (bytes : Bytes) (at value : ℕ)
    → AreBytes bytes
    → continuation (suc rounds) bytes at value ≡ (
        if is_cont (get_or bytes at 0)
        then continuation rounds bytes (at + 1) (value * 64 + get_or bytes at 0 % 64)
        else none)
unfolding continuation
continuation-suc rounds bytes at value h =
    let cont = get_or bytes at 0 in
    rw (
      continues cont (get_or-byte bytes at h),
      bit_and_63 cont,
      bit_or_shift6 value (cont % 64) (omega arith),
    )

continuation_one :
    (bytes : Bytes) (at v : ℕ)
    → AreBytes bytes
    → continuation 1 bytes at v
      ≡ (if is_cont (get_or bytes at 0) then some (v * 64 + get_or bytes at 0 % 64) else none)
unfolding continuation
continuation_one bytes at v h = continuation-suc 0 bytes at v h

continuation_two :
    (bytes : Bytes) (at v : ℕ)
    → AreBytes bytes
    → continuation 2 bytes at v ≡ (
        if is_cont (get_or bytes at 0) && is_cont (get_or bytes (at + 1) 0)
        then some ((v * 64 + get_or bytes at 0 % 64) * 64 + get_or bytes (at + 1) 0 % 64)
        else none)
continuation_two bytes at v h =
    rw
      (
        continuation-suc 1 bytes at v h,
        continuation_one bytes (at + 1) (v * 64 + get_or bytes at 0 % 64) h,
      )
      (ground arith)

continuation_three :
    (bytes : Bytes) (at v : ℕ)
    → AreBytes bytes
    → continuation 3 bytes at v ≡ (
        if is_cont (get_or bytes at 0)
          && is_cont (get_or bytes (at + 1) 0)
          && is_cont (get_or bytes (at + 1 + 1) 0)
        then some (
            ((v * 64 + get_or bytes at 0 % 64) * 64 + get_or bytes (at + 1) 0 % 64) * 64
            + get_or bytes (at + 1 + 1) 0 % 64)
        else none)
continuation_three bytes at v h =
    rw
      (
        continuation-suc 2 bytes at v h,
        continuation_two bytes (at + 1) (v * 64 + get_or bytes at 0 % 64) h,
      )
      (ground arith)

abbrev pub accept : ℕ → ℕ → Option (ℕ × ℕ)
accept width v = if refused width v then none else some (width, v)

-- The three longer forms, on the number of bytes left and the bytes.
unfoldable pub read_two : ℕ → ℕ → ℕ → Option (ℕ × ℕ)
read_two n a b = if leb 2 n && is_cont b then accept 2 (a % 32 * 64 + b % 64) else none

unfoldable pub read_three : ℕ → ℕ → ℕ → ℕ → Option (ℕ × ℕ)
read_three n a b c =
    if leb 3 n && (is_cont b && is_cont c)
    then accept 3 ((a % 16 * 64 + b % 64) * 64 + c % 64)
    else none

unfoldable pub read_four : ℕ → ℕ → ℕ → ℕ → ℕ → Option (ℕ × ℕ)
read_four n a b c d =
    if leb 4 n && (is_cont b && is_cont c && is_cont d)
    then accept 4 (((a % 8 * 64 + b % 64) * 64 + c % 64) * 64 + d % 64)
    else none

-- `utf8_next` on the number of bytes left and the first four of them.
unfoldable pub read : ℕ → ℕ → ℕ → ℕ → ℕ → Option (ℕ × ℕ)
read n a b c d =
    if n == 0
    then none
    else if ltb a 0x80
    then some (1, a)
    else if within 0xC0 0xDF a
    then read_two n a b
    else if within 0xE0 0xEF a
    then read_three n a b c
    else if within 0xF0 0xF7 a
    then read_four n a b c d
    else none

multibyte_two :
    (bytes : Bytes) (at v : ℕ)
    → AreBytes bytes
    → multibyte bytes at 2 v ≡ (
        if leb 2 (length bytes - at) && is_cont (get_or bytes (at + 1) 0)
        then accept 2 (v * 64 + get_or bytes (at + 1) 0 % 64)
        else none)
unfolding multibyte
multibyte_two bytes at v h = rw (continuation_one bytes (at + 1) v h) (ground arith)

multibyte_three :
    (bytes : Bytes) (at v : ℕ)
    → AreBytes bytes
    → multibyte bytes at 3 v ≡ (
        if leb 3 (length bytes - at)
          && (is_cont (get_or bytes (at + 1) 0) && is_cont (get_or bytes (at + 1 + 1) 0))
        then accept 3
            ((v * 64 + get_or bytes (at + 1) 0 % 64) * 64 + get_or bytes (at + 1 + 1) 0 % 64)
        else none)
unfolding multibyte
multibyte_three bytes at v h = rw (continuation_two bytes (at + 1) v h) (ground arith)

multibyte_four :
    (bytes : Bytes) (at v : ℕ)
    → AreBytes bytes
    → multibyte bytes at 4 v ≡ (
        if leb 4 (length bytes - at)
          && (is_cont (get_or bytes (at + 1) 0)
              && is_cont (get_or bytes (at + 1 + 1) 0)
              && is_cont (get_or bytes (at + 1 + 1 + 1) 0))
        then accept 4 (
            ((v * 64 + get_or bytes (at + 1) 0 % 64) * 64 + get_or bytes (at + 1 + 1) 0 % 64) * 64
            + get_or bytes (at + 1 + 1 + 1) 0 % 64)
        else none)
unfolding multibyte
multibyte_four bytes at v h = rw (continuation_three bytes (at + 1) v h) (ground arith)

pub utf8_next-read :
    (bytes : Bytes) (at : ℕ)
    → AreBytes bytes
    → utf8_next bytes at
      ≡ read
          (length bytes - at)
          (get_or bytes at 0)
          (get_or bytes (at + 1) 0)
          (get_or bytes (at + 1 + 1) 0)
          (get_or bytes (at + 1 + 1 + 1) 0)
unfolding utf8_next read read_two read_three read_four
utf8_next-read bytes at h =
    let a = get_or bytes at 0 in
    let byte = get_or-byte bytes at h in
    rw
      (
        lead_two a byte,
        lead_three a byte,
        lead_four a byte,
        low_five a byte,
        low_four a byte,
        low_three a byte,
        multibyte_two bytes at (a % 32) h,
        multibyte_three bytes at (a % 16) h,
        multibyte_four bytes at (a % 8) h,
      )
      (ground arith)
