-- ===== src/Support/Encode/RoundTrip.antt =====
-- `utf8_next` against `append_utf8`.
use luce_seed.Base.{
  ℕ, zero, suc, ◌+◌, ◌-◌, ◌/◌, ◌%◌, ◌<◌, ◌≤◌, [], ◌∷◌, ◌++◌, ◌≡◌, refl, sym, ap, ◌∙◌, arith, Bytes,
  some, length, get_or, take, drop, length-drop, get_or-drop, drop-append, append_assoc,
}
use luce_seed.Source.Utf8.Forms.{AreBytes, read, read_two, read_three, read_four, utf8_next-read}
use luce_seed.Source.Utf8.{utf8_next, refused}
use luce_seed.Support.Encode.Arith.{IsScalar, encoded, append_utf8-encoded}
use luce_seed.Support.Encode.{append_utf8}

-- What `read` accepts is the encoding of a scalar value.
abbrev Sound : ℕ → Bytes → ℕ → ℕ → Type 0
Sound n bytes w v = IsScalar v × (1 ≤ w) × (w ≤ 4) × (w ≤ n) × (encoded v ≡ take w bytes)

module _ (n a b c d : ℕ) {w v : ℕ} where
  read_two-Sound :
      (0xC0 ≤ a) → a ≤ 0xDF → read_two n a b ≡ some (w, v) → Sound n (a ∷ b ∷ c ∷ d ∷ []) w v
  unfolding read_two refused
  read_two-Sound lo hi h = ground arith

  read_three-Sound :
      (0xE0 ≤ a) → a ≤ 0xEF → read_three n a b c ≡ some (w, v) → Sound n (a ∷ b ∷ c ∷ d ∷ []) w v
  unfolding read_three refused
  read_three-Sound lo hi h = ground arith

  read_four-Sound :
      (0xF0 ≤ a) → a ≤ 0xF7 → read_four n a b c d ≡ some (w, v) → Sound n (a ∷ b ∷ c ∷ d ∷ []) w v
  unfolding read_four refused
  read_four-Sound lo hi h = ground arith

  read-Sound : read n a b c d ≡ some (w, v) → Sound n (a ∷ b ∷ c ∷ d ∷ []) w v
  unfolding read
  read-Sound h = ground (arith, read_two-Sound, read_three-Sound, read_four-Sound)

read_two-encoded :
    (n x : ℕ)
    → 0x80 ≤ x
    → x < 0x800
    → 2 ≤ n
    → read_two n (0xC0 + x / 64) (0x80 + x % 64) ≡ some (2, x)
unfolding read_two refused
read_two-encoded n x lo hi fits = ground arith

read_three-encoded :
    (n x : ℕ)
    → 0x800 ≤ x
    → x < 0x10000
    → IsScalar x
    → 3 ≤ n
    → read_three n (0xE0 + x / 4096) (0x80 + x / 64 % 64) (0x80 + x % 64) ≡ some (3, x)
unfolding read_three refused
read_three-encoded n x lo hi scalar fits = ground arith

read_four-encoded :
    (n x : ℕ)
    → 0x10000 ≤ x
    → x ≤ 0x10FFFF
    → 4 ≤ n
    → read_four n (0xF0 + x / 262144) (0x80 + x / 4096 % 64) (0x80 + x / 64 % 64) (0x80 + x % 64)
      ≡ some (4, x)
unfolding read_four refused
read_four-encoded n x lo hi fits = ground arith

-- Reading the bytes of `rest`, whatever they hold behind the encoding of `x`.
read-encoded :
    (x : ℕ) (rest : Bytes)
    → IsScalar x
    → (let bytes = encoded x ++ rest in
        read
          (length bytes)
          (get_or bytes 0 0)
          (get_or bytes 1 0)
          (get_or bytes 2 0)
          (get_or bytes 3 0))
      ≡ some (length (encoded x), x)
unfolding read
read-encoded x rest scalar = ground (
  arith,
  read_two-encoded (suc (suc (length rest))) x,
  read_three-encoded (suc (suc (suc (length rest)))) x,
  read_four-encoded (suc (suc (suc (suc (length rest))))) x,
)

-- The first four bytes at an offset, read past the end as zeros.
abbrev window : Bytes → ℕ → Bytes
window bytes at =
    get_or bytes at 0
    ∷ get_or bytes (at + 1) 0
    ∷ get_or bytes (at + 1 + 1) 0
    ∷ get_or bytes (at + 1 + 1 + 1) 0
    ∷ []

take-four :
    (w : ℕ) (xs : Bytes)
    → w ≤ length xs
    → w ≤ 4
    → take w (get_or xs 0 0 ∷ get_or xs 1 0 ∷ get_or xs 2 0 ∷ get_or xs 3 0 ∷ []) ≡ take w xs
take-four zero xs h k = refl
take-four (suc zero) (x ∷ xs) h k = refl
take-four (suc (suc zero)) (x ∷ y ∷ xs) h k = refl
take-four (suc (suc (suc zero))) (x ∷ y ∷ z ∷ xs) h k = refl
take-four (suc (suc (suc (suc zero)))) (x ∷ y ∷ z ∷ t ∷ xs) h k = refl
take-four _ _ h k = absurd (omega arith)

window-drop :
    (bytes : Bytes) (at : ℕ)
    → window bytes at
      ≡ get_or (drop at bytes) 0 0
        ∷ get_or (drop at bytes) 1 0
        ∷ get_or (drop at bytes) 2 0
        ∷ get_or (drop at bytes) 3 0
        ∷ []
window-drop bytes at = ground (
  arith,
  get_or-drop at 0 bytes 0,
  get_or-drop at 1 bytes 0,
  get_or-drop at 2 bytes 0,
  get_or-drop at 3 bytes 0,
)

-- The byte at an index behind `out`.
byte_behind :
    (out bytes : Bytes) {tail : Bytes} (i : ℕ)
    → drop (length out) bytes ≡ tail
    → get_or bytes (length out + i) 0 ≡ get_or tail i 0
byte_behind out bytes i e = sym (get_or-drop (length out) i bytes 0) ∙ ap (λ xs. get_or xs i 0) e

-- What `utf8_next` accepts at an offset lies inside the text, is a scalar value, and is spelled by
-- exactly the bytes that `append_utf8` writes for it: no overlong form, surrogate, or number past
-- U+10FFFF is accepted.
pub utf8_next_sound :
    (bytes : Bytes) (at : ℕ) {w v : ℕ}
    → AreBytes bytes
    → utf8_next bytes at ≡ some (w, v)
    → IsScalar v × (at + w ≤ length bytes) × (append_utf8 [] v ≡ take w (drop at bytes))
utf8_next_sound bytes at {w} {v} h e =
    let (scalar, positive, small, fits, spelled) =
      read-Sound (length bytes - at) _ _ _ _ (sym (utf8_next-read bytes at h) ∙ e) in
    (
      scalar,
      omega arith,
      append_utf8-encoded [] v scalar.0
          ∙ spelled
          ∙ ap (take w) (window-drop bytes at)
          ∙ take-four w (drop at bytes) (omega (arith, length-drop at bytes)) small,
    )

-- `utf8_next` reads back what `append_utf8` wrote for a scalar value, with its width, in any text.
pub utf8_next-append_utf8 :
    (out rest : Bytes) (v : ℕ)
    → IsScalar v
    → AreBytes (append_utf8 out v ++ rest)
    → utf8_next (append_utf8 out v ++ rest) (length out) ≡ some (length (append_utf8 [] v), v)
utf8_next-append_utf8 out rest v scalar h =
    let bytes = append_utf8 out v ++ rest in
    let shifted : drop (length out) bytes ≡ encoded v ++ rest =
      rw (append_utf8-encoded out v scalar.0, append_assoc) (drop-append out (encoded v ++ rest)) in
    utf8_next-read bytes (length out) h
    ∙ ground (
      arith,
      read-encoded v rest scalar,
      append_utf8-encoded [] v scalar.0,
      ap length shifted,
      length-drop (length out) bytes,
      byte_behind out bytes 0 shifted,
      byte_behind out bytes 1 shifted,
      byte_behind out bytes 2 shifted,
      byte_behind out bytes 3 shifted,
    )
