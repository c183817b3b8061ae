-- ===== src/Emit/Convert/Agrees.antt =====
-- The integer conversions of a compiled program against those of the interpreter.
use luce_seed.Base.Int.{ℤ, pos, is_negative}
use luce_seed.Base.{
  ℕ, ◌≡◌, inl, inr, arith, refl, sym, ◌∙◌, ap, Bool, true, false, not, ◌&&◌, Bool-cases,
  if◌then◌else◌,
}
use luce_seed.Check.Kind.{
  TypeKind, int_bits, int_mask, int_max_signed, is_int, is_signed_int, is_unsigned_int,
}
use luce_seed.Emit.Arith.Agrees.{there_and_back, twice, word_of}
use luce_seed.Emit.Arith.Signed.{bounds_lem, extended_lem, observed, word_lem, wrapped_lem}
use luce_seed.Emit.Arith.Unsigned.{mask_lem, zext_lem}
use luce_seed.Emit.Arith.Words.{same_result}
use luce_seed.Emit.Arith.{CExpr, cast_to, run, word_cast}
use luce_seed.Emit.Convert.{emit_conversion, is_char, run_call, run_conversion}
use luce_seed.Interp.Arith.Convert.{fits-plain, source_parts, stored_bits-is_int}
use luce_seed.Interp.Arith.Exact.{as_u_fits}
use luce_seed.Interp.Arith.Widths.{
  IsWidth, as_s-IsInRange, int_bits-IsWidth, int_min-signed, value_of,
}
use luce_seed.Interp.Arith.{convert_int, fits_destination}
use luce_seed.Interp.Value.{Value, as_s, as_u, masked, to_i64, to_u64, v_int}
use luce_seed.Runtime.Arith.{wrapped}
use luce_seed.Runtime.Convert.{Source, checked_bits, conv_s, conv_u, fits_u, source_of}
use luce_seed.Runtime.Word.{Outcome, done, ◌>>=◌, mask_bits, sext, stop, zext}

-- The source of a conversion, as the number that it stands for.
abbrev pub number : ℤ → Source
number e = record { negative = is_negative e; bits = to_u64 e }

module _ (src : TypeKind) (int : is_int src ≡ true) (v : Value) where
  pub source_s :
      is_signed_int src ≡ true
      → source_of (to_u64 (as_s v src)) (int_bits src) true ≡ number (as_s v src)
  unfolding source_of
  source_s signed =
      let range = as_s-IsInRange src signed v in
      rw (word_lem src signed (as_s v src) range, extended_lem src signed (as_s v src) range) refl

  pub source_u :
      is_signed_int src ≡ false
      → source_of (as_u v src) (int_bits src) false ≡ number (pos (as_u v src))
  unfolding source_of
  source_u unsigned =
      let fits = as_u_fits src int v v v in
      rw
        (
          word_of src (as_u v src) int fits,
          zext_lem (int_bits src) (as_u v src) (int_bits-IsWidth src int) fits,
        )
        refl

word_max : (w : ℕ) → IsWidth w → to_u64 (pos (int_max_signed w)) ≡ int_max_signed w
unfolding to_u64 int_max_signed
word_max w h = ground (arith, h)

pub source_int : (src : TypeKind) → is_int src ≡ true → is_char src ≡ false
unfolding is_int
source_int src h = ground (arith, h)

-- A word that a helper cut to a width keeps its digits.
cut_words :
    (w n : ℕ)
    → IsWidth w
    → (masked w (to_u64 (to_i64 (zext n w))) ≡ masked w n)
      × (masked w (to_u64 (pos (zext n w))) ≡ masked w n)
unfolding masked int_mask zext mask_bits to_i64 to_u64
cut_words w n (inl i) = rw i (ground arith)
cut_words w n (inr (inl i)) = rw i (ground arith)
cut_words w n (inr (inr (inl i))) = rw i (ground arith)
cut_words w n (inr (inr (inr i))) = rw i (ground arith)

-- The runtime's test of the range is the interpreter's.
module _ (dest : TypeKind) (int : is_int dest ≡ true) where
  width : IsWidth (int_bits dest)
  width = int_bits-IsWidth dest int

  not_char : is_char dest ≡ false
  not_char = source_int dest int

  checked_lem :
      (e : ℤ)
      → checked_bits (number e) (int_bits dest) (is_signed_int dest) ≡ (
          if fits_destination (is_negative e) (to_u64 e) dest
          then done (to_u64 e)
          else stop "integer conversion out of range")
  unfolding checked_bits fits_u
  checked_lem e = elim (Bool-cases (is_signed_int dest)) [
    | inl signed ↦
        let b = bounds_lem (int_bits dest) width in
        rw (fits-plain e dest int, signed, int_min-signed dest signed, b.0, b.1)
          (ground (arith, word_max (int_bits dest) width))
    | inr unsigned ↦
        rw (fits-plain e dest int, unsigned, mask_lem (int_bits dest) width) (ground arith)
  ]

  -- What a conversion gives where the source is the number.
  abbrev converted : ℤ → Bool → Outcome ℤ
  converted e c =
      if c && not (fits_destination (is_negative e) (to_u64 e) dest)
      then stop "integer conversion out of range"
      else done (value_of dest (v_int dest (to_u64 e)))

  same :
      (e x : ℤ)
      → masked (int_bits dest) (to_u64 x) ≡ masked (int_bits dest) (to_u64 e)
      → cast_to dest x ≡ value_of dest (v_int dest (to_u64 e))
  same e x h = same_result dest int x (to_u64 e) h

  -- After a checked conversion, by how the word is passed on.
  after_check :
      (e : ℤ) (f : ℕ → ℤ)
      → to_u64 (f (to_u64 e)) ≡ to_u64 e
      → (checked_bits (number e) (int_bits dest) (is_signed_int dest) >>= λ n.
          done (cast_to dest (f n)))
        ≡ converted e true
  after_check e f h =
      rw (checked_lem e) (elim (Bool-cases (fits_destination (is_negative e) (to_u64 e) dest)) [
        | inl fits ↦ rw fits (ap done (same e (f (to_u64 e)) (ap (masked (int_bits dest)) h)))
        | inr out ↦ rw out refl
      ])

  then_cast :
      (o : Outcome ℕ) (f : ℕ → ℤ)
      → ((o >>= λ n. done (f n)) >>= λ r. done (cast_to dest r))
        ≡ (o >>= λ n. done (cast_to dest (f n)))
  then_cast (done n) f = refl
  then_cast (stop message) f = refl

  cut_as :
      (e : ℤ)
      → masked (int_bits dest) (
          to_u64 (
            let r = to_i64 (zext (to_u64 e) (int_bits dest)) in
            if is_signed_int dest then sext r (int_bits dest) else r))
        ≡ masked (int_bits dest) (to_u64 e)
  unfolding wrapped
  cut_as e = elim (Bool-cases (is_signed_int dest)) [
    | inl signed ↦ rw signed (wrapped_lem (int_bits dest) (to_u64 e) width)
    | inr unsigned ↦ rw unsigned (cut_words (int_bits dest) (to_u64 e) width).0
  ]

  from_signed :
      (a e : ℤ) (bits : ℕ) (c : Bool)
      → source_of (to_u64 a) bits true ≡ number e
      → (conv_s a bits true (int_bits dest) (is_signed_int dest) c >>= λ r. done (cast_to dest r))
        ≡ converted e c
  unfolding conv_s
  from_signed a e bits true h = rw h (
      then_cast (checked_bits (number e) (int_bits dest) (is_signed_int dest)) to_i64
      ∙ after_check e to_i64 (there_and_back e))
  from_signed a e bits false h = rw h (ap done (same e _ (cut_as e)))

  from_unsigned :
      (a bits : ℕ) (e : ℤ) (c : Bool)
      → source_of a bits false ≡ number e
      → (conv_u a bits false (int_bits dest) (is_signed_int dest) c >>= λ n.
          done (cast_to dest (pos n)))
        ≡ converted e c
  unfolding conv_u
  from_unsigned a bits e true h = rw h (after_check e pos (twice e))
  from_unsigned a bits e false h =
      rw h (ap done (same e _ (cut_words (int_bits dest) (to_u64 e) width).1))

  -- The interpreter's conversion.
  interpreted :
      (src : TypeKind) (v : Value) (c : Bool)
      → is_int src ≡ true
      → observed dest (convert_int v src dest c) ≡ converted (value_of src v) c
  unfolding convert_int
  interpreted src v c int' =
      let e = value_of src v in
      let (negative, bits, wide) = source_parts src int' v in
      rw (convert_int, negative, bits, stored_bits-is_int dest (to_u64 e) int)
        (elim (Bool-cases (c && not (fits_destination (is_negative e) (to_u64 e) dest))) [
          | inl out ↦ rw out refl
          | inr fits ↦ rw fits refl
        ])

  module _ (env : ℕ → ℤ) (src : TypeKind) (int' : is_int src ≡ true) (x : CExpr) (v : Value)
      (c : Bool) (hx : run env x ≡ done (value_of src v)) where
    pub to_int :
        run_conversion env (emit_conversion src dest c x) ≡ observed dest (convert_int v src dest c)
    unfolding run_conversion emit_conversion run_call run word_cast is_unsigned_int
    to_int = elim (Bool-cases (is_signed_int src)) [
      | inl signed ↦
          rw
            (
              source_int src int',
              not_char,
              signed,
              int',
              rw signed at hx,
              there_and_back (as_s v src),
            )
            (from_signed _ (as_s v src) _ c
                (rw (there_and_back (as_s v src)) (source_s src int' v signed))
              ∙ sym (rw signed at (interpreted src v c int')))
      | inr unsigned ↦
          rw
            (
              source_int src int',
              not_char,
              unsigned,
              int',
              rw unsigned at hx,
              twice (pos (as_u v src)),
            )
            (then_cast _ pos
              ∙ from_unsigned _ _ (pos (as_u v src)) c (
                  ap (λ n. source_of n (int_bits src) false)
                    (word_of src (as_u v src) int' (as_u_fits src int' v v v))
                  ∙ source_u src int' v unsigned)
              ∙ sym (rw unsigned at (interpreted src v c int')))
    ]
