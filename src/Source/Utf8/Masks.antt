-- ===== src/Source/Utf8/Masks.antt =====
-- The masks that `utf8_next` tests a byte with, as ranges and remainders.
use Prim.Native.Nat.{bit_and}
use luce_seed.Base.Bits.{all_below, same_test, same_number}
use luce_seed.Base.{ℕ, ◌%◌, ◌<◌, ◌≡◌, refl, within, ◌==◌}

module _ (x : ℕ) (byte : x < 256) where
  pub lead_two : (bit_and x 0xE0 == 0xC0) ≡ within 0xC0 0xDF x
  unfolding all_below
  lead_two = same_test (λ x. bit_and x 0xE0 == 0xC0) (λ x. within 0xC0 0xDF x) x refl byte

  pub lead_three : (bit_and x 0xF0 == 0xE0) ≡ within 0xE0 0xEF x
  unfolding all_below
  lead_three = same_test (λ x. bit_and x 0xF0 == 0xE0) (λ x. within 0xE0 0xEF x) x refl byte

  pub lead_four : (bit_and x 0xF8 == 0xF0) ≡ within 0xF0 0xF7 x
  unfolding all_below
  lead_four = same_test (λ x. bit_and x 0xF8 == 0xF0) (λ x. within 0xF0 0xF7 x) x refl byte

  pub continues : (bit_and x 0xC0 == 0x80) ≡ within 0x80 0xBF x
  unfolding all_below
  continues = same_test (λ x. bit_and x 0xC0 == 0x80) (λ x. within 0x80 0xBF x) x refl byte

  pub low_five : bit_and x 0x1F ≡ x % 32
  unfolding all_below
  low_five = same_number (λ x. bit_and x 0x1F) (λ x. x % 32) x refl byte

  pub low_four : bit_and x 0x0F ≡ x % 16
  unfolding all_below
  low_four = same_number (λ x. bit_and x 0x0F) (λ x. x % 16) x refl byte

  pub low_three : bit_and x 0x07 ≡ x % 8
  unfolding all_below
  low_three = same_number (λ x. bit_and x 0x07) (λ x. x % 8) x refl byte
