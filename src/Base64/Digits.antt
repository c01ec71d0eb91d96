-- ===== src/Base64/Digits.antt =====
-- The alphabet of fbase64.c, digit by digit, and the four digits of three bytes.
use fantasy_iq.Base.{
  ℕ, ◌+◌, ◌*◌, ◌/◌, ◌%◌, ◌<◌, ◌==◌, Bool, true, false, not, ◌&&◌, ◌≡◌, refl, arith, Option, none,
  some,
}
use fantasy_iq.Base.Bits.{mask_remainder, holds_below, holds_below_lem}
use fantasy_iq.Base64.{
  base64, letter, position_in, isspace, pad64, output₀, output₁, output₂, output₃,
}

-- `strchr` finds a digit's letter at the digit.
abbrev is_found_at : ℕ → Option ℕ → Bool
is_found_at d none = false
is_found_at d (some i) = i == d

abbrev letter_is_good : ℕ → Bool
letter_is_good d =
    is_found_at d (position_in base64 (letter d))
    && (not (isspace (letter d)) && not (letter d == pad64))

all_letters : holds_below 64 letter_is_good ≡ true
unfolding holds_below letter base64 position_in isspace
all_letters = refl

pub letter_lem :
    (d : ℕ)
    → d < 64
    → (position_in base64 (letter d) ≡ some d)
      × (isspace (letter d) ≡ false)
      × ((letter d == pad64) ≡ false)
letter_lem d h = ground (arith, holds_below_lem 64 letter_is_good all_letters d h)

pub pad_is_no_space : isspace pad64 ≡ false
unfolding isspace
pad_is_no_space = refl

-- The digits in plain arithmetic.
pub outputs :
    (x y z : ℕ)
    → x < 256
    → y < 256
    → z < 256
    → (output₀ x ≡ x / 4)
      × (output₁ x y ≡ x % 4 * 16 + y / 16)
      × (output₂ y z ≡ y % 16 * 4 + z / 64)
      × (output₃ z ≡ z % 64)
outputs x y z hx hy hz = omega (arith, mask_remainder 2 x, mask_remainder 4 y, mask_remainder 6 z)
