-- ===== src/Base/Bits.antt =====
-- `&`, `|` and shifts of the C code as arithmetic, at every width.
use Prim.Native.Nat.{
  ℕ, zero, suc, ◌+◌, ◌-◌, ◌*◌, ◌/◌, ◌%◌, ◌^◌, ◌≤◌, ◌<◌, min, max, bit_and, bit_or, digits, bitwise,
  bit_and-bitwise, bit_or-bitwise,
}
use mathlib.Core.Path.{◌≡◌, refl, ap}
use mathlib.Core.Bool.{Bool, true, ◌&&◌}
use native.Mathlib.Omega.{arith}
use native.Mathlib.Nat.{pow-suc, one-le-pow}

-- Evaluation of a test at every number below a bound.
unfoldable pub holds_below : ℕ → (ℕ → Bool) → Bool
holds_below zero p = true
holds_below (suc n) p = p n && holds_below n p

pub holds_below_lem : (n : ℕ) (p : ℕ → Bool) → holds_below n p ≡ true → (x : ℕ) → x < n → p x ≡ true
unfolding holds_below
holds_below_lem zero p e x h = absurd (omega arith)
holds_below_lem (suc n) p e x h = ground (arith, holds_below_lem n p (ground arith) x)

module _ (last : ℕ → ℕ) (op : ℕ → ℕ → ℕ) where
  -- More fuel than digits changes nothing.
  fuel_enough : (n m a b : ℕ) → a ≤ n → a ≤ m → digits last op n a b ≡ digits last op m a b
  fuel_enough zero zero a b p q = refl
  fuel_enough zero (suc m) zero b p q = refl
  fuel_enough zero (suc m) (suc a) b p q = absurd (omega arith)
  fuel_enough (suc n) zero zero b p q = refl
  fuel_enough (suc n) zero (suc a) b p q = absurd (omega arith)
  fuel_enough (suc n) (suc m) zero b p q = refl
  fuel_enough (suc n) (suc m) (suc a) b p q =
      ap (λ (t : ℕ). t * 2 + op (suc a % 2) (b % 2))
        (fuel_enough n m (suc a / 2) (b / 2) (omega arith) (omega arith))

  lowest_digit :
      (a b : ℕ)
      → bitwise last op (suc a) b ≡ bitwise last op (suc a / 2) (b / 2) * 2 + op (suc a % 2) (b % 2)
  lowest_digit a b =
      ap (λ (t : ℕ). t * 2 + op (suc a % 2) (b % 2))
        (fuel_enough a (suc a / 2) (suc a / 2) (b / 2) (omega arith) (omega arith))

and_digit : (a b : ℕ) → bit_and a b ≡ bit_and (a / 2) (b / 2) * 2 + min (a % 2) (b % 2)
and_digit zero b = simp bit_and-bitwise (omega arith)
and_digit (suc a) b = simp bit_and-bitwise (lowest_digit (λ y. 0) min a b)

pub or_digit : (a b : ℕ) → bit_or a b ≡ bit_or (a / 2) (b / 2) * 2 + max (a % 2) (b % 2)
or_digit zero b = simp bit_or-bitwise (omega arith)
or_digit (suc a) b = simp bit_or-bitwise (lowest_digit (λ y. y) max a b)

zero-bit_and : (b : ℕ) → bit_and 0 b ≡ 0
zero-bit_and b = bit_and-bitwise 0 b

pub zero-bit_or : (b : ℕ) → bit_or 0 b ≡ b
zero-bit_or b = bit_or-bitwise 0 b

-- `a & (2 ^ k - 1)` is the remainder.
and_zero_bounded : (n a : ℕ) → a ≤ n → bit_and a 0 ≡ 0
and_zero_bounded n zero h = zero-bit_and 0
and_zero_bounded zero (suc a) h = absurd (omega arith)
and_zero_bounded (suc n) (suc a) h =
    omega (arith, and_digit (suc a) 0, and_zero_bounded n (suc a / 2) (omega arith))

or_zero_bounded : (n a : ℕ) → a ≤ n → bit_or a 0 ≡ a
or_zero_bounded n zero h = zero-bit_or 0
or_zero_bounded zero (suc a) h = absurd (omega arith)
or_zero_bounded (suc n) (suc a) h =
    omega (arith, or_digit (suc a) 0, or_zero_bounded n (suc a / 2) (omega arith))

pub bit_or-zero : (a : ℕ) → bit_or a 0 ≡ a
bit_or-zero a = or_zero_bounded a a (omega arith)

double_pow : (q k : ℕ) → q * 2 ^ suc k ≡ 2 * (q * 2 ^ k)
double_pow q k = omega (arith, ap (λ (t : ℕ). q * t) (pow-suc 2 k))

-- A mask of `k` ones keeps the `k` lowest bits of a number split there.
mask_split : (k q r : ℕ) → r < 2 ^ k → bit_and (q * 2 ^ k + r) (2 ^ k - 1) ≡ r
mask_split zero q r h = omega (arith, and_zero_bounded (q * 1 + r) (q * 1 + r) (omega arith))
mask_split (suc k) q r h = ground (
  arith,
  double_pow q k,
  pow-suc 2 k,
  and_digit (q * 2 ^ suc k + r) (2 ^ suc k - 1),
  mask_split k q (r / 2),
)

-- `a & (2 ^ k - 1)` is the remainder.
pub mask_remainder : (k a : ℕ) → bit_and a (2 ^ k - 1) ≡ a % 2 ^ k
mask_remainder k a = ground (arith, one-le-pow k 2, mask_split k (a / 2 ^ k) (a % 2 ^ k))

-- `acc | (x << k)` adds when `acc` has only the `k` lowest bits.
pub or_shifted : (k acc x : ℕ) → acc < 2 ^ k → bit_or acc (x * 2 ^ k) ≡ acc + x * 2 ^ k
or_shifted zero zero x h = omega (arith, zero-bit_or (x * 1))
or_shifted zero (suc acc) x h = absurd (omega arith)
or_shifted (suc k) acc x h =
    ground
      (arith, double_pow x k, pow-suc 2 k, or_digit acc (x * 2 ^ suc k), or_shifted k (acc / 2) x)

pub bit_or_comm : (n a b : ℕ) → a ≤ n → bit_or a b ≡ bit_or b a
bit_or_comm n zero b h = omega (arith, zero-bit_or b, bit_or-zero b)
bit_or_comm zero (suc a) b h = absurd (omega arith)
bit_or_comm (suc n) (suc a) b h =
    omega (
      arith,
      or_digit (suc a) b,
      or_digit b (suc a),
      bit_or_comm n (suc a / 2) (b / 2) (omega arith),
    )
