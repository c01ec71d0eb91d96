-- ===== src/Nanopb/Decode/Bytes.antt =====
-- Masks on bytes and shifted digits, as the varint loops of nanopb/pb_decode.c meet them.
use fantasy_iq.Base.{
  ℕ, zero, suc, ◌+◌, ◌-◌, ◌*◌, ◌/◌, ◌%◌, ◌^◌, ◌<◌, ◌≤◌, bit_and, bit_or, ◌≡◌, refl, ap, arith, true,
  if◌then◌else◌, ltb, ◌==◌, ◌∙◌, sym,
}
use fantasy_iq.Base.Bits.{mask_remainder, or_shifted, holds_below, holds_below_lem}
use native.Mathlib.Nat.{
  pow-suc, mod-add-div, mod-lt, one-le-pow, add-mul-mod_self_left, mod-eq_of_lt,
}

top_bit_table : holds_below 256 (λ b. bit_and b 0x80 == (if ltb b 128 then 0 else 128)) ≡ true
unfolding holds_below
top_bit_table = refl

pub top_bit : (b : ℕ) → b < 256 → bit_and b 0x80 ≡ (if ltb b 128 then 0 else 128)
top_bit b h = ground (
  arith,
  holds_below_lem 256 (λ b. bit_and b 0x80 == (if ltb b 128 then 0 else 128)) top_bit_table b h,
)

pub top_bit-clear : (b : ℕ) → b < 128 → bit_and b 0x80 ≡ 0
top_bit-clear b h = ground (arith, top_bit b)

pub top_bit-set : (b : ℕ) → 128 ≤ b → b < 256 → bit_and b 0x80 ≡ 128
top_bit-set b lo hi = ground (arith, top_bit b)

pub low_seven : (b : ℕ) → bit_and b 0x7F ≡ b % 128
low_seven = mask_remainder 7

pub pow-add : (a b : ℕ) → 2 ^ (a + b) ≡ 2 ^ a * 2 ^ b
pow-add zero b = ground arith
pow-add (suc a) b =
    let e : suc a + b ≡ suc (a + b) = omega arith in
    rw e (
      omega (
        arith,
        pow-suc 2 (a + b),
        pow-suc 2 a,
        pow-add a b,
        ap (λ (t : ℕ). t * 2 ^ b) (pow-suc 2 a),
      ))

pow-sub : (w pos : ℕ) → pos ≤ w → 2 ^ (w - pos) * 2 ^ pos ≡ 2 ^ w
pow-sub w pos h =
    let e : w - pos + pos ≡ w = omega arith in sym (pow-add (w - pos) pos) ∙ ap (λ (t : ℕ). 2 ^ t) e

split_digit :
    (x m p : ℕ) → 0 < m → 0 < p → (x * p ≡ x % m * p + m * p * (x / m)) × (x % m * p + p ≤ m * p)
split_digit x m p hm hp =
    let e : x * p ≡ (x % m + m * (x / m)) * p = ap (λ (t : ℕ). t * p) (sym (mod-add-div x m)) in
    let lt : x % m < m = mod-lt x hm in (omega arith, grind arith)

pow-pos : (k : ℕ) → 0 < 2 ^ k
pow-pos k = one-le-pow k 2 (omega arith)

-- A digit shifted to bit `pos` of a word of `w` bits, and what is lost above the word.
shift_split :
    (w pos x : ℕ)
    → pos ≤ w
    → let r = x % 2 ^ (w - pos) in
      (x * 2 ^ pos ≡ r * 2 ^ pos + 2 ^ w * (x / 2 ^ (w - pos))) × (r * 2 ^ pos + 2 ^ pos ≤ 2 ^ w)
shift_split w pos x h =
    rw (pow-sub w pos h) at
      (split_digit x (2 ^ (w - pos)) (2 ^ pos) (pow-pos (w - pos)) (pow-pos pos))

pub shift_wraps : (w pos x : ℕ) → pos ≤ w → x * 2 ^ pos % 2 ^ w ≡ x % 2 ^ (w - pos) * 2 ^ pos
shift_wraps w pos x h =
    let (split, small) = shift_split w pos x h in
    rw (split, add-mul-mod_self_left) (mod-eq_of_lt (omega (arith, pow-pos pos)))

-- `acc | (x << pos)` in a word of `w` bits.
pub or_digit_wraps :
    (w pos acc x : ℕ)
    → pos ≤ w
    → acc < 2 ^ pos
    → bit_or acc (x * 2 ^ pos % 2 ^ w) ≡ (acc + x * 2 ^ pos) % 2 ^ w
or_digit_wraps w pos acc x h fits =
    let (split, small) = shift_split w pos x h in
    let r = x % 2 ^ (w - pos) in
    let sum : acc + x * 2 ^ pos ≡ acc + r * 2 ^ pos + 2 ^ w * (x / 2 ^ (w - pos)) = omega arith in
    rw (
      shift_wraps w pos x h,
      or_shifted pos acc r fits,
      sum,
      add-mul-mod_self_left,
      mod-eq_of_lt {n = acc + r * 2 ^ pos} {m = 2 ^ w} (omega arith),
    )

pub pow-le-pow : (a w : ℕ) → a ≤ w → 2 ^ a ≤ 2 ^ w
pow-le-pow a w h = let pos = pow-pos (w - a) in let e = pow-sub w a h in rw (← e) (grind arith)
