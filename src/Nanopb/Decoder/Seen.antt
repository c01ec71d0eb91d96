-- ===== src/Nanopb/Decoder/Seen.antt =====
-- The bitmap of pb_decode_noinit (nanopb/pb_decode.c) as a set of required fields.
use fantasy_iq.Base.{
  ℕ, zero, suc, ◌+◌, ◌-◌, ◌*◌, ◌/◌, ◌%◌, ◌^◌, ◌<◌, ◌≤◌, max, bit_and, bit_or, Bool, true, false,
  ◌||◌, List, [], ◌∷◌, ◌==◌, ltb, if◌then◌else◌, ◌≡◌, ◌≢◌, ◌↔◌, refl, arith, Bool-cases, inl, inr,
  sym, ◌∙◌,
}
use native.Mathlib.Nat.{pow-suc, one-le-pow}
use fantasy_iq.Base.Bits.{or_digit, bit_or-zero, mask_remainder, holds_below, holds_below_lem}
use fantasy_iq.Nanopb.Decoder.Required.{mark_seen, all_seen, whole_words, all_bits}

abbrev pub bit : Bool → ℕ
bit b = if b then 1 else 0

-- The number whose bits below `k` are a set's.
unfoldable pub word : ℕ → (ℕ → Bool) → ℕ
word zero f = 0
word (suc k) f = bit (f 0) + 2 * word k (λ i. f (suc i))

-- The two words of a set of numbers below 64.
unfoldable pub words : (ℕ → Bool) → List ℕ
words f = word 32 f ∷ word 32 (λ i. f (i + 32)) ∷ []

abbrev pub marked : ℕ → (ℕ → Bool) → ℕ → Bool
marked i f j = i == j || f j

abbrev pub AllBelow : ℕ → (ℕ → Bool) → Type 0
AllBelow n f = (i : ℕ) → i < n → f i ≡ true

-- Nothing from `b` on and below `k`.
abbrev pub NoneFrom : ℕ → ℕ → (ℕ → Bool) → Type 0
NoneFrom b k f = (i : ℕ) → b ≤ i → i < k → f i ≡ false

pub word-ext : (k : ℕ) (f g : ℕ → Bool) → ((i : ℕ) → i < k → f i ≡ g i) → word k f ≡ word k g
unfolding word
word-ext zero f g h = refl
word-ext (suc k) f g h =
    let here = h 0 (omega arith) in
    let rest = word-ext k (λ i. f (suc i)) (λ i. g (suc i)) (λ i lo. h (suc i) (omega arith)) in
    rw (here, rest) refl

-- A bit set with `|`.
pub bit_or-word : (k i : ℕ) (f : ℕ → Bool) → i < k → bit_or (word k f) (2 ^ i) ≡ word k (marked i f)
unfolding word
bit_or-word zero i f h = absurd (omega arith)
bit_or-word (suc k) zero f h =
    let w = word k (λ i. f (suc i)) in
    let rest : w ≡ word k (λ i. marked 0 f (suc i)) = word-ext k _ _ (λ i lo. ground arith) in
    let digit = or_digit (bit (f 0) + 2 * w) 1 in
    let half : (bit (f 0) + 2 * w) / 2 ≡ w = ground arith in
    let low : max ((bit (f 0) + 2 * w) % 2) 1 ≡ 1 = ground arith in
    rw (half, bit_or-zero w, low) at digit ∙ rw (sym rest) (omega arith)
bit_or-word (suc k) (suc i) f h =
    let w = word k (λ j. f (suc j)) in
    let rest : word k (marked i (λ j. f (suc j))) ≡ word k (λ j. marked (suc i) f (suc j)) =
      word-ext k _ _ (λ j lo. ground arith) in
    let digit = or_digit (bit (f 0) + 2 * w) (2 ^ suc i) in
    let ih = bit_or-word k i (λ j. f (suc j)) (omega arith) in
    let half : (bit (f 0) + 2 * w) / 2 ≡ w = ground arith in
    let power : 2 ^ suc i / 2 ≡ 2 ^ i = omega (arith, pow-suc 2 i) in
    let low : max ((bit (f 0) + 2 * w) % 2) (2 ^ suc i % 2) ≡ bit (marked (suc i) f 0) =
      ground (arith, pow-suc 2 i) in
    rw (half, power, low, ih, rest) at digit ∙ omega arith

-- The lowest bits alone.
pub word-AllBelow : (k b : ℕ) (f : ℕ → Bool) → b ≤ k → word k f ≡ 2 ^ b - 1 → AllBelow b f
unfolding word
word-AllBelow k zero f h e i lo = absurd (omega arith)
word-AllBelow zero (suc b) f h e i lo = absurd (omega arith)
word-AllBelow (suc k) (suc b) f h e zero lo = ground (arith, pow-suc 2 b, one-le-pow b 2)
word-AllBelow (suc k) (suc b) f h e (suc i) lo =
    word-AllBelow k b (λ j. f (suc j)) (omega arith) (ground (arith, pow-suc 2 b, one-le-pow b 2)) i
      (omega arith)

pub AllBelow-word :
    (k b : ℕ) (f : ℕ → Bool) → b ≤ k → NoneFrom b k f → AllBelow b f → word k f ≡ 2 ^ b - 1
unfolding word
AllBelow-word zero zero f h none all = refl
AllBelow-word zero (suc b) f h none all = absurd (omega arith)
AllBelow-word (suc k) zero f h none all =
    let first = none 0 (omega arith) (omega arith) in
    let rest =
      AllBelow-word k 0 (λ j. f (suc j)) (omega arith)
        (λ i lo hi. none (suc i) (omega arith) (omega arith)) (λ i lo. absurd (omega arith)) in
    rw (first, rest) refl
AllBelow-word (suc k) (suc b) f h none all =
    let first = all 0 (omega arith) in
    let rest =
      AllBelow-word k b (λ j. f (suc j)) (omega arith)
        (λ i lo hi. none (suc i) (omega arith) (omega arith)) (λ i lo. all (suc i) (omega arith)) in
    rw (first, rest) (omega (arith, pow-suc 2 b, one-le-pow b 2))

-- Marking a required field adds its number to the set of those seen.
pub mark_seen-marked : (i : ℕ) (f : ℕ → Bool) → i < 64 → mark_seen i (words f) ≡ words (marked i f)
unfolding mark_seen words
mark_seen-marked i f h = elim (Bool-cases (i / 32 == 0)) [
  | inl e ↦
      let first : i / 32 ≡ 0 = ground arith in
      let low : bit_and i 31 ≡ i = omega (arith, mask_remainder 5 i) in
      let rest : word 32 (λ j. f (j + 32)) ≡ word 32 (λ j. marked i f (j + 32)) =
        word-ext 32 _ _ (λ j lo. ground arith) in
      rw (first, low, bit_or-word 32 i f (omega arith), rest) refl
  | inr e ↦
      let second : i / 32 ≡ 1 = ground arith in
      let low : bit_and i 31 ≡ i - 32 = omega (arith, mask_remainder 5 i) in
      let same : word 32 (marked (i - 32) (λ j. f (j + 32))) ≡ word 32 (λ j. marked i f (j + 32)) =
        word-ext 32 _ _ (λ j lo. ground arith) in
      let first : word 32 f ≡ word 32 (marked i f) = word-ext 32 _ _ (λ j lo. ground arith) in
      rw (second, low, bit_or-word 32 (i - 32) (λ j. f (j + 32)) (omega arith), same, first) refl
]

-- `allbits >> (32 - bits)`
mask_of : (n : ℕ) → n < 32 → n ≢ 0 → all_bits / 2 ^ (32 - n) ≡ 2 ^ n - 1
mask_of n h some =
    let q : ℕ → Bool = λ n. n == 0 || all_bits / 2 ^ (32 - n) == 2 ^ n - 1 in
    let e = holds_below_lem 32 q (unfold holds_below in refl) n h in ground arith

-- The test of the words that are not whole.
rest_of :
    (n : ℕ) (f : ℕ → Bool)
    → n < 32
    → NoneFrom n 32 f
    → ((n == 0 || word 32 f == all_bits / 2 ^ (32 - n)) ≡ true) ↔ AllBelow n f
rest_of n f h none = (
  (λ e. elim (Bool-cases (n == 0)) [
    | inl z ↦ λ i lo. absurd (ground arith)
    | inr some ↦ word-AllBelow 32 n f (omega arith) (ground (arith, mask_of n h))
  ]),
  (λ all. let w = AllBelow-word 32 n f (omega arith) none all in ground (arith, mask_of n h)),
)

whole : (f : ℕ → Bool) → ((word 32 f == all_bits) ≡ true) ↔ AllBelow 32 f
whole f = (
  (λ e. word-AllBelow 32 32 f (omega arith) (ground arith)),
  (λ all.
      let w = AllBelow-word 32 32 f (omega arith) (λ i lo hi. absurd (omega arith)) all in
      ground arith),
)

-- A set below 32 and one from there on.
joined :
    (n : ℕ) (f : ℕ → Bool)
    → 32 ≤ n
    → AllBelow 32 f
    → AllBelow (n - 32) (λ i. f (i + 32))
    → AllBelow n f
joined n f h low high i lo = elim (Bool-cases (ltb i 32)) [
  | inl e ↦ low i (ground arith)
  | inr e ↦ let up : i - 32 + 32 ≡ i = ground arith in rw up at (high (i - 32) (ground arith))
]

-- With no number from `n` on in the set, the check of the bitmap succeeds exactly when every
-- number below `n` is in it, for the at most 64 required fields that are checked.
pub all_seen-AllBelow :
    (n : ℕ) (f : ℕ → Bool) → n ≤ 64 → NoneFrom n 64 f → (all_seen n (words f) ≡ true) ↔ AllBelow n f
unfolding all_seen whole_words words
all_seen-AllBelow n f h none =
    let low : bit_and n 31 ≡ n % 32 = mask_remainder 5 n in
    let g : ℕ → Bool = λ i. f (i + 32) in
    elim (Bool-cases (ltb n 32)) [
      | inl e ↦
          let first : n / 32 ≡ 0 = ground arith in
          let same : n % 32 ≡ n = ground arith in
          rw (low, first, same) (rest_of n f (ground arith) (λ i lo hi. none i lo (omega arith)))
      | inr e ↦ elim (Bool-cases (n == 64)) [
        | inl full ↦
            let second : n ≡ 64 = ground arith in
            let (to₀, from₀) = whole f in
            let (to₁, from₁) = whole g in
            rw second (
              (λ seen. joined 64 f (omega arith) (to₀ (ground arith)) (to₁ (ground arith))),
              (λ all.
                  let a = from₀ (λ i lo. all i (omega arith)) in
                  let b = from₁ (λ i lo. all (i + 32) (omega arith)) in ground arith),
            )
        | inr partial ↦
            let first : n / 32 ≡ 1 = ground arith in
            let same : n % 32 ≡ n - 32 = ground arith in
            let (to₀, from₀) = whole f in
            let (to₁, from₁) =
              rest_of (n - 32) g (ground arith)
                (λ i lo hi. none (i + 32) (omega arith) (omega arith)) in
            rw (low, first, same)
              (
                (λ seen. joined n f (ground arith) (to₀ (ground arith)) (to₁ (ground arith))),
                (λ all.
                    let a = from₀ (λ i lo. all i (ground arith)) in
                    let b = from₁ (λ i lo. all (i + 32) (ground arith)) in ground arith),
              )
      ]
    ]
