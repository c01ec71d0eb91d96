-- ===== src/Base64/Pton.antt =====
-- The switch of f_b64_pton, one state at a time.
pub mod Letters
use fantasy_iq.Base.{
  ℕ, zero, suc, ◌+◌, ◌*◌, ◌/◌, ◌%◌, ◌<◌, ◌≤◌, ◌^◌, bit_and, bit_or, List, [], ◌∷◌, ◌++◌, length,
  get_or, set, leb, if◌then◌else◌, ◌==◌, Option, none, some, ◌≡◌, refl, arith, get_middle,
  set_middle, set_second, ◌∙◌,
}
use fantasy_iq.Base.Bits.{mask_remainder, or_shifted, bit_or_comm}
use fantasy_iq.Base64.{Decoding, pton_digit}

-- The state, the index and the target behind the bytes `done`.
abbrev pub at : ℕ → ℕ → List ℕ → Decoding
at state i t = record { state = state; tarindex = i; target = some t }

or_low : (k q r : ℕ) → r < 2 ^ k → bit_or (q * 2 ^ k) r ≡ q * 2 ^ k + r
or_low k q r h =
    bit_or_comm (q * 2 ^ k) (q * 2 ^ k) r (omega arith) ∙ omega (arith, or_shifted k r q h)

pub digit₀ :
    (targsize d o : ℕ) (done old : List ℕ)
    → d < 64
    → length done < targsize
    → pton_digit targsize d (at 0 (length done) (done ++ (o ∷ old)))
      ≡ some (at 1 (length done) (done ++ (d * 4 ∷ old)))
unfolding pton_digit
digit₀ targsize d o done old h room =
    let byte : d * 4 % 256 ≡ d * 4 = omega arith in
    rw (set_middle done o (d * 4 % 256) old, byte) (ground arith)

pub digit₁ :
    (targsize d q o : ℕ) (done old : List ℕ)
    → d < 64
    → q < 64
    → suc (length done) < targsize
    → suc (length done) < 2 ^ 32
    → pton_digit targsize d (at 1 (length done) (done ++ (q * 4 ∷ (o ∷ old))))
      ≡ some (at 2 (suc (length done)) (done ++ ((q * 4 + d / 16) ∷ (d % 16 * 16 ∷ old))))
unfolding pton_digit
digit₁ targsize d q o done old hd hq room small =
    let next : (length done + 1) % 2 ^ 32 ≡ suc (length done) = omega arith in
    let merged : bit_or (q * 4) (d / 16) % 256 ≡ q * 4 + d / 16 =
      omega (arith, or_low 2 q (d / 16) (omega arith)) in
    let low : bit_and d 0x0f * 2 ^ 4 % 256 ≡ d % 16 * 16 = omega (arith, mask_remainder 4 d) in
    rw
      (
        next,
        get_middle done (q * 4) 0 (o ∷ old),
        merged,
        set_middle done (q * 4) (q * 4 + d / 16) (o ∷ old),
        low,
        set_second done (q * 4 + d / 16) o (d % 16 * 16) old,
      )
      (ground arith)

pub digit₂ :
    (targsize d q o : ℕ) (done old : List ℕ)
    → d < 64
    → q < 16
    → suc (length done) < targsize
    → suc (length done) < 2 ^ 32
    → pton_digit targsize d (at 2 (length done) (done ++ (q * 16 ∷ (o ∷ old))))
      ≡ some (at 3 (suc (length done)) (done ++ ((q * 16 + d / 4) ∷ (d % 4 * 64 ∷ old))))
unfolding pton_digit
digit₂ targsize d q o done old hd hq room small =
    let next : (length done + 1) % 2 ^ 32 ≡ suc (length done) = omega arith in
    let merged : bit_or (q * 16) (d / 4) % 256 ≡ q * 16 + d / 4 =
      omega (arith, or_low 4 q (d / 4) (omega arith)) in
    let low : bit_and d 0x03 * 2 ^ 6 % 256 ≡ d % 4 * 64 = omega (arith, mask_remainder 2 d) in
    rw
      (
        next,
        get_middle done (q * 16) 0 (o ∷ old),
        merged,
        set_middle done (q * 16) (q * 16 + d / 4) (o ∷ old),
        low,
        set_second done (q * 16 + d / 4) o (d % 4 * 64) old,
      )
      (ground arith)

pub digit₃ :
    (targsize d q : ℕ) (done old : List ℕ)
    → d < 64
    → q < 4
    → length done < targsize
    → suc (length done) < 2 ^ 32
    → pton_digit targsize d (at 3 (length done) (done ++ (q * 64 ∷ old)))
      ≡ some (at 0 (suc (length done)) (done ++ ((q * 64 + d) ∷ old)))
unfolding pton_digit
digit₃ targsize d q done old hd hq room small =
    let next : (length done + 1) % 2 ^ 32 ≡ suc (length done) = omega arith in
    let merged : bit_or (q * 64) d % 256 ≡ q * 64 + d = omega (arith, or_low 6 q d (omega arith)) in
    rw (next, get_middle done (q * 64) 0 old, merged, set_middle done (q * 64) (q * 64 + d) old)
      (ground arith)
