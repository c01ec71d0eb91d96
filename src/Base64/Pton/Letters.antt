-- ===== src/Base64/Pton/Letters.antt =====
-- f_b64_pton on the letters of one group of f_b64_ntop, and on the pads at the end.
use fantasy_iq.Base.{
  ℕ, suc, ◌+◌, ◌*◌, ◌/◌, ◌%◌, ◌^◌, ◌<◌, List, [], ◌∷◌, ◌++◌, length, some, ◌≡◌, refl, arith,
  append_assoc, length-append, ◌∙◌, ap, sym, get_middle,
}
use fantasy_iq.Base64.{Decoding, at_pad, letter, pad64, pton_digit, pton_loop, pton_end}
use fantasy_iq.Base64.Digits.{letter_lem, pad_is_no_space}
use fantasy_iq.Base64.Pton.{at, digit₀, digit₁, digit₂, digit₃}

abbrev pub IsByte : ℕ → Type 0
IsByte b = b < 256

-- One round of the loop on a digit's letter, and on a pad.
letter_round :
    (d : ℕ) (src : List ℕ) (targsize : ℕ) (p p' : Decoding)
    → d < 64
    → pton_digit targsize d p ≡ some p'
    → pton_loop (letter d ∷ src) targsize p ≡ pton_loop src targsize p'
unfolding pton_loop
letter_round d src targsize p p' h step = ground (arith, letter_lem d h)

pub pad_round :
    (src : List ℕ) (targsize : ℕ) (p : Decoding)
    → pton_loop (pad64 ∷ src) targsize p ≡ some (at_pad p src)
unfolding pton_loop
pad_round src targsize p = ground (arith, pad_is_no_space)

pub two_letters :
    (x y o₀ o₁ : ℕ) (src done old : List ℕ) (targsize : ℕ)
    → IsByte x
    → IsByte y
    → suc (length done) < targsize
    → suc (length done) < 2 ^ 32
    → pton_loop
        (letter (x / 4) ∷ letter (x % 4 * 16 + y / 16) ∷ src)
        targsize
        (at 0 (length done) (done ++ (o₀ ∷ o₁ ∷ old)))
      ≡ pton_loop src targsize (at 2 (suc (length done)) (done ++ (x ∷ (y / 16 * 16 ∷ old))))
two_letters x y o₀ o₁ src done old targsize hx hy room small =
    let d = x % 4 * 16 + y / 16 in
    let whole : x / 4 * 4 + d / 16 ≡ x = omega arith in
    let low : d % 16 * 16 ≡ y / 16 * 16 = omega arith in
    letter_round (x / 4) (letter d ∷ src) targsize _ _ (omega arith)
      (digit₀ targsize (x / 4) o₀ done (o₁ ∷ old) (omega arith) (omega arith))
    ∙ letter_round d src targsize _ _ (omega arith)
        (digit₁ targsize d (x / 4) o₁ done old (omega arith) (omega arith) room small)
    ∙ rw (whole, low)

third_letter :
    (y z o i : ℕ) (src done old : List ℕ) (targsize : ℕ)
    → IsByte y
    → IsByte z
    → i ≡ length done
    → suc i < targsize
    → suc i < 2 ^ 32
    → pton_loop
        (letter (y % 16 * 4 + z / 64) ∷ src)
        targsize
        (at 2 i (done ++ (y / 16 * 16 ∷ (o ∷ old))))
      ≡ pton_loop src targsize (at 3 (suc i) (done ++ (y ∷ (z / 64 * 64 ∷ old))))
third_letter y z o i src done old targsize hy hz e room small =
    let d = y % 16 * 4 + z / 64 in
    let whole : y / 16 * 16 + d / 4 ≡ y = omega arith in
    let low : d % 4 * 64 ≡ z / 64 * 64 = omega arith in
    rw e (
      letter_round d src targsize _ _ (omega arith) (
        digit₂ targsize d (y / 16) o done old (omega arith) (omega arith) (omega arith)
          (omega arith))
      ∙ rw (whole, low))

fourth_letter :
    (z i : ℕ) (src done old : List ℕ) (targsize : ℕ)
    → IsByte z
    → i ≡ length done
    → i < targsize
    → suc i < 2 ^ 32
    → pton_loop (letter (z % 64) ∷ src) targsize (at 3 i (done ++ (z / 64 * 64 ∷ old)))
      ≡ pton_loop src targsize (at 0 (suc i) (done ++ (z ∷ old)))
fourth_letter z i src done old targsize hz e room small =
    let whole : z / 64 * 64 + z % 64 ≡ z = omega arith in
    rw e (
      letter_round (z % 64) src targsize _ _ (omega arith) (
        digit₃ targsize (z % 64) (z / 64) done old (omega arith) (omega arith) (omega arith)
          (omega arith))
      ∙ rw whole)

-- Moving a byte over to those that are done.
pub regroup : (x : ℕ) (done rest : List ℕ) → done ++ (x ∷ rest) ≡ (done ++ (x ∷ [])) ++ rest
regroup x done rest = sym (append_assoc done (x ∷ []) rest)

pub length-regroup : (x : ℕ) (done : List ℕ) → suc (length done) ≡ length (done ++ (x ∷ []))
length-regroup x done = omega (arith, length-append done (x ∷ []))

pub three_letters :
    (x y z o₀ o₁ o₂ : ℕ) (src done old : List ℕ) (targsize : ℕ)
    → IsByte x
    → IsByte y
    → IsByte z
    → suc (suc (length done)) < targsize
    → suc (suc (suc (length done))) < 2 ^ 32
    → pton_loop
        (letter (x / 4) ∷ letter (x % 4 * 16 + y / 16) ∷ letter (y % 16 * 4 + z / 64) ∷ src)
        targsize
        (at 0 (length done) (done ++ (o₀ ∷ o₁ ∷ o₂ ∷ old)))
      ≡ pton_loop src targsize
          (at 3 (suc (suc (length done))) (done ++ (x ∷ y ∷ (z / 64 * 64 ∷ old))))
three_letters x y z o₀ o₁ o₂ src done old targsize hx hy hz room small =
    let rest = letter (y % 16 * 4 + z / 64) ∷ src in
    two_letters x y o₀ o₁ rest done (o₂ ∷ old) targsize hx hy (omega arith) (omega arith)
    ∙ ap (λ t. pton_loop rest targsize (at 2 (suc (length done)) t)) (regroup x done _)
    ∙ third_letter y z o₂ (suc (length done)) src (done ++ (x ∷ [])) old targsize hy hz
        (length-regroup x done) room (omega arith)
    ∙ ap (λ t. pton_loop src targsize (at 3 (suc (suc (length done))) t)) (sym (regroup x done _))

pub four_letters :
    (x y z o₀ o₁ o₂ : ℕ) (src done old : List ℕ) (targsize : ℕ)
    → IsByte x
    → IsByte y
    → IsByte z
    → suc (suc (length done)) < targsize
    → suc (suc (suc (length done))) < 2 ^ 32
    → pton_loop
        (letter (x / 4)
          ∷ letter (x % 4 * 16 + y / 16)
          ∷ letter (y % 16 * 4 + z / 64)
          ∷ letter (z % 64)
          ∷ src)
        targsize
        (at 0 (length done) (done ++ (o₀ ∷ o₁ ∷ o₂ ∷ old)))
      ≡ pton_loop src targsize
          (at 0 (length (done ++ (x ∷ y ∷ z ∷ []))) ((done ++ (x ∷ y ∷ z ∷ [])) ++ old))
four_letters x y z o₀ o₁ o₂ src done old targsize hx hy hz room small =
    let two = done ++ (x ∷ y ∷ []) in
    let rest = letter (z % 64) ∷ src in
    let i = suc (suc (length done)) in
    let at_two : i ≡ length two = omega (arith, length-append done (x ∷ y ∷ [])) in
    let at_three : suc i ≡ length (done ++ (x ∷ y ∷ z ∷ [])) =
      omega (arith, length-append done (x ∷ y ∷ z ∷ [])) in
    three_letters x y z o₀ o₁ o₂ rest done old targsize hx hy hz room small
    ∙ ap (λ t. pton_loop rest targsize (at 3 i t))
        (sym (append_assoc done (x ∷ y ∷ []) (z / 64 * 64 ∷ old)))
    ∙ fourth_letter z i src two old targsize hz at_two (omega arith) (omega arith)
    ∙ ap (λ t. pton_loop src targsize (at 0 (suc i) t))
        (append_assoc done (x ∷ y ∷ []) (z ∷ old) ∙ sym (append_assoc done (x ∷ y ∷ z ∷ []) old))
    ∙ ap (λ t. pton_loop src targsize (at 0 t ((done ++ (x ∷ y ∷ z ∷ [])) ++ old))) at_three

-- The pads behind one byte and behind two: the byte past the last one was set to 0.
pub one_byte_end :
    (i : ℕ) (done old : List ℕ)
    → i ≡ length done
    → pton_end (at_pad (at 2 i (done ++ (0 ∷ old))) (pad64 ∷ []))
      ≡ some (at 2 i (done ++ (0 ∷ old)))
unfolding pton_end
one_byte_end i done old e = rw (e, get_middle done 0 0 old) refl

pub two_bytes_end :
    (i : ℕ) (done old : List ℕ)
    → i ≡ length done
    → pton_end (at_pad (at 3 i (done ++ (0 ∷ old))) []) ≡ some (at 3 i (done ++ (0 ∷ old)))
unfolding pton_end
two_bytes_end i done old e = rw (e, get_middle done 0 0 old) refl
