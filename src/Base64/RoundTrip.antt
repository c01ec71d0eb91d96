-- ===== src/Base64/RoundTrip.antt =====
-- f_b64_pton on the text that f_b64_ntop writes.
use fantasy_iq.Base.{
  ℕ, suc, ◌+◌, ◌*◌, ◌/◌, ◌%◌, ◌^◌, ◌<◌, List, [], ◌∷◌, ◌++◌, length, All, Option, none, some, ◌≡◌,
  refl, arith, append_assoc, length-append, ◌∙◌, ap,
}
use fantasy_iq.Base64.{
  Decoding, Ending, letter, pad64, pton_loop, pton_end, f_b64_ntop, f_b64_pton, as_int, returned, ℤ,
  pos,
}
use mathlib.Core.Option
use fantasy_iq.Base64.Digits.{outputs}
use fantasy_iq.Base64.Ntop.{encoding, f_b64_ntop-encoding}
use fantasy_iq.Base64.Pton.{at}
use fantasy_iq.Base64.Pton.Letters.{
  IsByte, two_letters, three_letters, four_letters, pad_round, one_byte_end, two_bytes_end, regroup,
  length-regroup,
}

abbrev ended : Option Ending → Option Decoding
ended r = elim r [ none ↦ none | some ending ↦ pton_end ending ]

-- The encodings with the digits in plain arithmetic.
one_byte :
    (x : ℕ)
    → IsByte x
    → encoding (x ∷ []) ≡ letter (x / 4) ∷ letter (x % 4 * 16 + 0 / 16) ∷ pad64 ∷ pad64 ∷ []
unfolding encoding
one_byte x hx = ground (arith, outputs x 0 0)

two_bytes :
    (x y : ℕ)
    → IsByte x
    → IsByte y
    → encoding (x ∷ (y ∷ []))
      ≡ letter (x / 4) ∷ letter (x % 4 * 16 + y / 16) ∷ letter (y % 16 * 4 + 0 / 64) ∷ pad64 ∷ []
unfolding encoding
two_bytes x y hx hy = ground (arith, outputs x y 0)

three_bytes :
    (x y z : ℕ) (xs : List ℕ)
    → IsByte x
    → IsByte y
    → IsByte z
    → encoding (x ∷ (y ∷ (z ∷ xs)))
      ≡ letter (x / 4)
        ∷ letter (x % 4 * 16 + y / 16)
        ∷ letter (y % 16 * 4 + z / 64)
        ∷ letter (z % 64)
        ∷ encoding xs
unfolding encoding
three_bytes x y z xs hx hy hz = ground (arith, outputs x y z)

-- The array afterwards: the bytes done before, the new ones, and what is behind them.
abbrev Decodes : List ℕ → ℕ → List ℕ → List ℕ → Type 0
Decodes xs targsize done old =
    (state : ℕ) × (tail : List ℕ) × (ended
        (pton_loop (encoding xs) targsize (at 0 (length done) (done ++ old)))
      ≡ some (at state (length done + length xs) (done ++ (xs ++ tail))))

one_Decodes :
    (x o₀ o₁ targsize : ℕ) (done old : List ℕ)
    → IsByte x
    → suc (length done) < targsize
    → suc (length done) < 2 ^ 32
    → Decodes (x ∷ []) targsize done (o₀ ∷ (o₁ ∷ old))
one_Decodes x o₀ o₁ targsize done old hx room small = (2, 0 ∷ old, proof)
  where
    proof :
        ended
          (pton_loop (encoding (x ∷ [])) targsize (at 0 (length done) (done ++ (o₀ ∷ (o₁ ∷ old)))))
        ≡ some (at 2 (length done + 1) (done ++ (x ∷ (0 ∷ old))))
    proof =
        let index : length done + 1 ≡ suc (length done) = omega arith in
        rw
          (
            one_byte x hx,
            two_letters x 0 o₀ o₁ (pad64 ∷ pad64 ∷ []) done old targsize hx (omega arith) room
                small,
            pad_round,
            index,
            regroup x done (0 ∷ old),
          )
          (one_byte_end (suc (length done)) (done ++ (x ∷ [])) old (length-regroup x done))

two_Decodes :
    (x y o₀ o₁ o₂ targsize : ℕ) (done old : List ℕ)
    → IsByte x
    → IsByte y
    → suc (suc (length done)) < targsize
    → suc (suc (suc (length done))) < 2 ^ 32
    → Decodes (x ∷ (y ∷ [])) targsize done (o₀ ∷ (o₁ ∷ (o₂ ∷ old)))
two_Decodes x y o₀ o₁ o₂ targsize done old hx hy room small = (3, 0 ∷ old, proof)
  where
    index : length done + 2 ≡ suc (suc (length done))
    index = omega arith

    behind : suc (suc (length done)) ≡ length (done ++ (x ∷ (y ∷ [])))
    behind = omega (arith, length-append done (x ∷ (y ∷ [])))

    proof :
        ended (
          pton_loop
            (encoding (x ∷ (y ∷ [])))
            targsize
            (at 0 (length done) (done ++ (o₀ ∷ (o₁ ∷ (o₂ ∷ old))))))
        ≡ some (at 3 (length done + 2) (done ++ (x ∷ (y ∷ (0 ∷ old)))))
    proof =
        rw
          (
            two_bytes x y hx hy,
            three_letters x y 0 o₀ o₁ o₂ (pad64 ∷ []) done old targsize hx hy (omega arith) room
                (omega arith),
            pad_round,
            index,
            ← append_assoc done (x ∷ (y ∷ [])) (0 ∷ old),
          )
          (two_bytes_end (suc (suc (length done))) (done ++ (x ∷ (y ∷ []))) old behind)

-- One group of three, and the rest behind it.
group_Decodes :
    (x y z o₀ o₁ o₂ targsize : ℕ) (xs done old : List ℕ)
    → IsByte x
    → IsByte y
    → IsByte z
    → suc (suc (length done)) < targsize
    → suc (suc (suc (length done))) < 2 ^ 32
    → Decodes xs targsize (done ++ (x ∷ y ∷ z ∷ [])) old
    → Decodes (x ∷ (y ∷ (z ∷ xs))) targsize done (o₀ ∷ (o₁ ∷ (o₂ ∷ old)))
group_Decodes x y z o₀ o₁ o₂ targsize xs done old hx hy hz room small (state, tail, e) =
    (state, tail, ap ended first ∙ e ∙ ap some moved)
  where
    first :
        pton_loop
          (encoding (x ∷ (y ∷ (z ∷ xs))))
          targsize
          (at 0 (length done) (done ++ (o₀ ∷ (o₁ ∷ (o₂ ∷ old)))))
        ≡ pton_loop
            (encoding xs)
            targsize
            (at 0 (length (done ++ (x ∷ y ∷ z ∷ []))) ((done ++ (x ∷ y ∷ z ∷ [])) ++ old))
    first =
        rw (three_bytes x y z xs hx hy hz)
          (four_letters x y z o₀ o₁ o₂ (encoding xs) done old targsize hx hy hz room small)

    moved :
        at state
          (length (done ++ (x ∷ y ∷ z ∷ [])) + length xs)
          ((done ++ (x ∷ y ∷ z ∷ [])) ++ (xs ++ tail))
        ≡ at state
            (length done + suc (suc (suc (length xs))))
            (done ++ (x ∷ (y ∷ (z ∷ (xs ++ tail)))))
    moved = ground (
      arith,
      length-append done (x ∷ y ∷ z ∷ []),
      append_assoc done (x ∷ y ∷ z ∷ []) (xs ++ tail),
    )

encoding-Decodes :
    (xs done old : List ℕ) (targsize : ℕ)
    → All IsByte xs
    → length xs < length old
    → length done + length xs < targsize
    → length done + length xs < 2 ^ 31
    → Decodes xs targsize done old
encoding-Decodes [] done old targsize h room bound small = (
  0,
  old,
  (let e : length done + 0 ≡ length done = omega arith in
      rw e (unfold encoding pton_loop pton_end in refl)),
)
encoding-Decodes (x ∷ xs) done [] targsize h room bound small = absurd (omega arith)
encoding-Decodes (x ∷ xs) done (o ∷ []) targsize h room bound small = absurd (omega arith)
encoding-Decodes (x ∷ []) done (o₀ ∷ (o₁ ∷ old)) targsize h room bound small =
    one_Decodes x o₀ o₁ targsize done old h.0 (omega arith) (omega arith)
encoding-Decodes (x ∷ (y ∷ xs)) done (o₀ ∷ (o₁ ∷ [])) targsize h room bound small =
    absurd (omega arith)
encoding-Decodes (x ∷ (y ∷ [])) done (o₀ ∷ (o₁ ∷ (o₂ ∷ old))) targsize h room bound small =
    two_Decodes x y o₀ o₁ o₂ targsize done old h.0 h.1.0 (omega arith) (omega arith)
encoding-Decodes (x ∷ (y ∷ (z ∷ xs))) done (o₀ ∷ (o₁ ∷ (o₂ ∷ old))) targsize h room bound small =
    group_Decodes x y z o₀ o₁ o₂ targsize xs done old h.0 h.1.0 h.1.1.0 (omega arith) (omega arith)
      (encoding-Decodes xs (done ++ (x ∷ y ∷ z ∷ [])) old targsize h.1.1.1 (omega arith)
        (omega (arith, length-append done (x ∷ y ∷ z ∷ [])))
        (omega (arith, length-append done (x ∷ y ∷ z ∷ []))))

end_returned :
    (r : Option Ending)
    → elim r [ none ↦ none | some ending ↦ Option.map returned (pton_end ending) ]
      ≡ Option.map returned (ended r)
end_returned none = refl
end_returned (some ending) = refl

whole :
    (text target : List ℕ) (targsize : ℕ) (p : Decoding)
    → ended (pton_loop text targsize (at 0 0 target)) ≡ some p
    → f_b64_pton text (some target) targsize ≡ some (as_int p.tarindex, p.target)
unfolding f_b64_pton
whole text target targsize p e =
    end_returned (pton_loop text targsize (at 0 0 target)) ∙ ap (Option.map returned) e

-- Whatever list of fewer than 2 ^ 31 bytes `f_b64_ntop` writes as text, `f_b64_pton` returns their
-- number and puts them at the front of a target that has room for one byte more.
pub f_b64_pton-f_b64_ntop :
    (xs text target : List ℕ) (textsize targsize : ℕ)
    → All IsByte xs
    → length xs < 2 ^ 31
    → f_b64_ntop xs textsize ≡ some text
    → length xs < length target
    → length xs < targsize
    → (tail : List ℕ) × (f_b64_pton text (some target) targsize
        ≡ some (pos (length xs), some (xs ++ tail)))
unfolding as_int
f_b64_pton-f_b64_ntop xs text target textsize targsize h small written room bound =
    let same : text ≡ encoding xs = ground (arith, f_b64_ntop-encoding xs textsize) in
    let (state, tail, e) =
      encoding-Decodes xs [] target targsize h room (omega arith) (omega arith) in
    let result : as_int (0 + length xs) ≡ pos (length xs) = ground arith in
    (
      tail,
      ap (λ t. f_b64_pton t (some target) targsize) same
          ∙ whole (encoding xs) target targsize (at state (0 + length xs) (xs ++ tail)) e
          ∙ ap (λ (n : ℤ). some (n, some (xs ++ tail))) result,
    )
