-- ===== src/Base64/Ntop.antt =====
-- What f_b64_ntop writes, and when it fails.
use fantasy_iq.Base.{
  ℕ, ◌+◌, ◌*◌, ◌/◌, ltb, if◌then◌else◌, List, [], ◌∷◌, ◌++◌, length, length-append, append_assoc,
  append-nil, Option, none, some, ◌≡◌, refl, arith,
}
use fantasy_iq.Base64.{
  letter, pad64, output₀, output₁, output₂, output₃, ntop_loop, ntop_rest, f_b64_ntop, finish,
}

-- RFC 1521: four letters for three bytes, pads where bytes are missing.
unfoldable pub encoding : List ℕ → List ℕ
encoding [] = []
encoding (x ∷ []) = letter (output₀ x) ∷ letter (output₁ x 0) ∷ pad64 ∷ pad64 ∷ []
encoding (x ∷ (y ∷ [])) =
    letter (output₀ x) ∷ letter (output₁ x y) ∷ letter (output₂ y 0) ∷ pad64 ∷ []
encoding (x ∷ (y ∷ (z ∷ src))) =
    letter (output₀ x)
    ∷ letter (output₁ x y)
    ∷ letter (output₂ y z)
    ∷ letter (output₃ z)
    ∷ encoding src

-- The code behind the loop, on the loop's result.
abbrev behind : ℕ → Option (List ℕ × List ℕ) → Option (List ℕ)
behind targsize r = elim r [ none ↦ none | some written ↦ finish targsize written ]

ntop_lem :
    (src target : List ℕ) (targsize : ℕ)
    → behind targsize (ntop_loop src target targsize) ≡ (
        if ltb (length target + length (encoding src)) targsize
        then some (target ++ encoding src)
        else none)
unfolding ntop_loop ntop_rest encoding
ntop_lem [] target targsize = ground (arith, append-nil target)
ntop_lem (x ∷ []) target targsize = ground (arith, length-append target (encoding (x ∷ [])))
ntop_lem (x ∷ (y ∷ [])) target targsize =
    ground (arith, length-append target (encoding (x ∷ (y ∷ []))))
ntop_lem (x ∷ (y ∷ (z ∷ src))) target targsize =
    let four =
      letter (output₀ x) ∷ letter (output₁ x y) ∷ letter (output₂ y z) ∷ letter (output₃ z) ∷ [] in
    ground (
      arith,
      length-append target four,
      append_assoc target four (encoding src),
      ntop_lem src (target ++ four) targsize,
    )

-- `f_b64_ntop` writes the encoding exactly when the target has room for it and for the NUL, and
-- returns -1 otherwise.
pub f_b64_ntop-encoding :
    (src : List ℕ) (targsize : ℕ)
    → f_b64_ntop src targsize
      ≡ (if ltb (length (encoding src)) targsize then some (encoding src) else none)
unfolding f_b64_ntop
f_b64_ntop-encoding src targsize = ground (arith, ntop_lem src [] targsize)

-- The text has four characters for every three bytes, the last group rounded up.
pub length-encoding : (src : List ℕ) → length (encoding src) ≡ (length src + 2) / 3 * 4
unfolding encoding
length-encoding [] = refl
length-encoding (x ∷ []) = refl
length-encoding (x ∷ (y ∷ [])) = refl
length-encoding (x ∷ (y ∷ (z ∷ src))) = omega (arith, length-encoding src)
