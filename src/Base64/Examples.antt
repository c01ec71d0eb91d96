-- ===== src/Base64/Examples.antt =====
-- f_b64_ntop and f_b64_pton at concrete inputs.
use fantasy_iq.Base.{
  ℕ, some, none, List, [], ◌∷◌, ◌++◌, length, ◌≡◌, refl, arith, ltb, if◌then◌else◌, replicate,
}
use fantasy_iq.Base64.{codes, f_b64_ntop, f_b64_pton, pos}
use fantasy_iq.Base64.Ntop.{encoding, f_b64_ntop-encoding}
use fantasy_iq.Base64.RoundTrip.{f_b64_pton-f_b64_ntop}

abbrev greeting : List ℕ
greeting = 104 ∷ 101 ∷ 108 ∷ 108 ∷ 111 ∷ []

abbrev greeting_text : List ℕ
greeting_text = 97 ∷ 71 ∷ 86 ∷ 115 ∷ 98 ∷ 71 ∷ 56 ∷ 61 ∷ []

f_b64_pton-f_b64_ntop_example :
    (tail : List ℕ) × (f_b64_pton greeting_text (some (replicate 8 0)) 8
      ≡ some (pos 5, some (greeting ++ tail)))
unfolding f_b64_ntop
f_b64_pton-f_b64_ntop_example =
    f_b64_pton-f_b64_ntop greeting greeting_text (replicate 8 0) 9 8 (ground arith) (omega arith)
      refl (omega arith) (omega arith)

f_b64_ntop-encoding_example :
    f_b64_ntop greeting 9
    ≡ (if ltb (length (encoding greeting)) 9 then some (encoding greeting) else none)
f_b64_ntop-encoding_example = f_b64_ntop-encoding greeting 9

hello : f_b64_ntop (codes "hello") 9 ≡ some (codes "aGVsbG8=")
unfolding f_b64_ntop
hello = refl

hello_back :
    f_b64_pton (codes "aGVs bG8= ") (some (9 ∷ 9 ∷ 9 ∷ 9 ∷ 9 ∷ 9 ∷ [])) 6
    ≡ some (pos 5, some (104 ∷ 101 ∷ 108 ∷ 108 ∷ 111 ∷ 0 ∷ []))
unfolding f_b64_pton
hello_back = refl
