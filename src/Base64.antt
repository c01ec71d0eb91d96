-- ===== src/Base64.antt =====
-- fbase64.c of Pods/FirebaseDatabase (third_party/SocketRocket): f_b64_ntop and f_b64_pton.
-- A text is the list of its characters before the terminating NUL, and `none` is the -1 by which
-- both functions say that they have failed; what they leave in `target` then is not modelled.
pub mod Digits
pub mod Ntop
pub mod Pton
pub mod RoundTrip
pub mod Examples
use Prim.Native.Char.{code}
use Prim.Native.String
use mathlib.Core.Option
use Prim.Native.String.{String}
use fantasy_iq.Base.{
  ◌≡◌, refl, ℕ, zero, suc, ◌+◌, ◌-◌, ◌*◌, ◌/◌, ◌%◌, ◌^◌, bit_and, bit_or, List, [], ◌∷◌, ◌++◌,
  length, get_or, set, ltb, leb, ◌==◌, if◌then◌else◌, Bool, true, false, not, ◌&&◌, ◌||◌, Option,
  none, some,
}

pub data ℤ : Type 0 where
  pos : ℕ → ℤ
  negsuc : ℕ → ℤ

abbrev pub codes : String → List ℕ
codes String.[] = []
codes (String.◌∷◌ c s) = code c ∷ codes s

-- `static const char Base64[]`
unfoldable pub base64 : List ℕ
base64 = codes "ABCDEFGHIJKLMNOPQRSTUVWXYZabcdefghijklmnopqrstuvwxyz0123456789+/"

abbrev pub pad64 : ℕ
pad64 = b'='

-- `Base64[i]`
unfoldable pub letter : ℕ → ℕ
unfolding base64
letter i = get_or base64 i 0

-- `output[0]` to `output[3]`: u_char values.
abbrev pub output₀ : ℕ → ℕ
output₀ x = x / 2 ^ 2 % 256

abbrev pub output₁ : ℕ → ℕ → ℕ
output₁ x y = (bit_and x 0x03 * 2 ^ 4 + y / 2 ^ 4) % 256

abbrev pub output₂ : ℕ → ℕ → ℕ
output₂ y z = (bit_and y 0x0f * 2 ^ 2 + z / 2 ^ 6) % 256

abbrev pub output₃ : ℕ → ℕ
output₃ z = bit_and z 0x3f

-- `while (2 < srclength)`: what was written so far, and what is left of the source.
unfoldable pub ntop_loop : List ℕ → List ℕ → ℕ → Option (List ℕ × List ℕ)
ntop_loop (x ∷ (y ∷ (z ∷ src))) target targsize =
    let rest =
      ntop_loop src
        (target
          ++ (letter (output₀ x)
              ∷ letter (output₁ x y)
              ∷ letter (output₂ y z)
              ∷ letter (output₃ z)
              ∷ []))
        targsize in
    if ltb targsize (length target + 4) then none else rest
ntop_loop src target targsize = some (target, src)

-- The padding of one or two bytes that are left, with zeros in their place where there are none.
unfoldable pub ntop_rest : List ℕ → List ℕ → ℕ → Option (List ℕ)
ntop_rest [] target targsize = some target
ntop_rest (x ∷ src) target targsize =
    let y = get_or src 0 0 in
    let third = if length (x ∷ src) == 1 then pad64 else letter (output₂ y 0) in
    if ltb targsize (length target + 4)
    then none
    else some (target ++ (letter (output₀ x) ∷ letter (output₁ x y) ∷ third ∷ pad64 ∷ []))

abbrev terminate : ℕ → List ℕ → Option (List ℕ)
terminate targsize target = if leb targsize (length target) then none else some target

abbrev finish : ℕ → List ℕ × List ℕ → Option (List ℕ)
finish targsize (target, src) = elim (ntop_rest src target targsize) [
  | none ↦ none
  | some target' ↦ terminate targsize target'
]

-- The text written to `target`; the number that is returned is its length.
unfoldable pub f_b64_ntop : List ℕ → ℕ → Option (List ℕ)
unfolding ntop_loop ntop_rest letter
f_b64_ntop src targsize = elim (ntop_loop src [] targsize) [
  | none ↦ none
  | some written ↦ finish targsize written
]

-- `isspace` in the C locale.
unfoldable pub isspace : ℕ → Bool
isspace ch = (leb 9 ch && leb ch 13) || ch == 32

-- `strchr(Base64, ch) - Base64`
unfoldable pub position_in : List ℕ → ℕ → Option ℕ
position_in [] ch = none
position_in (x ∷ xs) ch =
    let later = position_in xs ch in
    if x == ch then some 0 else elim later [ none ↦ none | some i ↦ some (suc i) ]

-- The variables of f_b64_pton, of which `tarindex` is a u_int; no target is NULL.
pub record Decoding : Type 0 where
  pub state : ℕ
  pub tarindex : ℕ
  pub target : Option (List ℕ)

-- `target[i] = value`
abbrev store : List ℕ → ℕ → ℕ → List ℕ
store t i value = set t i (value % 256)

-- `target[i] |= value`
abbrev merge : List ℕ → ℕ → ℕ → List ℕ
merge t i value = set t i (bit_or (get_or t i 0) value % 256)

-- One case of the switch: the bounds check is `last >= targsize`.
abbrev case : ℕ → Decoding → (ℕ → ℕ) → (List ℕ → ℕ → List ℕ) → ℕ → ℕ → Option Decoding
case targsize p last write state' tarindex' = elim p.target [
  | none ↦ some (record { state = state'; tarindex = tarindex'; target = none })
  | some t ↦
      if leb targsize (last p.tarindex)
      then none
      else some
          (record { state = state'; tarindex = tarindex'; target = some (write t p.tarindex) })
]

-- `tarindex + 1` on a u_int.
abbrev pub next_index : ℕ → ℕ
next_index i = (i + 1) % 2 ^ 32

-- The switch on the state, for the digit `pos - Base64`.
unfoldable pub pton_digit : ℕ → ℕ → Decoding → Option Decoding
pton_digit targsize digit p =
    if p.state == 0
    then case targsize p (λ i. i) (λ t i. store t i (digit * 2 ^ 2)) 1 p.tarindex
    else if p.state == 1
    then case targsize p next_index
        (λ t i. store (merge t i (digit / 2 ^ 4)) (next_index i) (bit_and digit 0x0f * 2 ^ 4)) 2
        (next_index p.tarindex)
    else if p.state == 2
    then case targsize p next_index
        (λ t i. store (merge t i (digit / 2 ^ 2)) (next_index i) (bit_and digit 0x03 * 2 ^ 6)) 3
        (next_index p.tarindex)
    else case targsize p (λ i. i) (λ t i. merge t i digit) 0 (next_index p.tarindex)

-- How the first loop ends: at the NUL, or at a pad with the characters behind it.
pub data Ending : Type 0 where
  at_end : Decoding → Ending
  at_pad : Decoding → List ℕ → Ending

-- The first loop.
unfoldable pub pton_loop : List ℕ → ℕ → Decoding → Option Ending
pton_loop [] targsize p = some (at_end p)
pton_loop (ch ∷ src) targsize p =
    let skipped = pton_loop src targsize p in
    if isspace ch
    then skipped
    else if ch == pad64
    then some (at_pad p src)
    else elim (position_in base64 ch) [
      | none ↦ none
      | some digit ↦ elim (pton_digit targsize digit p) [
        | none ↦ none
        | some p' ↦ pton_loop src targsize p'
      ]
    ]

-- `for (; ch != '\0'; ch = *src++) if (!isspace(ch)) break;`
unfoldable pub skip_spaces : List ℕ → List ℕ
skip_spaces [] = []
skip_spaces (ch ∷ src) = let rest = skip_spaces src in if isspace ch then rest else ch ∷ src

-- `target && target[tarindex]`: 0 where there is no target.
abbrev slopped : Decoding → ℕ
slopped p = elim p.target [ none ↦ 0 | some t ↦ get_or t p.tarindex 0 ]

-- Case 3 behind the pads: only spaces may follow, and the bits past the last byte must be 0.
abbrev trailing : List ℕ → Decoding → Option Decoding
trailing src p = elim (skip_spaces src) [
  | [] ↦ if slopped p == 0 then some p else none
  | ch ∷ rest ↦ none
]

-- Case 2: a second pad.
abbrev second_pad : List ℕ → Decoding → Option Decoding
second_pad src p = elim (skip_spaces src) [
  | [] ↦ none
  | ch ∷ rest ↦ if ch == pad64 then trailing rest p else none
]

unfoldable pub pton_end : Ending → Option Decoding
unfolding skip_spaces isspace
pton_end (at_end p) = if p.state == 0 then some p else none
pton_end (at_pad p src) =
    if p.state == 0 || p.state == 1
    then none
    else if p.state == 2
    then second_pad src p
    else trailing src p

-- `return (tarindex)`: the int that has the bits of the u_int.
unfoldable pub as_int : ℕ → ℤ
as_int n = if ltb n (2 ^ 31) then pos n else negsuc (2 ^ 32 - suc n)

abbrev pub returned : Decoding → ℤ × Option (List ℕ)
returned p = (as_int p.tarindex, p.target)

-- What is returned, and the target.
unfoldable pub f_b64_pton : List ℕ → Option (List ℕ) → ℕ → Option (ℤ × Option (List ℕ))
unfolding pton_loop pton_digit position_in base64 isspace pton_end as_int
f_b64_pton src target targsize =
    elim (pton_loop src targsize (record { state = 0; tarindex = 0; target = target })) [
      | none ↦ none
      | some ending ↦ Option.map returned (pton_end ending)
    ]
