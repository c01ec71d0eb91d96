-- ===== src/Nanopb/Decode/Varint.antt =====
-- pb_decode_varint on a buffer, against the wire format.
use fantasy_iq.Base.{
  ℕ, zero, suc, ◌+◌, ◌*◌, ◌%◌, ◌^◌, ◌<◌, ◌≤◌, bit_or, List, [], ◌∷◌, ◌++◌, length, ◌≡◌, refl, ap,
  arith, Option, ◌∙◌,
}
use fantasy_iq.Nanopb.Error.{Error}
use fantasy_iq.Nanopb.Wire.{
  varint, value, IsVarint, IsU64, groups-IsVarint, value-groups, length-groups,
}
use fantasy_iq.Nanopb.Input.Buffer.{source, Takes, Takes-pb_readbyte}
use fantasy_iq.Nanopb.Decode.{varint_rounds, pb_decode_varint}
use fantasy_iq.Nanopb.Decode.Bytes.{
  top_bit-clear, top_bit-set, low_seven, or_digit_wraps, pow-add, pow-le-pow,
}
use native.Mathlib.Nat.{mod-eq_of_lt}

-- One round on a byte with the top bit, and on one without.
pub inner_round :
    (fuel pos acc b : ℕ) (rest : List ℕ) (n : ℕ) (e : Option Error)
    → 128 ≤ b
    → b < 256
    → pos < 64
    → varint_rounds (suc fuel) pos acc (source (b ∷ rest) (n + 1) e)
      ≡ varint_rounds fuel (pos + 7) (bit_or acc (b % 128 * 2 ^ pos % 2 ^ 64)) (source rest n e)
unfolding varint_rounds
inner_round fuel pos acc b rest n e lo hi hp =
    let next : (pos + 7) % 256 ≡ pos + 7 = omega arith in
    rw (Takes-pb_readbyte b rest (n + 1) n e (omega arith), low_seven b, next, top_bit-set b lo hi)
      (ground arith)

last_round :
    (fuel pos acc b : ℕ)
    → b < 128
    → pos < 64
    → Takes (varint_rounds (suc fuel) pos acc) (b ∷ []) (bit_or acc (b % 128 * 2 ^ pos % 2 ^ 64))
unfolding varint_rounds
last_round fuel pos acc b lo hp rest m n e h =
    rw (Takes-pb_readbyte b rest m n e h, low_seven b, top_bit-clear b lo) (ground arith)

pub wider : (pos : ℕ) → 2 ^ (pos + 7) ≡ 2 ^ pos * 128
wider pos = pow-add pos 7

-- A digit with room above it is added.
pub digit_added :
    (pos acc d : ℕ)
    → pos ≤ 57
    → acc < 2 ^ pos
    → d < 128
    → (bit_or acc (d * 2 ^ pos % 2 ^ 64) ≡ acc + d * 2 ^ pos) × (acc + d * 2 ^ pos < 2 ^ (pos + 7))
digit_added pos acc d hp fits hd =
    let below : acc + d * 2 ^ pos < 2 ^ (pos + 7) = rw (wider pos) (grind arith) in
    let word : 2 ^ (pos + 7) ≤ 2 ^ 64 = pow-le-pow (pos + 7) 64 (omega arith) in
    (or_digit_wraps 64 pos acc d (omega arith) fits ∙ mod-eq_of_lt (omega arith), below)

-- The digits behind the first count for 128 times as much.
pub value-shift :
    (acc b v pos : ℕ)
    → acc + b % 128 * 2 ^ pos + v * 2 ^ (pos + 7) ≡ acc + (b % 128 + 128 * v) * 2 ^ pos
value-shift acc b v pos = omega (arith, ap (λ (t : ℕ). v * t) (wider pos))

-- The loop at bit `7 * j`, where `acc` holds the digits before.
varint_rounds-Takes :
    (bs : List ℕ) (fuel j pos acc : ℕ)
    → IsVarint bs
    → pos ≡ 7 * j
    → length bs + j ≤ 10
    → length bs ≤ fuel
    → acc < 2 ^ pos
    → Takes (varint_rounds fuel pos acc) bs ((acc + value bs * 2 ^ pos) % 2 ^ 64)
unfolding value
varint_rounds-Takes [] fuel j pos acc v hj hl hf ha rest m n e h = absurd v
varint_rounds-Takes (b ∷ bs) zero j pos acc v hj hl hf ha rest m n e h = absurd (omega arith)
varint_rounds-Takes (b ∷ []) (suc fuel) j pos acc v hj hl hf ha rest m n e h =
    let one : b % 128 + 128 * 0 ≡ b % 128 = omega arith in
    last_round fuel pos acc b v (omega arith) rest m n e h
    ∙ rw (or_digit_wraps 64 pos acc (b % 128) (omega arith) ha, one)
varint_rounds-Takes (b ∷ (c ∷ bs)) (suc fuel) j pos acc v hj hl hf ha rest m n e h =
    let (added, below) = digit_added pos acc (b % 128) (omega arith) ha (omega arith) in
    let more : m ≡ length (c ∷ bs) + n + 1 = omega arith in
    rw
      (
        more,
        inner_round fuel pos acc b (c ∷ (bs ++ rest)) (length (c ∷ bs) + n) e v.0 v.1 (omega arith),
        added,
      )
      (varint_rounds-Takes (c ∷ bs) fuel (j + 1) (pos + 7) (acc + b % 128 * 2 ^ pos) v.2
          (omega arith) (omega arith) (omega arith) below rest (length (c ∷ bs) + n) n e refl
        ∙ rw (value-shift acc b (value (c ∷ bs)) pos))

-- On every varint of at most ten bytes, padded or not, `pb_decode_varint` takes exactly its
-- bytes and returns its value modulo 2 ^ 64.
pub pb_decode_varint-value :
    (bs : List ℕ) → IsVarint bs → length bs ≤ 10 → Takes pb_decode_varint bs (value bs % 2 ^ 64)
unfolding pb_decode_varint
pb_decode_varint-value bs v h rest m n e k =
    let at_zero : 0 + value bs * 1 ≡ value bs = omega arith in
    varint_rounds-Takes bs 11 0 0 0 v refl (omega arith) (omega arith) (omega arith) rest m n e k
    ∙ rw at_zero

-- On the varint of a 64-bit number `pb_decode_varint` takes its bytes and returns the number.
pub pb_decode_varint-varint : (v : ℕ) → IsU64 v → Takes pb_decode_varint (varint v) v
pb_decode_varint-varint v h =
    let fits : v < 128 ^ 10 = omega arith in
    let same : value (varint v) % 2 ^ 64 ≡ v = rw (value-groups 9 v fits) (mod-eq_of_lt h) in
    rw same at (
      pb_decode_varint-value (varint v) (groups-IsVarint 9 v fits)
        (omega (arith, length-groups 9 v)))
