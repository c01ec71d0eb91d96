-- ===== src/Nanopb/Decode/Varint32.antt =====
-- pb_decode_varint32 on a buffer, against the wire format.
use fantasy_iq.Base.{
  ℕ, zero, suc, ◌+◌, ◌*◌, ◌%◌, ◌^◌, ◌<◌, ◌≤◌, bit_and, List, [], ◌∷◌, ◌++◌, length, ltb, ◌==◌, ◌≡◌,
  refl, ap, arith, Option, some, ◌∙◌, not, ◌&&◌, false, true, Bool, Bool-cases, inl, inr, ltb→lt,
  ltb→ge,
}
use fantasy_iq.Nanopb.Error.{Error}
use fantasy_iq.Nanopb.Wire.{
  varint, value, IsVarint, IsU32, IsContinued, groups-IsVarint, value-groups, length-varint_word,
}
use fantasy_iq.Nanopb.Input.{IStream}
use fantasy_iq.Nanopb.Input.Buffer.{source, Takes, Takes-pb_readbyte}
use fantasy_iq.Nanopb.Decode.{
  varint32_rounds, pb_decode_varint32, pb_decode_varint32_eof, add_byte32,
}
use fantasy_iq.Nanopb.Decode.Bytes.{
  top_bit-clear, top_bit-set, low_seven, or_digit_wraps, pow-le-pow,
}
use fantasy_iq.Nanopb.Decode.Varint.{digit_added, value-shift}
use native.Mathlib.Nat.{mod-eq_of_lt}
use fantasy_iq.Base.Bits.{holds_below, holds_below_lem}

-- One round on a byte with the top bit, and on the last one below bit 28.
pub inner_round32 :
    (fuel pos acc acc' b : ℕ) (rest : List ℕ) (n : ℕ) (e : Option Error)
    → IsContinued b
    → add_byte32 b pos acc ≡ some acc'
    → varint32_rounds (suc fuel) pos acc (source (b ∷ rest) (n + 1) e)
      ≡ varint32_rounds fuel ((pos + 7) % 256) acc' (source rest n e)
unfolding varint32_rounds
inner_round32 fuel pos acc acc' b rest n e hb ha =
    ground (arith, Takes-pb_readbyte b rest (n + 1) n e (omega arith), top_bit-set b)

pub last_round32 :
    (fuel pos acc acc' b : ℕ)
    → b < 128
    → add_byte32 b pos acc ≡ some acc'
    → ((pos + 7) % 256 == 35 && not (bit_and b 0x70 == 0)) ≡ false
    → Takes (varint32_rounds (suc fuel) pos acc) (b ∷ []) acc'
unfolding varint32_rounds
last_round32 fuel pos acc acc' b hb ha fits rest m n e h =
    ground (arith, Takes-pb_readbyte b rest m n e h, top_bit-clear b)

-- Below bit 32 a byte's digit is added.
pub add_byte32-low :
    (b pos acc : ℕ)
    → pos < 32
    → acc < 2 ^ pos
    → add_byte32 b pos acc ≡ some ((acc + b % 128 * 2 ^ pos) % 2 ^ 32)
unfolding add_byte32
add_byte32-low b pos acc h fits =
    ground (arith, low_seven b, or_digit_wraps 32 pos acc (b % 128) (omega arith) fits)

no_high_bits_table : holds_below 16 (λ b. bit_and b 0x70 == 0) ≡ true
unfolding holds_below
no_high_bits_table = refl

-- The check behind the loop passes if the number fits a word.
last_check :
    (b pos acc : ℕ)
    → b < 128
    → acc + b * 2 ^ pos < 2 ^ 32
    → ((pos + 7) % 256 == 35 && not (bit_and b 0x70 == 0)) ≡ false
last_check b pos acc hb fits = elim (Bool-cases ((pos + 7) % 256 == 35)) [
  | inr other ↦ rw other
  | inl at_28 ↦ elim (Bool-cases (ltb b 16)) [
    | inl low ↦
        rw (holds_below_lem 16 (λ b. bit_and b 0x70 == 0) no_high_bits_table b (ltb→lt _ _ low))
          (ground arith)
    | inr high ↦
        let wide : 2 ^ 28 ≤ 2 ^ pos = pow-le-pow 28 pos (ground arith) in
        let big : 16 ≤ b = ltb→ge _ _ high in absurd (grind arith)
  ]
]

pub digit_added32 :
    (b pos acc : ℕ)
    → pos ≤ 25
    → acc < 2 ^ pos
    → (add_byte32 b pos acc ≡ some (acc + b % 128 * 2 ^ pos))
      × (acc + b % 128 * 2 ^ pos < 2 ^ (pos + 7))
digit_added32 b pos acc h fits =
    let below : acc + b % 128 * 2 ^ pos < 2 ^ (pos + 7) =
      (digit_added pos acc (b % 128) (omega arith) fits (omega arith)).1 in
    let word : 2 ^ (pos + 7) ≤ 2 ^ 32 = pow-le-pow (pos + 7) 32 (omega arith) in
    (add_byte32-low b pos acc (omega arith) fits ∙ ap some (mod-eq_of_lt (omega arith)), below)

-- The loop at bit `7 * j`, on digits that end within five bytes and fit a word.
varint32_rounds-Takes :
    (bs : List ℕ) (fuel j pos acc : ℕ)
    → IsVarint bs
    → pos ≡ 7 * j
    → length bs + j ≤ 5
    → length bs ≤ fuel
    → acc < 2 ^ pos
    → acc + value bs * 2 ^ pos < 2 ^ 32
    → Takes (varint32_rounds fuel pos acc) bs (acc + value bs * 2 ^ pos)
unfolding value
varint32_rounds-Takes [] fuel j pos acc v hj hl hf ha fits rest m n e h = absurd v
varint32_rounds-Takes (b ∷ bs) zero j pos acc v hj hl hf ha fits rest m n e h = absurd (omega arith)
varint32_rounds-Takes (b ∷ []) (suc fuel) j pos acc v hj hl hf ha fits rest m n e h =
    let digit : b % 128 + 128 * 0 ≡ b = omega arith in
    let same : b % 128 ≡ b = omega arith in
    let fits' : acc + b * 2 ^ pos < 2 ^ 32 = rw digit at fits in
    rw digit (
      last_round32 fuel pos acc (acc + b * 2 ^ pos) b v
        (add_byte32-low b pos acc (omega arith) ha ∙ rw same (ap some (mod-eq_of_lt fits')))
        (last_check b pos acc v fits') rest m n e h)
varint32_rounds-Takes (b ∷ (c ∷ bs)) (suc fuel) j pos acc v hj hl hf ha fits rest m n e h =
    let (added, below) = digit_added32 b pos acc (omega arith) ha in
    let more : m ≡ length (c ∷ bs) + n + 1 = omega arith in
    let next : (pos + 7) % 256 ≡ pos + 7 = omega arith in
    let shifted = value-shift acc b (value (c ∷ bs)) pos in
    rw
      (
        more,
        inner_round32 fuel pos acc (acc + b % 128 * 2 ^ pos) b (c ∷ (bs ++ rest))
            (length (c ∷ bs) + n) e (v.0, v.1) added,
        next,
      )
      (varint32_rounds-Takes (c ∷ bs) fuel (j + 1) (pos + 7) (acc + b % 128 * 2 ^ pos) v.2
          (omega arith) (omega arith) (omega arith) below (rw shifted fits) rest
          (length (c ∷ bs) + n) n e refl
        ∙ rw shifted)

pub first_round32 :
    (eof : Bool) (b : ℕ) (rest : List ℕ) (n : ℕ) (e : Option Error)
    → IsContinued b
    → pb_decode_varint32_eof eof (source (b ∷ rest) (n + 1) e)
      ≡ (eof, varint32_rounds n 7 (b % 128) (source rest n e))
unfolding pb_decode_varint32_eof
first_round32 eof b rest n e hb =
    rw (Takes-pb_readbyte b rest (n + 1) n e (omega arith), low_seven b, top_bit-set b hb.0 hb.1)
      refl

pub first_round_word :
    (b : ℕ) (rest : List ℕ) (n : ℕ) (e : Option Error)
    → IsContinued b
    → pb_decode_varint32 (source (b ∷ rest) (n + 1) e)
      ≡ varint32_rounds n 7 (b % 128) (source rest n e)
unfolding pb_decode_varint32
first_round_word b rest n e hb =
    ap (λ (r : Bool × (Option ℕ × IStream (List ℕ))). r.1) (first_round32 false b rest n e hb)

first_byte32 :
    (eof : Bool) (b : ℕ) (rest : List ℕ) (m n : ℕ) (e : Option Error)
    → b < 128
    → m ≡ 1 + n
    → pb_decode_varint32_eof eof (source (b ∷ rest) m e) ≡ (eof, (some b, source rest n e))
unfolding pb_decode_varint32_eof
first_byte32 eof b rest m n e hb k = rw (Takes-pb_readbyte b rest m n e k, top_bit-clear b hb) refl

-- On every varint of at most five bytes whose value fits a word, padded or not,
-- `pb_decode_varint32_eof` takes exactly its bytes, returns its value and leaves `*eof` as it was.
pub pb_decode_varint32_eof-value :
    (bs : List ℕ) (eof : Bool) (rest : List ℕ) (m n : ℕ) (e : Option Error)
    → IsVarint bs
    → length bs ≤ 5
    → IsU32 (value bs)
    → m ≡ length bs + n
    → pb_decode_varint32_eof eof (source (bs ++ rest) m e)
      ≡ (eof, (some (value bs), source rest n e))
unfolding value
pb_decode_varint32_eof-value [] eof rest m n e v h fits k = absurd v
pb_decode_varint32_eof-value (b ∷ []) eof rest m n e v h fits k =
    let same : b % 128 + 128 * 0 ≡ b = omega arith in rw same (first_byte32 eof b rest m n e v k)
pb_decode_varint32_eof-value (b ∷ (c ∷ bs)) eof rest m n e v h fits k =
    let left = length (c ∷ bs) + n in
    let more : m ≡ left + 1 = omega arith in
    let sum : b % 128 + value (c ∷ bs) * 2 ^ 7 ≡ value (b ∷ (c ∷ bs)) = omega arith in
    rw (more, first_round32 eof b (c ∷ (bs ++ rest)) left e (v.0, v.1))
      (ap (λ r. (eof, r))
        (varint32_rounds-Takes (c ∷ bs) left 1 7 (b % 128) v.2 refl (omega arith) (omega arith)
            (omega arith) (rw sum fits) rest left n e refl
          ∙ rw sum))

pub pb_decode_varint32-value :
    (bs : List ℕ)
    → IsVarint bs
    → length bs ≤ 5
    → IsU32 (value bs)
    → Takes pb_decode_varint32 bs (value bs)
unfolding pb_decode_varint32
pb_decode_varint32-value bs v h fits rest m n e k =
    ap (λ (r : Bool × (Option ℕ × IStream (List ℕ))). r.1)
      (pb_decode_varint32_eof-value bs false rest m n e v h fits k)

-- On the varint of a 32-bit number `pb_decode_varint32` takes its bytes and returns the number.
pub pb_decode_varint32-varint : (v : ℕ) → IsU32 v → Takes pb_decode_varint32 (varint v) v
pb_decode_varint32-varint v h =
    let fits : v < 128 ^ 10 = omega arith in
    let same = value-groups 9 v fits in
    rw same at (
      pb_decode_varint32-value (varint v) (groups-IsVarint 9 v fits) (length-varint_word v h)
        (rw same h))
