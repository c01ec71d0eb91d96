-- ===== src/Nanopb/Decode/Wraps.antt =====
-- pb_decode_varint32 on numbers that do not fit a word.
use fantasy_iq.Base.{
  ℕ, zero, suc, ◌+◌, ◌*◌, ◌%◌, ◌^◌, ◌<◌, ◌≤◌, List, [], ◌∷◌, ◌++◌, ◌≡◌, refl, ap, arith, Option,
  some, ◌∙◌, replicate,
}
use fantasy_iq.Nanopb.Error.{Error}
use fantasy_iq.Nanopb.Wire.{value, IsContinued}
use fantasy_iq.Nanopb.Input.Buffer.{source, Takes}
use fantasy_iq.Nanopb.Decode.{varint32_rounds, pb_decode_varint32, add_byte32}
use fantasy_iq.Nanopb.Decode.Bytes.{low_seven}
use fantasy_iq.Nanopb.Decode.Varint32.{
  inner_round32, first_round_word, last_round32, add_byte32-low, digit_added32,
}

-- One byte with the top bit, where its digit has room.
round_added :
    (fuel pos acc b : ℕ) (rest : List ℕ) (n : ℕ) (e : Option Error)
    → IsContinued b
    → pos ≤ 25
    → acc < 2 ^ pos
    → varint32_rounds (suc fuel) pos acc (source (b ∷ rest) (n + 1) e)
      ≡ varint32_rounds fuel (pos + 7) (acc + b % 128 * 2 ^ pos) (source rest n e)
round_added fuel pos acc b rest n e hb hp fits =
    let next : (pos + 7) % 256 ≡ pos + 7 = omega arith in
    inner_round32 fuel pos acc (acc + b % 128 * 2 ^ pos) b rest n e hb
      ((digit_added32 b pos acc hp fits).0)
    ∙ rw next

zero_above : (pos acc : ℕ) → 32 ≤ pos → add_byte32 0 pos acc ≡ some acc
unfolding add_byte32
zero_above pos acc h = ground (arith, low_seven 0)

-- The rounds behind the first byte; the fifth byte's digit is cut off at the word.
five_rounds :
    (fuel acc b c d x : ℕ) (rest : List ℕ) (n : ℕ) (e : Option Error)
    → IsContinued b
    → IsContinued c
    → IsContinued d
    → IsContinued x
    → acc < 128
    → let sum = acc + b % 128 * 2 ^ 7 + c % 128 * 2 ^ 14 + d % 128 * 2 ^ 21 in
      varint32_rounds
        (suc (suc (suc (suc (suc fuel)))))
        7
        acc
        (source (b ∷ c ∷ d ∷ x ∷ 0 ∷ rest) (n + 1 + 1 + 1 + 1 + 1) e)
      ≡ (some ((sum + x % 128 * 2 ^ 28) % 2 ^ 32), source rest n e)
five_rounds fuel acc b c d x rest n e hb hc hd hx small =
    let acc' = acc + b % 128 * 2 ^ 7 in
    let acc'' = acc' + c % 128 * 2 ^ 14 in
    let sum = acc'' + d % 128 * 2 ^ 21 in
    let cut = (sum + x % 128 * 2 ^ 28) % 2 ^ 32 in
    round_added (suc (suc (suc (suc fuel)))) 7 acc b (c ∷ d ∷ x ∷ 0 ∷ rest) (n + 1 + 1 + 1 + 1) e hb
      (omega arith) (omega arith)
    ∙ round_added (suc (suc (suc fuel))) 14 acc' c (d ∷ x ∷ 0 ∷ rest) (n + 1 + 1 + 1) e hc
        (omega arith) (omega arith)
    ∙ round_added (suc (suc fuel)) 21 acc'' d (x ∷ 0 ∷ rest) (n + 1 + 1) e hd (omega arith)
        (omega arith)
    ∙ inner_round32 (suc fuel) 28 sum cut x (0 ∷ rest) (n + 1) e hx
        (add_byte32-low x 28 sum (omega arith) (omega arith))
    ∙ last_round32 fuel 35 cut cut 0 (omega arith) (zero_above 35 cut (omega arith)) refl rest
        (n + 1) n e (omega arith)

-- On six bytes, the first five with the top bit and the last 0, `pb_decode_varint32` returns the
-- value modulo 2 ^ 32, whatever the value is: bits that do not fit a word are dropped.
pub pb_decode_varint32_drops :
    (a b c d x : ℕ)
    → IsContinued a
    → IsContinued b
    → IsContinued c
    → IsContinued d
    → IsContinued x
    → let bs = a ∷ b ∷ c ∷ d ∷ x ∷ 0 ∷ [] in Takes pb_decode_varint32 bs (value bs % 2 ^ 32)
unfolding value
pb_decode_varint32_drops a b c d x ha hb hc hd hx rest m n e h =
    let first : m ≡ n + 1 + 1 + 1 + 1 + 1 + 1 = omega arith in
    let fuel : n + 1 + 1 + 1 + 1 + 1 ≡ suc (suc (suc (suc (suc n)))) = omega arith in
    let bs = a ∷ b ∷ c ∷ d ∷ x ∷ 0 ∷ [] in
    let sum = a % 128 + b % 128 * 2 ^ 7 + c % 128 * 2 ^ 14 + d % 128 * 2 ^ 21 + x % 128 * 2 ^ 28 in
    let same : sum ≡ value bs = omega arith in
    let tail = source (b ∷ c ∷ d ∷ x ∷ 0 ∷ rest) (n + 1 + 1 + 1 + 1 + 1) e in
    rw first (first_round_word a (b ∷ c ∷ d ∷ x ∷ 0 ∷ rest) (n + 1 + 1 + 1 + 1 + 1) e ha)
    ∙ ap (λ (f : ℕ). varint32_rounds f 7 (a % 128) tail) fuel
    ∙ five_rounds n (a % 128) b c d x rest n e hb hc hd hx (omega arith)
    ∙ ap (λ (t : ℕ). (some (t % 2 ^ 32), source rest n e)) same

-- A run of 0x80 leaves 0 in `result` and moves `bitpos` on, modulo 256.
zero_run :
    (k fuel pos : ℕ) (rest : List ℕ) (n all m : ℕ) (e : Option Error)
    → pos < 256
    → all ≡ k + fuel
    → m ≡ k + n
    → varint32_rounds all pos 0 (source (replicate k 0x80 ++ rest) m e)
      ≡ varint32_rounds fuel ((pos + 7 * k) % 256) 0 (source rest n e)
zero_run zero fuel pos rest n all m e h hf hm =
    let same_fuel : all ≡ fuel = omega arith in
    let same_left : m ≡ n = omega arith in
    let same_pos : (pos + 7 * 0) % 256 ≡ pos = omega arith in rw (same_fuel, same_left, same_pos)
zero_run (suc k) fuel pos rest n all m e h hf hm =
    let more_fuel : all ≡ suc (k + fuel) = omega arith in
    let more_left : m ≡ k + n + 1 = omega arith in
    let next_pos : (pos + 7 * suc k) % 256 ≡ ((pos + 7) % 256 + 7 * k) % 256 = omega arith in
    rw
      (
        more_fuel,
        more_left,
        next_pos,
        inner_round32 (k + fuel) pos 0 0 0x80 (replicate k 0x80 ++ rest) (k + n) e (omega arith)
            (zero_digit pos),
      )
      (zero_run k fuel ((pos + 7) % 256) rest n (k + fuel) (k + n) e (omega arith) refl refl)
  where
    zero_digit : (pos : ℕ) → add_byte32 0x80 pos 0 ≡ some 0
    zero_digit pos = unfold add_byte32 in ground (arith, low_seven 0x80)

-- On 37 bytes 0x80 and a last byte `d` below 128, which stand for `d * 2 ^ 259`,
-- `pb_decode_varint32` returns `d * 8`.
pub pb_decode_varint32_wraps :
    (d : ℕ) → d < 128 → Takes pb_decode_varint32 (replicate 37 0x80 ++ (d ∷ [])) (d * 8)
pb_decode_varint32_wraps d h rest m n e k =
    let first : m ≡ 36 + (n + 1) + 1 = omega arith in
    let digit : (0 + d % 128 * 2 ^ 3) % 2 ^ 32 ≡ d * 8 = omega arith in
    rw first
      (first_round_word 0x80 (replicate 36 0x80 ++ (d ∷ rest)) (36 + (n + 1)) e (omega arith))
    ∙ zero_run 36 (suc n) 7 (d ∷ rest) (n + 1) (36 + (n + 1)) (36 + (n + 1)) e (omega arith)
        (omega arith) refl
    ∙ last_round32 n 3 0 (d * 8) d h
        (add_byte32-low d 3 0 (omega arith) (omega arith) ∙ ap some digit) refl rest (n + 1) n e
        (omega arith)
