-- ===== src/Nanopb/Decode/Overflow.antt =====
-- pb_decode_varint on bytes that do not end within ten, and on a stream that ends too early.
use fantasy_iq.Base.{
  ℕ, zero, suc, ◌+◌, ◌-◌, ◌*◌, ◌%◌, ◌^◌, ◌<◌, ◌≤◌, bit_or, List, [], ◌∷◌, ◌++◌, length, ◌≡◌, refl,
  arith, Option, none, All, ◌∙◌,
}
use fantasy_iq.Nanopb.Error.{Error, varint_overflow, end_of_stream, set_error}
use fantasy_iq.Nanopb.Wire.{IsContinued}
use fantasy_iq.Nanopb.Input.{pb_readbyte}
use fantasy_iq.Nanopb.Input.Buffer.{source}
use fantasy_iq.Nanopb.Decode.{varint_rounds, pb_decode_varint}
use fantasy_iq.Nanopb.Decode.Varint.{inner_round}

-- What the loop has gathered behind bytes with the top bit.
abbrev gathered : List ℕ → ℕ → ℕ → ℕ
gathered [] pos acc = acc
gathered (b ∷ bs) pos acc = gathered bs (pos + 7) (bit_or acc (b % 128 * 2 ^ pos % 2 ^ 64))

run_on :
    (bs : List ℕ) (all fuel pos acc : ℕ) (rest : List ℕ) (m n : ℕ) (e : Option Error)
    → All IsContinued bs
    → pos + 7 * length bs ≤ 70
    → all ≡ length bs + fuel
    → m ≡ length bs + n
    → varint_rounds all pos acc (source (bs ++ rest) m e)
      ≡ varint_rounds fuel (pos + 7 * length bs) (gathered bs pos acc) (source rest n e)
run_on [] all fuel pos acc rest m n e h hp ha hm =
    let same_fuel : all ≡ fuel = omega arith in
    let same_left : m ≡ n = omega arith in
    let same_pos : pos + 7 * 0 ≡ pos = omega arith in rw (same_fuel, same_left, same_pos)
run_on (b ∷ bs) all fuel pos acc rest m n e (hb, h) hp ha hm =
    let more_fuel : all ≡ suc (length bs + fuel) = omega arith in
    let more_left : m ≡ length bs + n + 1 = omega arith in
    let next_pos : pos + 7 * suc (length bs) ≡ pos + 7 + 7 * length bs = omega arith in
    rw
      (
        more_fuel,
        more_left,
        next_pos,
        inner_round (length bs + fuel) pos acc b (bs ++ rest) (length bs + n) e hb.0 hb.1
            (omega arith),
      )
      (run_on bs (length bs + fuel) fuel (pos + 7) (bit_or acc (b % 128 * 2 ^ pos % 2 ^ 64)) rest
        (length bs + n) n e h (omega arith) refl refl)

overflow_round :
    (fuel pos acc n : ℕ) (rest : List ℕ) (e : Option Error)
    → 64 ≤ pos
    → varint_rounds fuel pos acc (source rest n e)
      ≡ (none, source rest n (set_error e varint_overflow))
unfolding varint_rounds
overflow_round zero pos acc n rest e h = refl
overflow_round (suc fuel) pos acc n rest e h = ground arith

-- After ten bytes that all have the top bit, `pb_decode_varint` has taken just those ten and
-- fails with "varint overflow".
pub pb_decode_varint_overflow :
    (bs rest : List ℕ) (m n : ℕ) (e : Option Error)
    → All IsContinued bs
    → length bs ≡ 10
    → m ≡ 10 + n
    → pb_decode_varint (source (bs ++ rest) m e)
      ≡ (none, source rest n (set_error e varint_overflow))
unfolding pb_decode_varint
pb_decode_varint_overflow bs rest m n e h ten hm =
    run_on bs 11 1 0 0 rest m n e h (omega arith) (omega arith) (omega arith)
    ∙ overflow_round 1 (0 + 7 * length bs) (gathered bs 0 0) n rest e (omega arith)

end_round :
    (fuel pos acc : ℕ) (rest : List ℕ) (e : Option Error)
    → pos < 64
    → varint_rounds (suc fuel) pos acc (source rest 0 e)
      ≡ (none, source rest 0 (set_error e end_of_stream))
unfolding varint_rounds pb_readbyte
end_round fuel pos acc rest e h = ground arith

-- On a stream that ends behind fewer than ten bytes, all with the top bit, `pb_decode_varint`
-- takes them all and fails with "end-of-stream".
pub pb_decode_varint_truncated :
    (bs rest : List ℕ) (e : Option Error)
    → All IsContinued bs
    → length bs < 10
    → pb_decode_varint (source (bs ++ rest) (length bs) e)
      ≡ (none, source rest 0 (set_error e end_of_stream))
unfolding pb_decode_varint
pb_decode_varint_truncated bs rest e h few =
    run_on bs 11 (suc (10 - length bs)) 0 0 rest (length bs) 0 e h (omega arith) (omega arith)
      (omega arith)
    ∙ end_round (10 - length bs) (0 + 7 * length bs) (gathered bs 0 0) rest e (omega arith)
