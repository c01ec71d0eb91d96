-- ===== src/Nanopb/Encode/Varint.antt =====
-- What the scalar encoders write, against the wire format.
use fantasy_iq.Base.{
  ℕ, zero, suc, ◌+◌, ◌-◌, ◌/◌, ◌%◌, ◌^◌, ◌<◌, ◌≤◌, bit_and, bit_or, List, [], ◌∷◌, ◌++◌, length,
  get_or, set, ltb, leb, ◌≡◌, refl, ap, arith, length-append, append_assoc, inl, inr, Bool-cases,
  ltb→lt, ltb→ge, leb→le, ◌∙◌, length-set, sym,
}
use native.Mathlib.Nat.{pow-suc}
use fantasy_iq.Nanopb.Output.Emits.{Sink, Emits, Emits-pb_write}
use fantasy_iq.Base.Bits.{mask_remainder, or_shifted}
use fantasy_iq.Nanopb.Wire.{groups, varint, IsU64, groups-small, groups-large}
use fantasy_iq.Nanopb.Encode.{varint_loop, unset_last_top_bit, pb_encode_varint}

low_seven : (v : ℕ) → bit_and v 0x7F ≡ v % 128
low_seven = mask_remainder 7

-- A byte with its top bit set and cleared again.
marked_byte : (v : ℕ) → bit_or (bit_and v 0x7F) 0x80 % 256 ≡ 128 + v % 128
marked_byte v = omega (arith, low_seven v, or_shifted 7 (bit_and v 0x7F) 1)

get-last : (buffer : List ℕ) (b : ℕ) → get_or (buffer ++ (b ∷ [])) (length buffer) 0 ≡ b
get-last [] b = refl
get-last (x ∷ buffer) b = get-last buffer b

set-last :
    (buffer : List ℕ) (b c : ℕ) → set (buffer ++ (b ∷ [])) (length buffer) c ≡ buffer ++ (c ∷ [])
set-last [] b c = refl
set-last (x ∷ buffer) b c = ap (λ t. x ∷ t) (set-last buffer b c)

unset_last_top_bit-snoc :
    (buffer : List ℕ) (b : ℕ)
    → unset_last_top_bit (buffer ++ (b ∷ [])) ≡ buffer ++ (bit_and b 0x7F ∷ [])
unfolding unset_last_top_bit
unset_last_top_bit-snoc buffer b =
    let n : length (buffer ++ (b ∷ [])) - 1 ≡ length buffer =
      omega (arith, length-append buffer (b ∷ [])) in
    rw (n, get-last, set-last)

varint_loop-zero : (room : ℕ) (buffer : List ℕ) → varint_loop room 0 buffer ≡ buffer
unfolding varint_loop
varint_loop-zero zero buffer = refl
varint_loop-zero (suc room) buffer = refl

varint_loop-pos :
    (room v : ℕ) (buffer : List ℕ)
    → 0 < v
    → varint_loop (suc room) v buffer
      ≡ varint_loop room (v / 128) (buffer ++ ((128 + v % 128) ∷ []))
unfolding varint_loop
varint_loop-pos room v buffer pos = rw marked_byte (ground arith)

last_group :
    (k room v : ℕ) (buffer : List ℕ)
    → 0 < v
    → v < 128
    → unset_last_top_bit (varint_loop (suc room) v buffer) ≡ buffer ++ groups k v
last_group k room v buffer pos h =
    let gone : v / 128 ≡ 0 = omega arith in
    let low : bit_and (128 + v % 128) 0x7F ≡ v = omega (arith, low_seven (128 + v % 128)) in
    rw (
      varint_loop-pos room v buffer pos,
      gone,
      varint_loop-zero room,
      unset_last_top_bit-snoc buffer,
      low,
      groups-small k v h,
    )

-- The loop writes the digits with all top bits set, and then clears the last.
varint_loop-groups :
    (k v : ℕ) (buffer : List ℕ)
    → 0 < v
    → v < 128 ^ suc k
    → unset_last_top_bit (varint_loop (suc k) v buffer) ≡ buffer ++ groups k v
varint_loop-groups zero v buffer pos h = last_group zero zero v buffer pos (omega arith)
varint_loop-groups (suc k) v buffer pos h = elim (Bool-cases (ltb v 128)) [
  | inl small ↦ last_group (suc k) (suc k) v buffer pos (ltb→lt _ _ small)
  | inr large ↦
      let big = ltb→ge v 128 large in
      rw (varint_loop-pos (suc k) v buffer pos, groups-large k v big)
        (varint_loop-groups k (v / 128) (buffer ++ ((128 + v % 128) ∷ [])) (omega arith)
            (omega (arith, pow-suc 128 (suc k)))
          ∙ append_assoc buffer ((128 + v % 128) ∷ []) (groups k (v / 128)))
]

-- Clearing a bit does not change how many bytes there are.
length-unset_last_top_bit : (buffer : List ℕ) → length (unset_last_top_bit buffer) ≡ length buffer
unfolding unset_last_top_bit
length-unset_last_top_bit buffer = length-set buffer _ _

-- Ten bytes are enough for every 64-bit number, and the loop fills in the shortest form.
pub varint_buffer :
    (v : ℕ)
    → 0 < v
    → IsU64 v
    → (unset_last_top_bit (varint_loop 10 v []) ≡ varint v)
      × (length (varint_loop 10 v []) ≡ length (varint v))
varint_buffer v pos h =
    let e = varint_loop-groups 9 v [] pos (omega arith) in
    (e, sym (length-unset_last_top_bit (varint_loop 10 v [])) ∙ ap length e)

module _ {S : Type 0} (k : Sink S) where
  -- `pb_encode_varint` writes the shortest varint of every 64-bit value.
  pub pb_encode_varint-Emits : (v : ℕ) → IsU64 v → Emits k (pb_encode_varint v) (varint v)
  unfolding pb_encode_varint
  pb_encode_varint-Emits v h = elim (Bool-cases (leb v 0x7F)) [
    | inl small ↦
        let fits : v ≤ 0x7F = leb→le _ _ small in
        let same : v % 256 ≡ v = omega arith in
        rw (small, same, groups-small 9 v (omega arith)) (Emits-pb_write k (v ∷ []) 1 refl)
    | inr large ↦
        let (e, n) = varint_buffer v (ground arith) h in
        rw (large, e) (Emits-pb_write k (varint v) _ n)
  ]
