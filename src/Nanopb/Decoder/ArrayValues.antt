-- ===== src/Nanopb/Decoder/ArrayValues.antt =====
-- The numbers in an array behind pb_decode_noinit of nanopb/pb_decode.c.
use fantasy_iq.Base.{
  ℕ, zero, suc, ◌+◌, ◌*◌, ◌^◌, ◌<◌, ◌≤◌, true, false, List, leb, ◌==◌, ltb, ◌≡◌, ◌≢◌, arith, inl,
  inr, Bool-cases, ◌∙◌,
}
use fantasy_iq.Nanopb.Field.{Field, ltype}
use fantasy_iq.Nanopb.Field.Ltype
use fantasy_iq.Nanopb.Iterator.{field_at, add_address}
use fantasy_iq.Nanopb.Iterator.Walk.{walk}
use fantasy_iq.Nanopb.Machine.{load}
use fantasy_iq.Nanopb.Arrays.Packed.{entry_address}
use fantasy_iq.Nanopb.Decoder.Store.{Memory, write_integer}
use fantasy_iq.Nanopb.Decoder.Memory.{Outside}
use fantasy_iq.Nanopb.Decoder.Words.{write_integer-Outside, load-ext}
use fantasy_iq.Nanopb.Decoder.Static.{item_address}
use fantasy_iq.Nanopb.Decoder.StaticFrame.{item_inside}
use fantasy_iq.Nanopb.Decoder.Chunks.{effect_of, chunk_effect}
use fantasy_iq.Nanopb.Decoder.Items.{stored_packed}
use fantasy_iq.Nanopb.Decoder.ArrayChunks.{array_chunks}
use fantasy_iq.Nanopb.Decoder.ArrayFrame.{stored_packed-Outside}

-- A byte of one entry is outside every other one.
pub item-apart :
    (field : Field) (p_data i j q : ℕ)
    → i < field.array_size
    → j < field.array_size
    → i ≢ j
    → field.data_size * field.array_size < 2 ^ 32
    → p_data + field.data_size * field.array_size ≤ 2 ^ 64
    → item_address p_data field.data_size i ≤ q
    → q < item_address p_data field.data_size i + field.data_size
    → Outside (item_address p_data field.data_size j) field.data_size q
item-apart field p_data i j q hi hj other small word lo up =
    let size = field.data_size in
    let i_inside = item_inside size i field.array_size hi in
    let j_inside = item_inside size j field.array_size hj in
    elim (Bool-cases (ltb i j)) [
      | inl less ↦ let before = item_inside size i j (ground arith) in ground arith
      | inr more ↦ let behind = item_inside size j i (ground arith) in ground arith
    ]

-- `value` gives the number that stands at an address and is stored.
module _ (fields : List Field) (dest k : ℕ) (f : ℕ → List ℕ) (move : ℕ → ℕ → Memory → Memory)
    (IsEntry : ℕ → Type 0) (value : ℕ → ℕ) (word : (walk fields dest k).p_size + 4 ≤ 2 ^ 64)
    (inside : (i : ℕ)
      → i < (field_at fields k).array_size
      → item_address (walk fields dest k).p_data (field_at fields k).data_size i
          + (field_at fields k).data_size
        ≤ 2 ^ 64)
    (out : (i q : ℕ)
      → i < (field_at fields k).array_size
      → item_address (walk fields dest k).p_data (field_at fields k).data_size i ≤ q
      → q
        < item_address (walk fields dest k).p_data (field_at fields k).data_size i
          + (field_at fields k).data_size
      → Outside (walk fields dest k).p_size 4 q)
    (others : (i j from q : ℕ) (memory : Memory)
      → i < j
      → j < (field_at fields k).array_size
      → IsEntry from
      → item_address (walk fields dest k).p_data (field_at fields k).data_size i ≤ q
      → q
        < item_address (walk fields dest k).p_data (field_at fields k).data_size i
          + (field_at fields k).data_size
      → move from
          (item_address (walk fields dest k).p_data (field_at fields k).data_size j)
          memory
          q
        ≡ memory q)
    (own : (i from : ℕ) (memory : Memory)
      → i < (field_at fields k).array_size
      → IsEntry from
      → load
          (move from
            (item_address (walk fields dest k).p_data (field_at fields k).data_size i)
            memory)
          (field_at fields k).data_size
          (item_address (walk fields dest k).p_data (field_at fields k).data_size i)
        ≡ value from) where
  abbrev held_at : Memory → ℕ → ℕ
  held_at memory i =
      load memory (field_at fields k).data_size
        (item_address (walk fields dest k).p_data (field_at fields k).data_size i)

  stored_packed-value :
      (n i from j : ℕ) (memory : Memory)
      → i + n ≤ (field_at fields k).array_size
      → ((l : ℕ) → l < n → IsEntry (entry_address (field_at fields k).data_size from l))
      → j < n
      → held_at
          (stored_packed
            (field_at fields k)
            (walk fields dest k).p_data
            (walk fields dest k).p_size
            move
            n
            i
            from
            memory)
          (i + j)
        ≡ value (entry_address (field_at fields k).data_size from j)
  unfolding stored_packed entry_address
  stored_packed-value zero i from j memory room entries less = absurd (omega arith)
  stored_packed-value (suc n) i from zero memory room entries less =
      let field = field_at fields k in
      let iter = walk fields dest k in
      let at = item_address iter.p_data field.data_size i in
      let first = move from at memory in
      let counted = write_integer first 4 iter.p_size (suc i) in
      let here : i + 0 ≡ i = omega arith in
      rw here (
        load-ext field.data_size
          (stored_packed field iter.p_data iter.p_size move n (suc i)
            (add_address from field.data_size) counted)
          first at (inside i (omega arith))
          (λ q lo up.
            stored_packed-Outside fields dest k f move IsEntry q (suc i) word
              (out i q (omega arith) lo up)
              (λ l from' memory' start room' entry.
                others i l from' q memory' (omega arith) room' entry lo up)
              n (suc i) (add_address from field.data_size) counted (omega arith) (omega arith)
              (λ l lt. entries (suc l) (omega arith))
            ∙ write_integer-Outside first 4 iter.p_size (suc i) q word
                (out i q (omega arith) lo up))
        ∙ own i from memory (omega arith) (entries 0 (omega arith)))
  stored_packed-value (suc n) i from (suc j) memory room entries less =
      let field = field_at fields k in
      let iter = walk fields dest k in
      let next : i + suc j ≡ suc i + j = omega arith in
      rw next (
        stored_packed-value n (suc i) (add_address from field.data_size) j
          (write_integer (move from (item_address iter.p_data field.data_size i) memory) 4
            iter.p_size (suc i))
          (omega arith) (λ l lt. entries (suc l) (omega arith)) (omega arith))

  -- Each entry of the array holds its number; only numbers are packed.
  pub array_chunks-value :
      (n i from j : ℕ) (memory : Memory)
      → leb (ltype (field_at fields k)) Ltype.last_packable ≡ true
      → i + n ≤ (field_at fields k).array_size
      → ((l : ℕ) → l < n → IsEntry (entry_address (field_at fields k).data_size from l))
      → j < n
      → held_at (effect_of (array_chunks fields dest k f move n i from) memory) (i + j)
        ≡ value (entry_address (field_at fields k).data_size from j)
  unfolding array_chunks effect_of chunk_effect
  array_chunks-value n i from j memory numbers room entries less =
      let some_entries : (n == 0) ≡ false = ground arith in
      rw (some_entries, numbers) (stored_packed-value n i from j memory room entries less)
