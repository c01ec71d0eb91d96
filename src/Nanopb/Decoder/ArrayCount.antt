-- ===== src/Nanopb/Decoder/ArrayCount.antt =====
-- The count of an array behind pb_decode_noinit of nanopb/pb_decode.c.
use fantasy_iq.Base.{ℕ, zero, suc, ◌+◌, ◌<◌, ◌≤◌, List, leb, ◌==◌, ◌≡◌, arith, inl, inr, Bool-cases}
use fantasy_iq.Nanopb.Field.{Field, ltype}
use fantasy_iq.Nanopb.Field.Ltype
use fantasy_iq.Nanopb.Iterator.{field_at, add_address}
use fantasy_iq.Nanopb.Iterator.Walk.{walk}
use fantasy_iq.Nanopb.Machine.{load_size}
use fantasy_iq.Nanopb.Arrays.Packed.{entry_address}
use fantasy_iq.Nanopb.Decoder.Store.{Memory}
use fantasy_iq.Nanopb.Decoder.Chunks.{effect_of, chunk_effect}
use fantasy_iq.Nanopb.Decoder.Items.{IsCounted, stored_item, stored_item-count, stored_packed-count}
use fantasy_iq.Nanopb.Decoder.ArrayChunks.{item_chunks, array_chunks}

module _ (fields : List Field) (dest k : ℕ) (f : ℕ → List ℕ) (move : ℕ → ℕ → Memory → Memory)
    (IsEntry : ℕ → Type 0)
    (is : IsCounted
      (field_at fields k)
      (walk fields dest k).p_data
      (walk fields dest k).p_size
      move
      IsEntry) where
  item_chunks-count :
      (n i from : ℕ) (memory : Memory)
      → i + n ≤ (field_at fields k).array_size
      → ((j : ℕ) → j < n → IsEntry (entry_address (field_at fields k).data_size from j))
      → load_size memory (walk fields dest k).p_size ≡ i
      → load_size
          (effect_of (item_chunks fields dest k f move n i from) memory)
          (walk fields dest k).p_size
        ≡ i + n
  unfolding item_chunks effect_of chunk_effect entry_address
  item_chunks-count zero i from memory room entries count = omega (arith, count)
  item_chunks-count (suc n) i from memory room entries count =
      let field = field_at fields k in
      let iter = walk fields dest k in
      let next : i + suc n ≡ suc i + n = omega arith in
      rw next (
        item_chunks-count n (suc i) (add_address from field.data_size)
          (stored_item field iter.p_data iter.p_size move i from memory) (omega arith)
          (λ j less. entries (suc j) (omega arith))
          (stored_item-count field iter.p_data iter.p_size move IsEntry i from memory is
            (omega arith) (entries 0 (omega arith))))

  -- It goes up by the number of the entries.
  pub array_chunks-count :
      (n i from : ℕ) (memory : Memory)
      → i + n ≤ (field_at fields k).array_size
      → ((j : ℕ) → j < n → IsEntry (entry_address (field_at fields k).data_size from j))
      → load_size memory (walk fields dest k).p_size ≡ i
      → load_size
          (effect_of (array_chunks fields dest k f move n i from) memory)
          (walk fields dest k).p_size
        ≡ i + n
  unfolding array_chunks effect_of chunk_effect
  array_chunks-count n i from memory room entries count = elim (Bool-cases (n == 0)) [
    | inl e ↦ rw e (ground (arith, count))
    | inr more ↦ rw more (elim (Bool-cases (leb (ltype (field_at fields k)) Ltype.last_packable)) [
      | inl numbers ↦ rw numbers (
          stored_packed-count (field_at fields k) (walk fields dest k).p_data
            (walk fields dest k).p_size move IsEntry n i from memory is room count)
      | inr others ↦ rw others (item_chunks-count n i from memory room entries count)
    ])
  ]
