-- ===== src/Nanopb/Decoder/ArrayFrame.antt =====
-- Where the entries of an array are stored that pb_decode_noinit of nanopb/pb_decode.c reads.
use fantasy_iq.Base.{
  ℕ, zero, suc, ◌+◌, ◌*◌, ◌^◌, ◌<◌, ◌≤◌, List, leb, ◌==◌, ◌≡◌, refl, arith, inl, inr, Bool-cases,
  ◌∙◌,
}
use fantasy_iq.Nanopb.Field.{Field, ltype}
use fantasy_iq.Nanopb.Field.Ltype
use fantasy_iq.Nanopb.Iterator.{field_at, add_address}
use fantasy_iq.Nanopb.Iterator.Walk.{walk}
use fantasy_iq.Nanopb.Arrays.Packed.{entry_address}
use fantasy_iq.Nanopb.Decoder.Store.{Memory, write_integer}
use fantasy_iq.Nanopb.Decoder.Memory.{Outside}
use fantasy_iq.Nanopb.Decoder.Words.{write_integer-Outside}
use fantasy_iq.Nanopb.Decoder.Static.{item_address}
use fantasy_iq.Nanopb.Decoder.StaticFrame.{item_inside}
use fantasy_iq.Nanopb.Decoder.Chunks.{effect_of, chunk_effect}
use fantasy_iq.Nanopb.Decoder.Items.{stored_packed, stored_item}
use fantasy_iq.Nanopb.Decoder.ArrayChunks.{item_chunks, array_chunks}

-- Outside an array is outside each of its entries.
pub item-Outside :
    (field : Field) (p_data i q : ℕ)
    → i < field.array_size
    → field.data_size * field.array_size < 2 ^ 32
    → p_data + field.data_size * field.array_size ≤ 2 ^ 64
    → Outside p_data (field.data_size * field.array_size) q
    → Outside (item_address p_data field.data_size i) field.data_size q
      × (item_address p_data field.data_size i + field.data_size ≤ 2 ^ 64)
item-Outside field p_data i q less small word out =
    let inside = item_inside field.data_size i field.array_size less in
    let at : item_address p_data field.data_size i + field.data_size ≤ 2 ^ 64 = omega arith in
    (ground arith, at)

-- Storing one entry of the right kind, from the entry `low` on, leaves the byte at `q` alone.
module _ (fields : List Field) (dest k : ℕ) (f : ℕ → List ℕ) (move : ℕ → ℕ → Memory → Memory)
    (IsEntry : ℕ → Type 0) (q low : ℕ) (word : (walk fields dest k).p_size + 4 ≤ 2 ^ 64)
    (out : Outside (walk fields dest k).p_size 4 q)
    (inner : (i from : ℕ) (memory : Memory)
      → low ≤ i
      → i < (field_at fields k).array_size
      → IsEntry from
      → move from
          (item_address (walk fields dest k).p_data (field_at fields k).data_size i)
          memory
          q
        ≡ memory q) where
  abbrev AreEntries : ℕ → ℕ → Type 0
  AreEntries n from = (j : ℕ) → j < n → IsEntry (entry_address (field_at fields k).data_size from j)

  pub later :
      (n from : ℕ)
      → AreEntries (suc n) from
      → AreEntries n (add_address from (field_at fields k).data_size)
  unfolding entry_address
  later n from entries j less = entries (suc j) (omega arith)

  pub first : (n from : ℕ) → AreEntries (suc n) from → IsEntry from
  unfolding entry_address
  first n from entries = entries 0 (omega arith)

  pub stored_packed-Outside :
      (n i from : ℕ) (memory : Memory)
      → low ≤ i
      → i + n ≤ (field_at fields k).array_size
      → AreEntries n from
      → stored_packed
          (field_at fields k)
          (walk fields dest k).p_data
          (walk fields dest k).p_size
          move
          n
          i
          from
          memory
          q
        ≡ memory q
  unfolding stored_packed
  stored_packed-Outside zero i from memory start room entries = refl
  stored_packed-Outside (suc n) i from memory start room entries =
      let field = field_at fields k in
      let iter = walk fields dest k in
      let memory' = move from (item_address iter.p_data field.data_size i) memory in
      stored_packed-Outside n (suc i) (add_address from field.data_size)
        (write_integer memory' 4 iter.p_size (suc i)) (omega arith) (omega arith)
        (later n from entries)
      ∙ write_integer-Outside memory' 4 iter.p_size (suc i) q word out
      ∙ inner i from memory start (omega arith) (first n from entries)

  pub item_chunks-Outside :
      (n i from : ℕ) (memory : Memory)
      → low ≤ i
      → i + n ≤ (field_at fields k).array_size
      → AreEntries n from
      → effect_of (item_chunks fields dest k f move n i from) memory q ≡ memory q
  unfolding item_chunks effect_of chunk_effect
  item_chunks-Outside zero i from memory start room entries = refl
  item_chunks-Outside (suc n) i from memory start room entries =
      let field = field_at fields k in
      let iter = walk fields dest k in
      let memory' = write_integer memory 4 iter.p_size (suc i) in
      item_chunks-Outside n (suc i) (add_address from field.data_size)
        (stored_item field iter.p_data iter.p_size move i from memory) (omega arith) (omega arith)
        (later n from entries)
      ∙ inner i from memory' start (omega arith) (first n from entries)
      ∙ write_integer-Outside memory 4 iter.p_size (suc i) q word out

  -- Then so does storing the array.
  pub array_chunks-Outside :
      (n i from : ℕ) (memory : Memory)
      → low ≤ i
      → i + n ≤ (field_at fields k).array_size
      → AreEntries n from
      → effect_of (array_chunks fields dest k f move n i from) memory q ≡ memory q
  unfolding array_chunks effect_of chunk_effect
  array_chunks-Outside n i from memory start room entries = elim (Bool-cases (n == 0)) [
    | inl e ↦ rw e refl
    | inr more ↦ rw more (elim (Bool-cases (leb (ltype (field_at fields k)) Ltype.last_packable)) [
      | inl numbers ↦ rw numbers (stored_packed-Outside n i from memory start room entries)
      | inr others ↦ rw others (item_chunks-Outside n i from memory start room entries)
    ])
  ]
