-- ===== src/Nanopb/Decoder/ArrayChunks.antt =====
-- An array inside a structure as a part of a message, as encode_array of nanopb/pb_encode.c writes
-- it and pb_decode_noinit of nanopb/pb_decode.c reads it.
use fantasy_iq.Base.{
  ℕ, zero, suc, ◌+◌, ◌^◌, ◌<◌, ◌≤◌, true, false, ◌&&◌, List, [], ◌∷◌, ◌++◌, length, leb, ◌==◌,
  if◌then◌else◌, ◌≡◌, ◌≢◌, refl, arith, sym, inl, inr, Bool-cases, append-nil,
}
use fantasy_iq.Nanopb.Field.{Field, ltype, htype, atype}
use fantasy_iq.Nanopb.Field.Ltype
use fantasy_iq.Nanopb.Wire.{varint, IsU32}
use fantasy_iq.Nanopb.Wire.WireType
use fantasy_iq.Nanopb.Iterator.{field_at, add_address}
use fantasy_iq.Nanopb.Iterator.Walk.{IsDescriptor, walk}
use fantasy_iq.Nanopb.Iterator.Find.{wanted_at, current-walk}
use fantasy_iq.Nanopb.Machine.{Machine, load_size}
use fantasy_iq.Nanopb.Encode.Scalars.{wire_type_of, wire_type_of-lt}
use fantasy_iq.Nanopb.Arrays.{entry_target}
use fantasy_iq.Nanopb.Arrays.Packed.{entry_address, entries_bytes}
use fantasy_iq.Nanopb.Arrays.Encoding.{array_bytes, keyed}
use fantasy_iq.Nanopb.Decoder.Store.{Memory, Decode, Platform}
use fantasy_iq.Nanopb.Decoder.Fields.{decode_field}
use fantasy_iq.Nanopb.Decoder.Copies.{ReadsAt}
use fantasy_iq.Nanopb.Decoder.Chunks.{
  Chunk, known, bytes_of, chunk_bytes, chunk_effect, IsKnown, AreChunks,
}
use fantasy_iq.Nanopb.Decoder.Items.{
  stored_item, stored_packed, IsCounted, stored_item-count, ReadsItems, head_item, tail_items,
  decode_item-ReadsAt, decode_packed_array-ReadsAt,
}
use fantasy_iq.Nanopb.Decoder.Kinds.{no_extension}
use fantasy_iq.Nanopb.Decoder.RepeatedFields.{decode_field_packed, decode_field_item}

-- The array at position `k`; `f` gives the bytes of an entry and `move` says what storing it does.
module _ (fields : List Field) (dest k : ℕ) (f : ℕ → List ℕ) (move : ℕ → ℕ → Memory → Memory) where
  -- `n` entries from address `from` on, behind `i` that are stored, in a field each.
  unfoldable pub item_chunks : ℕ → ℕ → ℕ → List Chunk
  item_chunks zero i from = []
  item_chunks (suc n) i from =
      let field = field_at fields k in
      let iter = walk fields dest k in
      known k (wire_type_of (ltype field)) (f from)
        (stored_item field iter.p_data iter.p_size move i from)
      ∷ item_chunks n (suc i) (add_address from field.data_size)

  -- The entries in one field.
  abbrev pub packed_chunk : ℕ → ℕ → ℕ → Chunk
  packed_chunk n i from =
      let field = field_at fields k in
      let iter = walk fields dest k in
      let bs = entries_bytes f field.data_size n from in
      known k WireType.string (varint (length bs) ++ bs)
        (stored_packed field iter.p_data iter.p_size move n i from)

  unfoldable pub array_chunks : ℕ → ℕ → ℕ → List Chunk
  array_chunks n i from =
      if n == 0
      then []
      else if leb (ltype (field_at fields k)) Ltype.last_packable
      then packed_chunk n i from ∷ []
      else item_chunks n i from

  -- An array with a tag of its own in the structure itself, whose count is in the structure too.
  pub record IsArrayField (IsEntry : ℕ → Type 0) : Type 0 where
    pub inside : k < length fields
    pub tag : (field_at fields k).tag < 2 ^ 29
    pub only :
        (j : ℕ) → j < length fields → wanted_at fields (field_at fields k).tag j ≡ true → j ≡ k
    pub static : atype (field_at fields k) ≡ 0x00
    pub repeated : htype (field_at fields k) ≡ 0x20
    pub kind : wire_type_of (ltype (field_at fields k)) ≢ 8
    pub apart : (walk fields dest k).p_size ≢ (walk fields dest k).p_data
    pub counted :
        IsCounted
          (field_at fields k)
          (walk fields dest k).p_data
          (walk fields dest k).p_size
          move
          IsEntry

  -- Its bytes are those that encode_array writes.
  item_chunks-bytes :
      {S : Type 0} (m : Machine S) (n i from : ℕ)
      → atype (field_at fields k) ≡ 0x00
      → entries_bytes
          (λ q. keyed (field_at fields k) (f (entry_target m (field_at fields k) q)))
          (field_at fields k).data_size
          n
          from
        ≡ bytes_of fields (item_chunks n i from)
  unfolding entries_bytes item_chunks bytes_of chunk_bytes
  item_chunks-bytes m zero i from static = refl
  item_chunks-bytes m (suc n) i from static =
      let field = field_at fields k in
      let direct : entry_target m field from ≡ from = ground (arith, static) in
      let rest = item_chunks-bytes m n (suc i) (add_address from field.data_size) static in
      rw (direct, rest) refl

  pub array_chunks-bytes :
      {S : Type 0} (m : Machine S) (n i from : ℕ)
      → atype (field_at fields k) ≡ 0x00
      → array_bytes m (field_at fields k) f from n ≡ bytes_of fields (array_chunks n i from)
  unfolding array_bytes array_chunks bytes_of chunk_bytes
  array_chunks-bytes m n i from static = elim (Bool-cases (n == 0)) [
    | inl e ↦ rw e refl
    | inr some ↦ rw some (elim (Bool-cases (leb (ltype (field_at fields k)) Ltype.last_packable)) [
      | inl numbers ↦ rw numbers (sym (append-nil _))
      | inr others ↦ rw others (item_chunks-bytes m n i from static)
    ])
  ]

module _ {H : Type 0} (p : Platform H (List ℕ)) (fuel : ℕ) (func : Field → ℕ → Decode H (List ℕ))
    (fields : List Field) (dest k : ℕ) (f : ℕ → List ℕ) (move : ℕ → ℕ → Memory → Memory)
    (IsEntry : ℕ → Type 0) (d : IsDescriptor fields)
    (is : IsArrayField fields dest k f move IsEntry) where
  abbrev pub EntriesRead : ℕ → ℕ → ℕ → Type 0
  EntriesRead n i from =
      let field = field_at fields k in
      let iter = walk fields dest k in
      ReadsItems field iter.p_data iter.p_size move (func field) f IsEntry is.counted n i from

  array_field-IsKnown :
      (memory : Memory) (w : ℕ) (payload : List ℕ) (effect : Memory → Memory)
      → w < 8
      → ReadsAt memory (decode_field p fuel func w (walk fields dest k)) payload effect
      → IsKnown p fuel func fields dest memory k w payload effect
  array_field-IsKnown memory w payload effect wire reads = record {
    inside = is.inside;
    wire = wire;
    tag = is.tag;
    wanted = ground (arith, no_extension (ltype (field_at fields k)) is.kind);
    only = is.only;
    counted = ground (arith, is.apart);
    reads = reads;
  }

  -- The fields of the entries, one behind the other.
  item_chunks-AreChunks :
      (n i from : ℕ) (memory : Memory)
      → leb (ltype (field_at fields k)) Ltype.last_packable ≡ false
      → EntriesRead n i from
      → i + n ≤ (field_at fields k).array_size
      → load_size memory (walk fields dest k).p_size ≡ i
      → AreChunks p fuel func fields dest memory (item_chunks fields dest k f move n i from)
  unfolding item_chunks chunk_effect
  item_chunks-AreChunks zero i from memory others each room count = tt
  item_chunks-AreChunks (suc n) i from memory others each room count =
      let field = field_at fields k in
      let iter = walk fields dest k in
      let w = wire_type_of (ltype field) in
      let effect = stored_item field iter.p_data iter.p_size move i from in
      let here = current-walk fields dest 0 d k is.inside in
      let single : (w == WireType.string && leb (ltype field) Ltype.last_packable) ≡ false =
        ground arith in
      let reads =
        decode_item-ReadsAt field iter.p_data iter.p_size move (func field) f IsEntry is.counted i
          from memory (omega arith) count
          (head_item field iter.p_data iter.p_size move (func field) f IsEntry is.counted n i from
            each).1 in
      (
        array_field-IsKnown memory w (f from) effect (wire_type_of-lt (ltype field) is.kind) (
            decode_field_item p fuel func w iter (f from) effect memory (rw here is.repeated)
              (rw here is.static) (rw here single) (rw here reads)),
        item_chunks-AreChunks n (suc i) (add_address from field.data_size) (effect memory) others
            (tail_items field iter.p_data iter.p_size move (func field) f IsEntry is.counted n i
              from each)
            (omega arith)
            (stored_item-count field iter.p_data iter.p_size move IsEntry i from memory is.counted
              (omega arith)
              (head_item field iter.p_data iter.p_size move (func field) f IsEntry is.counted n i
                from each).0),
      )

  packed_chunk-IsKnown :
      (n i from : ℕ) (memory : Memory)
      → leb (ltype (field_at fields k)) Ltype.last_packable ≡ true
      → EntriesRead n i from
      → ((j : ℕ) → j < n → 0 < length (f (entry_address (field_at fields k).data_size from j)))
      → IsU32 (length (entries_bytes f (field_at fields k).data_size n from))
      → i + n ≤ (field_at fields k).array_size
      → load_size memory (walk fields dest k).p_size ≡ i
      → AreChunks p fuel func fields dest memory (packed_chunk fields dest k f move n i from ∷ [])
  packed_chunk-IsKnown n i from memory numbers each some word room count =
      let field = field_at fields k in
      let iter = walk fields dest k in
      let bs = entries_bytes f field.data_size n from in
      let effect = stored_packed field iter.p_data iter.p_size move n i from in
      let here = current-walk fields dest 0 d k is.inside in
      let low : ltype field ≤ 4 = ground arith in
      let reads =
        decode_packed_array-ReadsAt field iter.p_data iter.p_size move (func field) f IsEntry
          is.counted n i from memory some each room count word in
      (
        array_field-IsKnown memory WireType.string (varint (length bs) ++ bs) effect (omega arith) (
            decode_field_packed p fuel func WireType.string iter (varint (length bs) ++ bs) effect
              memory (rw here is.repeated) (rw here is.static) (rw here low) refl (rw here reads)),
        tt,
      )

  -- Where the structure has room for `n` more entries behind the `i` that it holds, the array is
  -- read whole.
  pub array_chunks-AreChunks :
      (n i from : ℕ) (memory : Memory)
      → EntriesRead n i from
      → ((j : ℕ)
          → ltype (field_at fields k) ≤ 4
          → 0 < length (f (entry_address (field_at fields k).data_size from j)))
      → IsU32 (length (entries_bytes f (field_at fields k).data_size n from))
      → i + n ≤ (field_at fields k).array_size
      → load_size memory (walk fields dest k).p_size ≡ i
      → AreChunks p fuel func fields dest memory (array_chunks fields dest k f move n i from)
  unfolding array_chunks
  array_chunks-AreChunks n i from memory each some word room count = elim (Bool-cases (n == 0)) [
    | inl e ↦ rw e tt
    | inr more ↦ rw more (elim (Bool-cases (leb (ltype (field_at fields k)) Ltype.last_packable)) [
      | inl numbers ↦ rw numbers (
          packed_chunk-IsKnown n i from memory numbers each (λ j less. some j (ground arith)) word
            room count)
      | inr others ↦ rw others (item_chunks-AreChunks n i from memory others each room count)
    ])
  ]
