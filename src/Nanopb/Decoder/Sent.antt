-- ===== src/Nanopb/Decoder/Sent.antt =====
-- Messages of required, optional and repeated fields, as pb_encode writes and pb_decode reads them.
use fantasy_iq.Base.{
  ℕ, zero, suc, ◌^◌, ◌<◌, ◌≤◌, Bool, true, not, ◌||◌, List, [], ◌∷◌, ◌++◌, length, ◌==◌,
  if◌then◌else◌, ◌≡◌, ◌≢◌, ◌⊎◌,
}
use fantasy_iq.Nanopb.Field.{Field, ltype, htype}
use fantasy_iq.Nanopb.Field.Htype
use fantasy_iq.Nanopb.Iterator.{field_at, add_signed}
use fantasy_iq.Nanopb.Iterator.Walk.{walk}
use fantasy_iq.Nanopb.Iterator.Find.{wanted_at}
use fantasy_iq.Nanopb.Machine.{Machine, load}
use fantasy_iq.Nanopb.Encode.Scalars.{wire_type_of}
use fantasy_iq.Nanopb.Field.{atype}
use fantasy_iq.Nanopb.Message.Encoding.{value_bytes, count_of}
use fantasy_iq.Nanopb.Decoder.Store.{Memory, write_byte}
use fantasy_iq.Nanopb.Decoder.Chunks.{Chunk, known}
use fantasy_iq.Nanopb.Decoder.Static.{item_address}
use fantasy_iq.Nanopb.Decoder.ArrayChunks.{array_chunks}
use fantasy_iq.Nanopb.Arrays.Packed.{entry_address, entries_bytes}
use fantasy_iq.Nanopb.Wire.{IsU32}

-- `sub` gives the bytes of a submessage, and `move` says what storing a field's value does to
-- memory, by the addresses that it comes from and goes to.
module _ {S : Type 0} (m : Machine S) (sub : ℕ → ℕ → List ℕ)
    (move : Field → ℕ → ℕ → Memory → Memory) (fields : List Field) (src dest : ℕ) where
  -- The entry is written: it is required or its has_ flag is set.
  abbrev pub is_sent : ℕ → Bool
  is_sent k =
      let field = field_at fields k in
      htype field == Htype.required
      || not (load m.memory 1 (add_signed (walk fields src k).p_data field.size_offset) == 0)

  -- The value of entry `k` goes from the structure at `src` to that at `dest`.
  abbrev pub moved : ℕ → Memory → Memory
  moved k memory =
      let field = field_at fields k in
      let iter = walk fields dest k in
      let flagged =
        if htype field == Htype.required then memory else write_byte memory iter.p_size 1 in
      move field (walk fields src k).p_data iter.p_data flagged

  abbrev pub sent : ℕ → Chunk
  sent k =
      let field = field_at fields k in
      known k (wire_type_of (ltype field)) (value_bytes m sub field (walk fields src k).p_data)
        (moved k)

  -- What stands on the wire of entry `k`.
  unfoldable pub entry_chunks : ℕ → List Chunk
  entry_chunks k =
      let field = field_at fields k in
      let from = (walk fields src k).p_data in
      if htype field == Htype.repeated
      then array_chunks fields dest k (value_bytes m sub field) (move field) (count_of m field from)
          0 from
      else if is_sent k
      then sent k ∷ []
      else []

  -- The fields that are written of the `n` entries from `k` on.
  unfoldable pub chunks_of : ℕ → ℕ → List Chunk
  chunks_of zero k = []
  chunks_of (suc n) k = entry_chunks k ++ chunks_of n (suc k)

-- `IsCarried` says which values can be sent.
module _ {S : Type 0} (m : Machine S) (sub : ℕ → ℕ → List ℕ) (IsCarried : Field → ℕ → ℕ → Type 0)
    (fields : List Field) (src dest : ℕ) where
  -- An array that fits into its destination, with the count apart from the array. It is none of
  -- submessages.
  pub record IsSentArray (k : ℕ) : Type 0 where
    pub single : ltype (field_at fields k) ≢ 7
    pub apart : (walk fields dest k).p_size ≢ (walk fields dest k).p_data
    pub room :
        count_of m (field_at fields k) (walk fields src k).p_data ≤ (field_at fields k).array_size
    pub short : (field_at fields k).array_size < 2 ^ 32
    pub word : IsU32 (
        length (
          entries_bytes
            (value_bytes m sub (field_at fields k))
            (field_at fields k).data_size
            (count_of m (field_at fields k) (walk fields src k).p_data)
            (walk fields src k).p_data))
    pub entries :
        (i : ℕ)
        → i < count_of m (field_at fields k) (walk fields src k).p_data
        → IsCarried
            (field_at fields k)
            (entry_address (field_at fields k).data_size (walk fields src k).p_data i)
            (item_address (walk fields dest k).p_data (field_at fields k).data_size i)

  -- A required field, an optional one with a has_ flag or an array with a count, in the structure
  -- itself and with a tag of its own.
  pub record IsSent (k : ℕ) : Type 0 where
    pub tag : (field_at fields k).tag < 2 ^ 29
    pub only :
        (j : ℕ) → j < length fields → wanted_at fields (field_at fields k).tag j ≡ true → j ≡ k
    pub static : atype (field_at fields k) ≡ 0x00
    pub kind : wire_type_of (ltype (field_at fields k)) ≢ 8
    pub carried :
        htype (field_at fields k) ≢ 0x20
        → IsCarried (field_at fields k) (walk fields src k).p_data (walk fields dest k).p_data
    pub array : htype (field_at fields k) ≡ 0x20 → IsSentArray k
    pub rule :
        (htype (field_at fields k) ≡ 0x00)
        ⊎ (htype (field_at fields k) ≡ 0x10)
          × ((field_at fields k).size_offset ≢ 0)
          × ((walk fields dest k).p_size ≢ (walk fields dest k).p_data)
        ⊎ (htype (field_at fields k) ≡ 0x20)
