-- ===== src/Nanopb/Decoder/SentChunks.antt =====
-- That pb_decode_noinit of nanopb/pb_decode.c can read what pb_encode of nanopb/pb_encode.c writes,
-- field by field.
use fantasy_iq.Base.{
  ℕ, zero, suc, ◌+◌, ◌<◌, ◌≤◌, List, length, ◌==◌, ◌≡◌, ◌≢◌, inl, inr, sym, arith, Bool-cases,
}
use mathlib.Core.Path.{subst}
use fantasy_iq.Nanopb.Field.{Field, ltype, htype}
use fantasy_iq.Nanopb.Iterator.{field_at, current}
use fantasy_iq.Nanopb.Iterator.Walk.{IsDescriptor, walk}
use fantasy_iq.Nanopb.Iterator.Find.{current-walk}
use fantasy_iq.Nanopb.Machine.{Machine}
use fantasy_iq.Nanopb.Encode.Scalars.{wire_type_of, wire_type_of-lt}
use fantasy_iq.Nanopb.Arrays.Packed.{entry_address}
use fantasy_iq.Nanopb.Message.Encoding.{value_bytes, count_of}
use fantasy_iq.Nanopb.Decoder.Store.{Memory, Decode, Platform, write_byte}
use fantasy_iq.Nanopb.Decoder.Fields.{decode_field}
use fantasy_iq.Nanopb.Decoder.Static.{item_address}
use fantasy_iq.Nanopb.Decoder.Copies.{Reads, ReadsAt}
use fantasy_iq.Nanopb.Decoder.Kinds.{no_extension, number-long}
use fantasy_iq.Nanopb.Decoder.Layout.{value_at, count_at, IsOpenField}
use fantasy_iq.Nanopb.Decoder.Chunks.{IsChunk, AreChunks, effect_of}
use fantasy_iq.Nanopb.Decoder.ChunkLists.{AreChunks-append}
use fantasy_iq.Nanopb.Decoder.Items.{IsCounted}
use fantasy_iq.Nanopb.Decoder.ArrayChunks.{array_chunks, IsArrayField, array_chunks-AreChunks}
use fantasy_iq.Nanopb.Decoder.SingleFields.{decode_field_required, decode_field_optional}
use fantasy_iq.Nanopb.Decoder.Sent.{
  IsSent, IsSentArray, is_sent, moved, sent, entry_chunks, chunks_of,
}

-- What sending values of a message rests on: `IsSub` says which memory a submessage can be read
-- into, and `IsEntry` which values can stand in an array.
pub record IsSendable {H S : Type 0} (m : Machine S) (sub : ℕ → ℕ → List ℕ)
    (move : Field → ℕ → ℕ → Memory → Memory) (IsCarried : Field → ℕ → ℕ → Type 0)
    (IsEntry : Field → ℕ → Type 0) (IsSub : ℕ → ℕ → Memory → Type 0) (fields : List Field)
    (src dest : ℕ) (func : Field → ℕ → Decode H (List ℕ)) : Type 0 where
  pub reads :
      (k : ℕ) (memory : Memory)
      → k < length fields
      → htype (field_at fields k) ≢ 0x20
      → IsCarried (field_at fields k) (walk fields src k).p_data (walk fields dest k).p_data
      → (ltype (field_at fields k) ≡ 7
          → IsSub (field_at fields k).ptr (walk fields dest k).p_data memory)
      → ReadsAt memory
          (func (field_at fields k) (walk fields dest k).p_data)
          (value_bytes m sub (field_at fields k) (walk fields src k).p_data)
          (move (field_at fields k) (walk fields src k).p_data (walk fields dest k).p_data)
  pub items :
      (field : Field) (from to : ℕ)
      → IsCarried field from to
      → ltype field ≢ 7
      → Reads (func field to) (value_bytes m sub field from) (move field from to)
  pub fit :
      (field : Field) (from to : ℕ) → IsCarried field from to → ltype field ≢ 7 → IsEntry field from
  pub counted :
      (k : ℕ)
      → k < length fields
      → htype (field_at fields k) ≡ 0x20
      → IsSentArray m sub IsCarried fields src dest k
      → IsCounted
          (field_at fields k)
          (value_at fields dest k)
          (count_at fields dest k)
          (move (field_at fields k))
          (IsEntry (field_at fields k))
  -- A field leaves the others as they are, and a has_ flag its field.
  pub keeps :
      (k j : ℕ) (memory : Memory)
      → k < length fields
      → j < length fields
      → j ≢ k
      → IsOpenField IsSub fields dest j memory
      → IsOpenField IsSub fields dest j
          (effect_of (entry_chunks m sub move fields src dest k) memory)
  pub flagged :
      (k : ℕ) (memory : Memory)
      → k < length fields
      → htype (field_at fields k) ≡ 0x10
      → count_at fields dest k ≢ value_at fields dest k
      → ltype (field_at fields k) ≡ 7
      → IsSub (field_at fields k).ptr (value_at fields dest k) memory
      → IsSub
          (field_at fields k).ptr
          (value_at fields dest k)
          (write_byte memory (count_at fields dest k) 1)

module _ {H S : Type 0} (m : Machine S) (sub : ℕ → ℕ → List ℕ)
    (move : Field → ℕ → ℕ → Memory → Memory) (IsCarried : Field → ℕ → ℕ → Type 0)
    (IsEntry : Field → ℕ → Type 0) (IsSub : ℕ → ℕ → Memory → Type 0) (fields : List Field)
    (src dest : ℕ) (p : Platform H (List ℕ)) (fuel : ℕ) (func : Field → ℕ → Decode H (List ℕ))
    (d : IsDescriptor fields)
    (can : IsSendable m sub move IsCarried IsEntry IsSub fields src dest func) where
  single-ReadsAt :
      (k : ℕ) (memory : Memory)
      → k < length fields
      → htype (field_at fields k) ≢ 0x20
      → IsSent m sub IsCarried fields src dest k
      → IsOpenField IsSub fields dest k memory
      → ReadsAt memory
          (decode_field p fuel func (wire_type_of (ltype (field_at fields k))) (walk fields dest k))
          (value_bytes m sub (field_at fields k) (walk fields src k).p_data)
          (moved m sub move fields src dest k)
  single-ReadsAt k memory h single is before =
      let field = field_at fields k in
      let iter = walk fields dest k in
      let w = wire_type_of (ltype field) in
      let from = (walk fields src k).p_data in
      let bs = value_bytes m sub field from in
      let effect = move field from iter.p_data in
      let here = current-walk fields dest 0 d k h in
      let value : (memory' : Memory)
          → (ltype field ≡ 7 → IsSub field.ptr iter.p_data memory')
          → ReadsAt memory' (func (current iter) iter.p_data) bs effect =
        λ memory' ready.
          subst (λ g. ReadsAt memory' (func g iter.p_data) bs effect) (sym here)
            (can.reads k memory' h single (is.carried single) ready) in
      elim is.rule [
        | inl required ↦ λ st rest a b e at size. rw required (
            decode_field_required p fuel func w iter bs effect memory (rw here required)
              (rw here is.static) (value memory (λ e. before.1 e single)) st rest a b e at size)
        | inr (inl (optional, off, apart)) ↦ λ st rest a b e at size. rw optional (
            decode_field_optional p fuel func w iter bs effect memory (rw here optional) apart
              (rw here is.static)
              (value (write_byte memory iter.p_size 1)
                (λ e. can.flagged k memory h optional apart e (before.1 e single)))
              st rest a b e at size)
        | inr (inr array) ↦ absurd (single array)
      ]

  single-IsChunk :
      (k : ℕ) (memory : Memory)
      → k < length fields
      → htype (field_at fields k) ≢ 0x20
      → IsSent m sub IsCarried fields src dest k
      → IsOpenField IsSub fields dest k memory
      → IsChunk p fuel func fields dest memory (sent m sub move fields src dest k)
  single-IsChunk k memory h single is before = record {
    inside = h;
    wire = wire_type_of-lt (ltype (field_at fields k)) is.kind;
    tag = is.tag;
    wanted = ground (arith, no_extension (ltype (field_at fields k)) is.kind);
    only = is.only;
    counted = ground (arith, single);
    reads = single-ReadsAt k memory h single is before;
  }

  sent-IsArrayField :
      (k : ℕ)
      → k < length fields
      → htype (field_at fields k) ≡ 0x20
      → IsSent m sub IsCarried fields src dest k
      → IsArrayField fields dest k
          (value_bytes m sub (field_at fields k))
          (move (field_at fields k))
          (IsEntry (field_at fields k))
  sent-IsArrayField k h array is = record {
    inside = h;
    tag = is.tag;
    only = is.only;
    static = is.static;
    repeated = array;
    kind = is.kind;
    apart = (is.array array).apart;
    counted = can.counted k h array (is.array array);
  }

  array-AreChunks :
      (k : ℕ) (memory : Memory)
      → k < length fields
      → htype (field_at fields k) ≡ 0x20
      → IsSent m sub IsCarried fields src dest k
      → IsOpenField IsSub fields dest k memory
      → let field = field_at fields k in
        let from = (walk fields src k).p_data in
        AreChunks p fuel func fields dest memory (
          array_chunks fields dest k
            (value_bytes m sub field)
            (move field)
            (count_of m field from)
            0
            from)
  array-AreChunks k memory h array is before =
      let field = field_at fields k in
      let from = (walk fields src k).p_data in
      let to = (walk fields dest k).p_data in
      let f = value_bytes m sub field in
      let its = is.array array in
      let each : (i : ℕ)
          → i < count_of m field from
          → IsEntry field (entry_address field.data_size from i)
            × Reads (func field (item_address to field.data_size (0 + i)))
                (f (entry_address field.data_size from i))
                (move field (entry_address field.data_size from i)
                  (item_address to field.data_size (0 + i))) =
        λ i less.
          let q = entry_address field.data_size from i in
          let at = item_address to field.data_size i in
          let zero_plus : 0 + i ≡ i = omega arith in
          (
            can.fit field q at (its.entries i less) its.single,
            rw zero_plus (can.items field q at (its.entries i less) its.single),
          ) in
      array_chunks-AreChunks p fuel func fields dest k f (move field) (IsEntry field) d
        (sent-IsArrayField k h array is) (count_of m field from) 0 from memory each
        (λ j number. number-long m sub field (entry_address field.data_size from j) number) its.word
        (omega (arith, its.room)) (before.0 array)

  -- One field, and then all of them.
  entry-AreChunks :
      (k : ℕ) (memory : Memory)
      → k < length fields
      → IsSent m sub IsCarried fields src dest k
      → IsOpenField IsSub fields dest k memory
      → AreChunks p fuel func fields dest memory (entry_chunks m sub move fields src dest k)
  unfolding entry_chunks
  entry-AreChunks k memory h is before = elim (Bool-cases (htype (field_at fields k) == 0x20)) [
    | inl array ↦ rw array (array-AreChunks k memory h (ground arith) is before)
    | inr single ↦ rw single (elim (Bool-cases (is_sent m sub move fields src dest k)) [
      | inl written ↦ rw written (single-IsChunk k memory h (ground arith) is before, tt)
      | inr away ↦ rw away tt
    ])
  ]

  pub chunks_of-AreChunks :
      (n k : ℕ) (memory : Memory)
      → n + k ≤ length fields
      → ((j : ℕ) → j < length fields → IsSent m sub IsCarried fields src dest j)
      → ((j : ℕ) → k ≤ j → j < length fields → IsOpenField IsSub fields dest j memory)
      → AreChunks p fuel func fields dest memory (chunks_of m sub move fields src dest n k)
  unfolding chunks_of
  chunks_of-AreChunks zero k memory h is before = tt
  chunks_of-AreChunks (suc n) k memory h is before =
      let cs = entry_chunks m sub move fields src dest k in
      AreChunks-append p fuel func fields dest memory cs
        (chunks_of m sub move fields src dest n (suc k))
        (entry-AreChunks k memory (omega arith) (is k (omega arith))
          (before k (omega arith) (omega arith)))
        (chunks_of-AreChunks n (suc k) (effect_of cs memory) (omega arith) is (λ j lo hi.
          can.keeps k j memory (omega arith) hi (omega arith) (before j (omega arith) hi)))
