-- ===== src/Nanopb/Decoder/SentSeen.antt =====
-- The required fields that pb_decode_noinit of nanopb/pb_decode.c finds in what pb_encode of
-- nanopb/pb_encode.c writes.
use fantasy_iq.Base.{
  Bool, Bool-cases, List, ap, arith, false, if◌then◌else◌, inl, inr, leb, length, ltb, min, refl,
  suc, zero, ℕ, ◌&&◌, ◌+◌, ◌==◌, ◌∙◌, ◌≡◌,
}
use fantasy_iq.Nanopb.Field.{Field, htype, ltype}
use fantasy_iq.Nanopb.Field.Ltype
use fantasy_iq.Nanopb.Field.Htype
use fantasy_iq.Nanopb.Iterator.{add_address, field_at}
use fantasy_iq.Nanopb.Iterator.Walk.{required_before, walk}
use fantasy_iq.Nanopb.Machine.{Machine}
use fantasy_iq.Nanopb.Encode.Scalars.{wire_type_of}
use fantasy_iq.Nanopb.Message.Encoding.{count_of, value_bytes}
use fantasy_iq.Nanopb.Decoder.Store.{Memory}
use fantasy_iq.Nanopb.Decoder.Chunks.{chunk_seen, known, seen_of}
use fantasy_iq.Nanopb.Decoder.Seen.{AllBelow, marked}
use fantasy_iq.Nanopb.Decoder.ChunkBounds.{checked}
use fantasy_iq.Nanopb.Decoder.Complete.{nothing_seen}
use fantasy_iq.Nanopb.Decoder.Sent.{chunks_of, entry_chunks, is_sent}
use fantasy_iq.Nanopb.Decoder.ArrayChunks.{array_chunks, item_chunks}
use fantasy_iq.Nanopb.Decoder.ChunkLists.{seen_of-append}
use fantasy_iq.Nanopb.Decoder.Items.{stored_item}

-- An array is no required field.
module _ (fields : List Field) (dest k : ℕ) (f : ℕ → List ℕ) (move : ℕ → ℕ → Memory → Memory)
    (repeated : htype (field_at fields k) ≡ 0x20) where
  array_chunk_seen :
      (w : ℕ) (payload : List ℕ) (effect : Memory → Memory) (seen : ℕ → Bool)
      → chunk_seen fields (known k w payload effect) seen ≡ seen
  unfolding chunk_seen
  array_chunk_seen w payload effect seen = rw repeated refl

  item_chunks-seen :
      (n i from : ℕ) (seen : ℕ → Bool)
      → seen_of fields (item_chunks fields dest k f move n i from) seen ≡ seen
  unfolding item_chunks seen_of
  item_chunks-seen zero i from seen = refl
  item_chunks-seen (suc n) i from seen =
      let field = field_at fields k in
      let iter = walk fields dest k in
      ap
        (seen_of fields
          (item_chunks fields dest k f move n (suc i) (add_address from field.data_size)))
        (array_chunk_seen (wire_type_of (ltype field)) (f from)
          (stored_item field iter.p_data iter.p_size move i from) seen)
      ∙ item_chunks-seen n (suc i) (add_address from field.data_size) seen

  pub array_chunks-seen :
      (n i from : ℕ) (seen : ℕ → Bool)
      → seen_of fields (array_chunks fields dest k f move n i from) seen ≡ seen
  unfolding array_chunks seen_of chunk_seen
  array_chunks-seen n i from seen = elim (Bool-cases (n == 0)) [
    | inl e ↦ rw e refl
    | inr more ↦ rw more (elim (Bool-cases (leb (ltype (field_at fields k)) Ltype.last_packable)) [
      | inl numbers ↦ rw (numbers, repeated) refl
      | inr others ↦ rw others (item_chunks-seen n i from seen)
    ])
  ]

module _ {S : Type 0} (m : Machine S) (sub : ℕ → ℕ → List ℕ)
    (move : Field → ℕ → ℕ → Memory → Memory) (fields : List Field) (src dest : ℕ) where
  -- The numbers of the required entries before entry `k + 1` are in the set.
  marks :
      (k : ℕ) (f : ℕ → Bool)
      → AllBelow (min 64 (required_before fields k)) f
      → AllBelow (min 64 (required_before fields (suc k))) (
          if htype (field_at fields k) == Htype.required && ltb (required_before fields k) 64
          then marked (required_before fields k) f
          else f)
  unfolding required_before
  marks k f all i lo = elim (Bool-cases (htype (field_at fields k) == Htype.required)) [
    | inl r ↦ elim (Bool-cases (ltb i (min 64 (required_before fields k)))) [
      | inl below ↦ let before = all i (ground arith) in ground arith
      | inr here ↦ ground arith
    ]
    | inr o ↦ let before = all i (ground arith) in rw o before
  ]

  entry_seen :
      (k : ℕ) (f : ℕ → Bool)
      → seen_of fields (entry_chunks m sub move fields src dest k) f ≡ (
          if htype (field_at fields k) == Htype.required && ltb (required_before fields k) 64
          then marked (required_before fields k) f
          else f)
  unfolding seen_of chunk_seen entry_chunks
  entry_seen k f =
      let field = field_at fields k in
      let from = (walk fields src k).p_data in
      elim (Bool-cases (htype field == Htype.repeated)) [
        | inl e ↦
            let array : htype field ≡ 0x20 = ground arith in
            rw array (
              array_chunks-seen fields dest k (value_bytes m sub field) (move field) array
                (count_of m field from) 0 from f)
        | inr e ↦ rw e (elim (Bool-cases (is_sent m sub move fields src dest k)) [
          | inl written ↦ rw written refl
          | inr away ↦
              let other : (htype field == Htype.required) ≡ false = ground arith in
              rw (away, other) refl
        ])
      ]

  -- Every required entry is among the chunks.
  pub seen_of-chunks_of :
      (n k : ℕ) (f : ℕ → Bool)
      → AllBelow (min 64 (required_before fields k)) f
      → AllBelow
          (min 64 (required_before fields (k + n)))
          (seen_of fields (chunks_of m sub move fields src dest n k) f)
  unfolding seen_of chunks_of
  seen_of-chunks_of zero k f all = let z : k + 0 ≡ k = omega arith in rw z all
  seen_of-chunks_of (suc n) k f all =
      let z : k + suc n ≡ suc k + n = omega arith in
      let f' : ℕ → Bool =
        if htype (field_at fields k) == Htype.required && ltb (required_before fields k) 64
        then marked (required_before fields k) f
        else f in
      rw
        (
          z,
          seen_of-append fields (entry_chunks m sub move fields src dest k)
              (chunks_of m sub move fields src dest n (suc k)) f,
          entry_seen k f,
        )
        (seen_of-chunks_of n (suc k) f' (marks k f all))

pub all_sent :
    {S : Type 0} (m : Machine S) (sub : ℕ → ℕ → List ℕ) (move : Field → ℕ → ℕ → Memory → Memory)
    (fields : List Field) (src dest : ℕ)
    → AllBelow
        (checked fields)
        (seen_of fields (chunks_of m sub move fields src dest (length fields) 0) nothing_seen)
unfolding required_before
all_sent m sub move fields src dest =
    let z : 0 + length fields ≡ length fields = omega arith in
    rw z at (
      seen_of-chunks_of m sub move fields src dest (length fields) 0 nothing_seen
        (λ i lo. absurd (omega arith)))
