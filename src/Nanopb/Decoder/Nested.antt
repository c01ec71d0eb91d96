-- ===== src/Nanopb/Decoder/Nested.antt =====
-- Messages with submessages as sequences of chunks, and what decoding them stores.
use fantasy_iq.Base.{
  ℕ, zero, suc, ◌+◌, ◌<◌, ◌≤◌, false, not, ◌||◌, List, [], ◌++◌, length, ◌==◌, if◌then◌else◌, ◌≡◌,
  ◌≢◌, ◌⊎◌, inl, inr, refl, arith, Bool-cases, append-nil, sym, ◌∙◌,
}
use fantasy_iq.Nanopb.Field.{Field, ltype, htype, atype}
use fantasy_iq.Nanopb.Field.Ltype
use fantasy_iq.Nanopb.Field.Htype
use fantasy_iq.Nanopb.Wire.{key, IsU32}
use fantasy_iq.Nanopb.Iterator.{field_at, add_signed}
use fantasy_iq.Nanopb.Iterator.Walk.{IsDescriptor, walk}
use fantasy_iq.Nanopb.Machine.{Machine, load}
use fantasy_iq.Nanopb.Encode.Scalars.{wire_type_of}
use fantasy_iq.Nanopb.Message.Encoding.{
  fields_bytes, field_bytes, stored_bytes, value_bytes, count_of, message_bytes,
}
use fantasy_iq.Nanopb.Decoder.Store.{Memory, Platform, write_integer}
use fantasy_iq.Nanopb.Decoder.Stored.{copied, IsHeld}
use fantasy_iq.Nanopb.Decoder.Chunks.{bytes_of, chunk_bytes, effect_of}
use fantasy_iq.Nanopb.Decoder.Extensions.{HasNoExtensions}
use fantasy_iq.Nanopb.Decoder.Sent.{IsSent, is_sent, entry_chunks, chunks_of}
use fantasy_iq.Nanopb.Arrays.Encoding.{array_bytes}
use fantasy_iq.Nanopb.Decoder.ArrayChunks.{array_chunks-bytes}
use fantasy_iq.Nanopb.Decoder.ChunkLists.{bytes_of-append}
use fantasy_iq.Nanopb.Decoder.Kinds.{no_extension}

module _ {H S : Type 0} (p : Platform H (List ℕ)) (m : Machine S) where
  -- What storing the message that is at `src` in the structure at `dest` does to memory:
  -- `fixed_count_size` is set to 0, and then every value that was sent is stored.
  unfoldable pub moved_message : ℕ → ℕ → ℕ → ℕ → Memory → Memory
  moved_message zero message src dest memory = memory
  moved_message (suc depth) message src dest memory =
      let fields = p.descriptors message in
      let move : Field → ℕ → ℕ → Memory → Memory = λ field from to.
        if ltype field == Ltype.submessage
        then moved_message depth field.ptr from to
        else copied m.memory field from to in
      effect_of (chunks_of m (message_bytes m depth) move fields src dest (length fields) 0)
        (write_integer memory 4 (p.count_slot (suc depth)) 0)

  -- The value of a field, where a submessage is nested at most `depth` deep.
  abbrev pub moved_value : ℕ → Field → ℕ → ℕ → Memory → Memory
  moved_value depth field from to =
      if ltype field == Ltype.submessage
      then moved_message depth field.ptr from to
      else copied m.memory field from to

  -- A scalar inside the structure, or a submessage that can be sent.
  abbrev pub IsNested : (ℕ → ℕ → ℕ → Type 0) → (ℕ → ℕ → List ℕ) → Field → ℕ → ℕ → Type 0
  IsNested IsSub sub field from to =
      ((ltype field ≢ 7) × IsHeld m field from)
      ⊎ (ltype field ≡ 7)
        × (field.ptr ≢ 0)
        × IsU32 (length (sub field.ptr from))
        × IsSub field.ptr from to

  -- A message of such fields, nested at most `depth` deep.
  abbrev pub IsTransferable : ℕ → ℕ → ℕ → ℕ → Type 0
  IsTransferable zero message src dest = ⊥
  IsTransferable (suc depth) message src dest =
      IsDescriptor (p.descriptors message)
      × HasNoExtensions (p.descriptors message)
      × (0 < length (p.descriptors message))
      × ((j : ℕ)
          → j < length (p.descriptors message)
          → IsSent m (message_bytes m depth)
              (IsNested (IsTransferable depth) (message_bytes m depth)) (p.descriptors message) src
              dest j)

-- The bytes of one field that is no array.
one_bytes :
    {S : Type 0} (m : Machine S) (fuel : ℕ) (sub : ℕ → ℕ → List ℕ) (field : Field) (p_data : ℕ)
    → atype field ≡ 0x00
    → (ltype field == 8) ≡ false
    → (htype field ≡ 0x00) ⊎ (htype field ≡ 0x10) × (field.size_offset ≢ 0)
    → field_bytes m fuel sub field p_data ≡ (
        if htype field == Htype.required
          || not (load m.memory 1 (add_signed p_data field.size_offset) == 0)
        then key (wire_type_of (ltype field)) field.tag ++ value_bytes m sub field p_data
        else [])
unfolding field_bytes stored_bytes
one_bytes m fuel sub field p_data static plain rule = ground arith

-- The bytes of an array.
array_field_bytes :
    {S : Type 0} (m : Machine S) (fuel : ℕ) (sub : ℕ → ℕ → List ℕ) (field : Field) (p_data : ℕ)
    → atype field ≡ 0x00
    → (ltype field == 8) ≡ false
    → htype field ≡ 0x20
    → field_bytes m fuel sub field p_data
      ≡ array_bytes m field (value_bytes m sub field) p_data (count_of m field p_data)
unfolding field_bytes stored_bytes
array_field_bytes m fuel sub field p_data static plain array = rw (static, plain, array) refl

module _ {S : Type 0} (m : Machine S) (sub : ℕ → ℕ → List ℕ)
    (move : Field → ℕ → ℕ → Memory → Memory) (fields : List Field) (src dest : ℕ) where
  entry_bytes :
      (IsCarried : Field → ℕ → ℕ → Type 0) (fuel k : ℕ)
      → IsSent m sub IsCarried fields src dest k
      → field_bytes m fuel sub (field_at fields k) (walk fields src k).p_data
        ≡ bytes_of fields (entry_chunks m sub move fields src dest k)
  unfolding bytes_of chunk_bytes entry_chunks
  entry_bytes IsCarried fuel k is =
      let field = field_at fields k in
      let from = (walk fields src k).p_data in
      let plain = no_extension (ltype field) is.kind in
      elim (Bool-cases (htype field == Htype.repeated)) [
        | inl e ↦
            let array : htype field ≡ 0x20 = ground arith in
            rw e (
              array_field_bytes m fuel sub field from is.static plain array
              ∙ array_chunks-bytes fields dest k (value_bytes m sub field) (move field) m
                  (count_of m field from) 0 from is.static)
        | inr e ↦
            let rule : (htype field ≡ 0x00) ⊎ (htype field ≡ 0x10) × (field.size_offset ≢ 0) =
              ground (arith, is.rule) in
            let one = one_bytes m fuel sub field from is.static plain rule in
            rw e (elim (Bool-cases (is_sent m sub move fields src dest k)) [
              | inl written ↦ rw (one, written) (sym (append-nil _))
              | inr away ↦ rw (one, away) refl
            ])
      ]

  pub fields_bytes-chunks_of :
      (IsCarried : Field → ℕ → ℕ → Type 0) (fuel n k : ℕ)
      → n + k ≤ length fields
      → ((j : ℕ) → j < length fields → IsSent m sub IsCarried fields src dest j)
      → fields_bytes m (field_bytes m fuel sub) fields src n k
        ≡ bytes_of fields (chunks_of m sub move fields src dest n k)
  unfolding fields_bytes bytes_of chunks_of
  fields_bytes-chunks_of IsCarried fuel zero k h each = refl
  fields_bytes-chunks_of IsCarried fuel (suc n) k h each =
      rw
        (
          entry_bytes IsCarried fuel k (each k (omega arith)),
          fields_bytes-chunks_of IsCarried fuel n (suc k) (omega arith) each,
        )
        (sym (
          bytes_of-append fields (entry_chunks m sub move fields src dest k)
            (chunks_of m sub move fields src dest n (suc k))))
