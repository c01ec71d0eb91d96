-- ===== src/Nanopb/Message/Emits.antt =====
-- pb_encode, pb_encode_submessage, pb_encode_delimited, pb_encode_nullterminated and
-- pb_get_encoded_size on messages that can be encoded.
use fantasy_iq.Base.{
  ℕ, zero, suc, ◌+◌, ◌<◌, not, List, [], ◌∷◌, ◌++◌, length, ◌==◌, ◌≡◌, arith, Bool-cases, inl, inr,
  refl, ltb, ltb→ge, some, ap, ◌∙◌,
}
use fantasy_iq.Nanopb.Field.{Field}
use fantasy_iq.Nanopb.Wire.{varint, IsU64}
use fantasy_iq.Nanopb.Output.{Encode, sizing}
use fantasy_iq.Nanopb.Output.Emits.{Sink, Emits, Emits-append, Emits-nil, Emits-pb_write}
use fantasy_iq.Nanopb.Iterator.{field_at, current, pb_field_iter_begin}
use fantasy_iq.Nanopb.Iterator.Walk.{IsDescriptor, walk, walk-IsAt, next-walk}
use fantasy_iq.Nanopb.FieldEncoders.Submessage.{submessage-Emits}
use fantasy_iq.Nanopb.Machine.{Machine}
use fantasy_iq.Nanopb.Message.{
  encode_one, encode_fields, pb_encode, pb_encode_submessage, pb_encode_delimited,
  pb_encode_nullterminated, pb_get_encoded_size, size_of,
}
use fantasy_iq.Nanopb.Message.Encoding.{field_bytes, fields_bytes, message_bytes, IsMessage}
use fantasy_iq.Nanopb.Message.Fields.{encode_one-Emits}

begins :
    (fields : List Field) (src : ℕ)
    → IsDescriptor fields
    → (pb_field_iter_begin fields src).0 ≡ not (length fields == 0)
unfolding pb_field_iter_begin
begins [] src d = refl
begins (f ∷ fields) src d = ground (arith, d.0)

module _ {S : Type 0} (k : Sink S) (m : Machine S) where
  module _ (fields : List Field) (src : ℕ) (d : IsDescriptor fields) where
    current-walk : (i : ℕ) → i < length fields → current (walk fields src i) ≡ field_at fields i
    current-walk i h =
        let now = walk-IsAt fields src i d h in rw (now.same_start, now.same_pos) refl

    -- The loop from entry `i` on.
    encode_fields-Emits :
        (one : Field → ℕ → Encode S) (bytes : Field → ℕ → List ℕ) (n i : ℕ)
        → i + n ≡ length fields
        → ((j : ℕ)
            → j < length fields
            → Emits k
                (one (field_at fields j) (walk fields src j).p_data)
                (bytes (field_at fields j) (walk fields src j).p_data))
        → Emits k (encode_fields m one n (walk fields src i)) (fields_bytes m bytes fields src n i)
    unfolding encode_fields fields_bytes
    encode_fields-Emits one bytes zero i e h = Emits-nil k
    encode_fields-Emits one bytes (suc n) i e h =
        let inside : i < length fields = omega arith in
        rw (current-walk i inside, next-walk fields src i d inside)
          (Emits-append k (h i inside) (elim (Bool-cases (ltb (suc i) (length fields))) [
            | inl more ↦ rw more (encode_fields-Emits one bytes n (suc i) (omega arith) h)
            | inr last ↦
                let none_left : n ≡ 0 = omega (arith, ltb→ge _ _ last) in
                rw (last, none_left) (Emits-nil k)
          ]))

  -- `pb_encode` writes exactly the bytes that the wire format gives to a message that can be
  -- encoded: the fields in the order of the descriptor, each with its key, submessages with their
  -- length, arrays of numbers packed, and nothing for fields that are not set. It can be encoded
  -- (`IsMessage`) if the tags in its descriptor are 32-bit numbers other than 0, the kinds known
  -- ones, and the fields static or pointers, but for callbacks and extensions that are not set; if
  -- oneofs have a size_offset, no required value is at NULL, a static array's count is at most its
  -- array_size, and packed arrays have 64-bit lengths; if each value, also one that is not set or
  -- not chosen, has the size of a C type, a static byte array fits its field, and each submessage
  -- has a descriptor and a 64-bit length and can be encoded too; and if submessages are nested less
  -- deep than the fuel, which is also enough to see whether proto3 fields are zero.
  pub pb_encode-message_bytes :
      (fuel fields src : ℕ)
      → IsMessage m fuel fields src
      → Emits k (pb_encode m fuel fields src) (message_bytes m fuel fields src)
  unfolding pb_encode message_bytes walk
  pb_encode-message_bytes zero fields src ok = absurd ok
  pb_encode-message_bytes (suc fuel) fields src (d, each) =
      let entries = m.descriptors fields in
      rw (begins entries src d) (elim (Bool-cases (length entries == 0)) [
        | inl empty ↦
            let none_there : length entries ≡ 0 = ground arith in
            rw none_there (unfold fields_bytes in Emits-nil k)
        | inr there ↦ rw there (
            encode_fields-Emits entries src d (encode_one m (suc fuel) (pb_encode m fuel))
              (field_bytes m (suc fuel) (message_bytes m fuel)) (length entries) 0 (omega arith)
              (λ j inside.
                encode_one-Emits k m (suc fuel) (pb_encode m fuel) (message_bytes m fuel)
                  (IsMessage m fuel) (pb_encode-message_bytes fuel) (field_at entries j)
                  (walk entries src j).p_data (each j inside)))
      ])

  -- Of a message that can be encoded, and whose length is a 64-bit number, `pb_encode_delimited`
  -- writes the length and the message, as `pb_encode_submessage` does: both passes over it give the
  -- same size.
  pub pb_encode_delimited-message_bytes :
      (fuel fields src : ℕ)
      → IsMessage m fuel fields src
      → IsU64 (length (message_bytes m fuel fields src))
      → Emits k
          (pb_encode_delimited m fuel fields src)
          (varint (length (message_bytes m fuel fields src)) ++ message_bytes m fuel fields src)
  unfolding pb_encode_delimited pb_encode_submessage
  pb_encode_delimited-message_bytes fuel fields src ok small =
      submessage-Emits k (pb_encode m fuel fields src) (message_bytes m fuel fields src)
        (pb_encode-message_bytes fuel fields src ok) small

  -- Of a message that can be encoded `pb_encode_nullterminated` writes the bytes and a zero byte.
  pub pb_encode_nullterminated-message_bytes :
      (fuel fields src : ℕ)
      → IsMessage m fuel fields src
      → Emits k
          (pb_encode_nullterminated m fuel fields src)
          (message_bytes m fuel fields src ++ (0 ∷ []))
  unfolding pb_encode_nullterminated
  pb_encode_nullterminated-message_bytes fuel fields src ok =
      Emits-append k (pb_encode-message_bytes fuel fields src ok) (Emits-pb_write k (0 ∷ []) 1 refl)

  -- `pb_get_encoded_size` returns the number of bytes of a message that can be encoded, which
  -- `pb_encode` writes, if it is a 64-bit number.
  pub pb_get_encoded_size-message_bytes :
      (st : S) (fuel fields src : ℕ)
      → IsMessage m fuel fields src
      → IsU64 (length (message_bytes m fuel fields src))
      → pb_get_encoded_size m st fuel fields src ≡ some (length (message_bytes m fuel fields src))
  unfolding pb_get_encoded_size
  pb_get_encoded_size-message_bytes st fuel fields src ok small =
      let from_zero : 0 + length (message_bytes m fuel fields src)
          ≡ length (message_bytes m fuel fields src) =
        omega arith in
      ap (size_of m)
        ((pb_encode-message_bytes fuel fields src ok).counts (sizing st) (refl, omega arith, refl))
      ∙ ap some from_zero
