-- ===== src/Nanopb/Message/Fields.antt =====
-- The field encoders on fields that can be encoded.
use fantasy_iq.Base.{
  ℕ, zero, suc, ◌≤◌, Bool, true, false, List, [], ◌++◌, length, ◌==◌, if◌then◌else◌, ◌≡◌, ◌≢◌,
  arith, Bool-cases, inl, inr, refl,
}
use fantasy_iq.Nanopb.Field.{Field, ltype, htype, atype}
use fantasy_iq.Nanopb.Field.Ltype
use fantasy_iq.Nanopb.Field.Htype
use fantasy_iq.Nanopb.Wire.{varint, IsU32}
use fantasy_iq.Nanopb.Output.{OStream, Encode, ◌>>◌, succeed}
use fantasy_iq.Nanopb.Output.Emits.{Sink, Emits, Emits-append, Emits-nil}
use fantasy_iq.Nanopb.Encode.{pb_encode_tag_for_field}
use fantasy_iq.Nanopb.Encode.Scalars.{wire_type_of, pb_encode_tag_for_field-Emits}
use fantasy_iq.Nanopb.Machine.{Machine, load_pointer, load_size, callback_funcs}
use fantasy_iq.Nanopb.FieldEncoders.{encoder, pb_enc_submessage}
use fantasy_iq.Nanopb.FieldEncoders.Submessage.{submessage-Emits, Emits-ext}
use fantasy_iq.Nanopb.FieldEncoders.Values.{encoder-scalar_bytes}
use fantasy_iq.Nanopb.Iterator.{add_signed}
use fantasy_iq.Nanopb.Arrays.{encode_array}
use fantasy_iq.Nanopb.Arrays.Encoding.{keyed, encode_array-array_bytes}
use fantasy_iq.Nanopb.Message.{
  encode_basic_field, encode_callback_field, encode_field, encode_extensions,
  encode_extension_field, encode_one,
}
use fantasy_iq.Nanopb.Message.Encoding.{
  value_bytes, target_of, is_present, count_of, stored_bytes, field_bytes, IsValue, IsStored,
  IsField, stored, no_callback, no_extension,
}

kinds : (t : ℕ) → wire_type_of t ≢ 8 → (t ≤ 9) × (t ≢ 8)
unfolding wire_type_of
kinds t h = ground arith

module _ {S : Type 0} (k : Sink S) (m : Machine S) (fuel : ℕ) (encode : ℕ → ℕ → Encode S)
    (sub : ℕ → ℕ → List ℕ) (IsSub : ℕ → ℕ → Type 0)
    (submessages : (d src : ℕ) → IsSub d src → Emits k (encode d src) (sub d src))
    (field : Field) where
  message-Emits :
      (src : ℕ)
      → ltype field ≡ 7
      → IsValue m IsSub sub field src
      → Emits k
          (encoder m encode field src)
          (varint (length (sub field.ptr src)) ++ sub field.ptr src)
  unfolding encoder pb_enc_submessage
  message-Emits src e v =
      let (there, small, ok) = v.message e in
      let pointer : (field.ptr == 0) ≡ false = ground arith in
      rw (e, pointer)
        (submessage-Emits k (encode field.ptr src) _ (submessages field.ptr src ok) small)

  value-Emits :
      (src : ℕ)
      → wire_type_of (ltype field) ≢ 8
      → IsValue m IsSub sub field src
      → Emits k (encoder m encode field src) (value_bytes m sub field src)
  unfolding value_bytes
  value-Emits src kind v = elim (Bool-cases (ltype field == Ltype.submessage)) [
    | inl e ↦ rw e (message-Emits src (ground arith) v)
    | inr other ↦
        let scalar : ltype field ≢ 7 = ground arith in
        let (small, extension) = kinds (ltype field) kind in
        rw other
          (encoder-scalar_bytes k m field src encode (v.scalar scalar) small scalar extension)
  ]

  one-Emits :
      (src : ℕ)
      → IsU32 field.tag
      → wire_type_of (ltype field) ≢ 8
      → IsValue m IsSub sub field src
      → Emits k
          (pb_encode_tag_for_field field >> encoder m encode field src)
          (keyed field (value_bytes m sub field src))
  one-Emits src tag kind v =
      Emits-append k (pb_encode_tag_for_field-Emits k field tag kind) (value-Emits src kind v)

  if-Emits :
      {f : Encode S} {bs : List ℕ} (b : Bool)
      → Emits k f bs
      → Emits k (if b then f else succeed) (if b then bs else [])
  if-Emits true p = p
  if-Emits false p = Emits-nil k

  abbrev one : ℕ → Encode S
  one p_data = pb_encode_tag_for_field field >> encoder m encode field (target_of m field p_data)

  -- encode_basic_field, one repetition rule at a time.
  basic-required :
      (p_data : ℕ)
      → htype field ≡ 0x00
      → target_of m field p_data ≢ 0
      → encode_basic_field m fuel encode field p_data ≡ one p_data
  unfolding encode_basic_field
  basic-required p_data e h = ground arith

  basic-optional :
      (p_data : ℕ)
      → htype field ≡ 0x10
      → encode_basic_field m fuel encode field p_data
        ≡ (if is_present m fuel field p_data then one p_data else succeed)
  unfolding encode_basic_field
  basic-optional p_data e = ground arith

  basic-repeated :
      (p_data : ℕ)
      → htype field ≡ 0x20
      → encode_basic_field m fuel encode field p_data
        ≡ encode_array m field
            (target_of m field p_data)
            (count_of m field p_data)
            (encoder m encode field)
  unfolding encode_basic_field
  basic-repeated p_data e = ground arith

  basic-oneof :
      (p_data : ℕ)
      → htype field ≢ 0x00
      → htype field ≢ 0x10
      → htype field ≢ 0x20
      → field.size_offset ≢ 0
      → encode_basic_field m fuel encode field p_data ≡ (
          if load_size m.memory (add_signed p_data field.size_offset) == field.tag
          then one p_data
          else succeed)
  unfolding encode_basic_field
  basic-oneof p_data h₀ h₁ h₂ there = ground arith

  stored-Emits :
      (p_data : ℕ)
      → IsStored m fuel IsSub sub field p_data
      → Emits k
          (encode_basic_field m fuel encode field p_data)
          (stored_bytes m fuel sub field p_data)
  unfolding stored_bytes
  stored-Emits p_data st =
      let target = target_of m field p_data in
      elim (Bool-cases (htype field == Htype.required)) [
        | inl e ↦
            let r : htype field ≡ 0x00 = ground arith in
            rw (basic-required p_data r (st.required r), e)
              (one-Emits target st.tag st.kind (st.value (omega arith)))
        | inr n₀ ↦ rw n₀ (elim (Bool-cases (htype field == Htype.optional)) [
          | inl e ↦
              let o : htype field ≡ 0x10 = ground arith in
              rw (basic-optional p_data o, e)
                (if-Emits (is_present m fuel field p_data)
                  (one-Emits target st.tag st.kind (st.value (omega arith))))
          | inr n₁ ↦ rw n₁ (elim (Bool-cases (htype field == Htype.repeated)) [
            | inl e ↦
                let a : htype field ≡ 0x20 = ground arith in
                rw (basic-repeated p_data a, e)
                  (encode_array-array_bytes k m field (encoder m encode field)
                    (value_bytes m sub field) target (count_of m field p_data) st.tag st.kind
                    (st.array a) (λ i less. value-Emits _ st.kind (st.entries a i less)))
            | inr n₂ ↦
                let h₀ : htype field ≢ 0x00 = ground arith in
                let h₁ : htype field ≢ 0x10 = ground arith in
                let h₂ : htype field ≢ 0x20 = ground arith in
                rw (basic-oneof p_data h₀ h₁ h₂ (st.oneof h₀ h₁ h₂), n₂)
                  (if-Emits (load_size m.memory (add_signed p_data field.size_offset) == field.tag)
                    (one-Emits target st.tag st.kind (st.value h₂)))
          ])
        ])
      ]

  stored_as_field :
      (p_data : ℕ)
      → IsStored m fuel IsSub sub field p_data
      → (encode_one m fuel encode field p_data ≡ encode_basic_field m fuel encode field p_data)
        × (field_bytes m fuel sub field p_data ≡ stored_bytes m fuel sub field p_data)
  unfolding encode_one encode_field field_bytes
  stored_as_field p_data st =
      let (small, extension) = kinds (ltype field) st.kind in ground (arith, st.allocation)

  callback_unset :
      (p_data : ℕ)
      → ltype field ≢ 8
      → atype field ≡ 0x40
      → callback_funcs m.memory p_data ≡ 0
      → ((s : OStream S) → encode_one m fuel encode field p_data s ≡ (true, s))
        × (field_bytes m fuel sub field p_data ≡ [])
  unfolding encode_one encode_field encode_callback_field field_bytes
  callback_unset p_data h a f = (λ s. ground arith, ground arith)

  extension_unset :
      (p_data : ℕ)
      → ltype field ≡ 8
      → load_pointer m.memory p_data ≡ 0
      → (encode_one m fuel encode field p_data ≡ encode_extensions m fuel fuel encode 0)
        × (field_bytes m fuel sub field p_data ≡ [])
  unfolding encode_one encode_extension_field field_bytes
  extension_unset p_data h p = (ground arith, ground arith)

  no_extensions : (links : ℕ) → encode_extensions m links fuel encode 0 ≡ succeed
  unfolding encode_extensions
  no_extensions zero = refl
  no_extensions (suc links) = refl

  -- What the loop of pb_encode does with one field that can be encoded.
  pub encode_one-Emits :
      (p_data : ℕ)
      → IsField m fuel IsSub sub field p_data
      → Emits k (encode_one m fuel encode field p_data) (field_bytes m fuel sub field p_data)
  encode_one-Emits p_data (stored st) =
      let (e, b) = stored_as_field p_data st in rw (e, b) (stored-Emits p_data st)
  encode_one-Emits p_data (no_callback h a f) =
      let (e, b) = callback_unset p_data h a f in rw b (Emits-ext k e (Emits-nil k))
  encode_one-Emits p_data (no_extension h p) =
      let (e, b) = extension_unset p_data h p in rw (e, b, no_extensions fuel) (Emits-nil k)
