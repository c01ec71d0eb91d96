-- ===== src/Nanopb/Message/Encoding.antt =====
-- The bytes of a message by the wire format, and which messages have them.
use fantasy_iq.Base.{
  ℕ, zero, suc, ◌+◌, ◌<◌, Bool, not, List, [], ◌++◌, length, ◌==◌, if◌then◌else◌, ◌≡◌, ◌≢◌, ◌⊎◌,
}
use fantasy_iq.Nanopb.Field.{Field, ltype, htype, atype}
use fantasy_iq.Nanopb.Field.Ltype
use fantasy_iq.Nanopb.Field.Htype
use fantasy_iq.Nanopb.Field.Atype
use fantasy_iq.Nanopb.Wire.{varint, IsU64, IsU32}
use fantasy_iq.Nanopb.Iterator.{field_at, add_signed}
use fantasy_iq.Nanopb.Iterator.Walk.{IsDescriptor, walk}
use fantasy_iq.Nanopb.Encode.Scalars.{wire_type_of}
use fantasy_iq.Nanopb.Machine.{Machine, load, load_pointer, load_size, callback_funcs}
use fantasy_iq.Nanopb.FieldEncoders.Values.{scalar_bytes, IsSized}
use fantasy_iq.Nanopb.Defaults.{pb_check_proto3_default_value}
use fantasy_iq.Nanopb.Arrays.{entry_target}
use fantasy_iq.Nanopb.Arrays.Packed.{entry_address}
use fantasy_iq.Nanopb.Arrays.Encoding.{keyed, array_bytes, IsArray}

module _ {S : Type 0} (m : Machine S) where
  -- `sub` gives the bytes of a submessage: a value of that kind is their number and they.
  unfoldable pub value_bytes : (ℕ → ℕ → List ℕ) → Field → ℕ → List ℕ
  value_bytes sub field src =
      let bs = sub field.ptr src in
      if ltype field == Ltype.submessage then varint (length bs) ++ bs else scalar_bytes m field src

  -- Where the value of a field is.
  abbrev pub target_of : Field → ℕ → ℕ
  target_of field p_data =
      if atype field == Atype.pointer then load_pointer m.memory p_data else p_data

  -- An optional field is there by its has_ member if it has one, by its pointer if it is one, and
  -- if it is not zero otherwise.
  abbrev pub is_present : ℕ → Field → ℕ → Bool
  is_present fuel field p_data =
      if not (field.size_offset == 0)
      then not (load m.memory 1 (add_signed p_data field.size_offset) == 0)
      else if atype field == Atype.pointer
      then not (load_pointer m.memory p_data == 0)
      else not (pb_check_proto3_default_value m fuel field p_data)

  abbrev pub count_of : Field → ℕ → ℕ
  count_of field p_data =
      if not (field.size_offset == 0)
      then load_size m.memory (add_signed p_data field.size_offset)
      else field.array_size

  -- A field of static or pointer allocation.
  unfoldable pub stored_bytes : ℕ → (ℕ → ℕ → List ℕ) → Field → ℕ → List ℕ
  stored_bytes fuel sub field p_data =
      let one = keyed field (value_bytes sub field (target_of field p_data)) in
      if htype field == Htype.required
      then one
      else if htype field == Htype.optional
      then (if is_present fuel field p_data then one else [])
      else if htype field == Htype.repeated
      then array_bytes m field (value_bytes sub field) (target_of field p_data)
          (count_of field p_data)
      else if load_size m.memory (add_signed p_data field.size_offset) == field.tag
      then one
      else []

  -- Callbacks and extensions that are not set have no bytes.
  unfoldable pub field_bytes : ℕ → (ℕ → ℕ → List ℕ) → Field → ℕ → List ℕ
  field_bytes fuel sub field p_data =
      if ltype field == Ltype.extension
      then []
      else if atype field == Atype.callback
      then []
      else stored_bytes fuel sub field p_data

  -- `n` fields from entry `k` on, one behind the other.
  unfoldable pub fields_bytes : (Field → ℕ → List ℕ) → List Field → ℕ → ℕ → ℕ → List ℕ
  fields_bytes one fields src zero k = []
  fields_bytes one fields src (suc n) k =
      one (field_at fields k) (walk fields src k).p_data ++ fields_bytes one fields src n (suc k)

  unfoldable pub message_bytes : ℕ → ℕ → ℕ → List ℕ
  message_bytes zero fields src = []
  message_bytes (suc fuel) fields src =
      fields_bytes (field_bytes (suc fuel) (message_bytes fuel)) (m.descriptors fields) src
        (length (m.descriptors fields)) 0

  -- A value that can be encoded; `IsSub` says it of submessages.
  pub record IsValue (IsSub : ℕ → ℕ → Type 0) (sub : ℕ → ℕ → List ℕ) (field : Field) (src : ℕ)
      : Type 0 where
    pub scalar : ltype field ≢ 7 → IsSized m field src
    pub message :
        ltype field ≡ 7 → (field.ptr ≢ 0) × IsU64 (length (sub field.ptr src)) × IsSub field.ptr src

  -- A static or pointer field that can be encoded: its value, if it is there, or its array.
  pub record IsStored (fuel : ℕ) (IsSub : ℕ → ℕ → Type 0) (sub : ℕ → ℕ → List ℕ) (field : Field)
      (p_data : ℕ) : Type 0 where
    pub tag : IsU32 field.tag
    pub kind : wire_type_of (ltype field) ≢ 8
    pub allocation : (atype field ≡ 0x00) ⊎ (atype field ≡ 0x80)
    -- The fuel is enough to see whether a proto3 field has its default value.
    pub settled :
        htype field ≡ 0x10
        → field.size_offset ≡ 0
        → atype field ≡ 0x00
        → (more : ℕ)
        → pb_check_proto3_default_value m (fuel + more) field p_data
          ≡ pb_check_proto3_default_value m fuel field p_data
    pub required : htype field ≡ 0x00 → target_of field p_data ≢ 0
    pub oneof : htype field ≢ 0x00 → htype field ≢ 0x10 → htype field ≢ 0x20 → field.size_offset ≢ 0
    pub value : htype field ≢ 0x20 → IsValue IsSub sub field (target_of field p_data)
    pub array :
        htype field ≡ 0x20
        → IsArray m field (value_bytes sub field) (target_of field p_data) (count_of field p_data)
    pub entries :
        htype field ≡ 0x20
        → (i : ℕ) → i < count_of field p_data
        → IsValue IsSub sub field
            (entry_target m field (entry_address field.data_size (target_of field p_data) i))

  -- A field that can be encoded: one of those, or a callback or extensions that are not set.
  pub data IsField (fuel : ℕ) (IsSub : ℕ → ℕ → Type 0) (sub : ℕ → ℕ → List ℕ) (field : Field)
      (p_data : ℕ) : Type 0 where
    stored : IsStored fuel IsSub sub field p_data → IsField fuel IsSub sub field p_data
    no_callback :
        ltype field ≢ 8
        → atype field ≡ 0x40
        → callback_funcs m.memory p_data ≡ 0
        → IsField fuel IsSub sub field p_data
    no_extension :
        ltype field ≡ 8 → load_pointer m.memory p_data ≡ 0 → IsField fuel IsSub sub field p_data

  -- A message that can be encoded with this fuel: its descriptor is one, and all its fields can.
  abbrev pub IsMessage : ℕ → ℕ → ℕ → Type 0
  IsMessage zero fields src = ⊥
  IsMessage (suc fuel) fields src =
      IsDescriptor (m.descriptors fields)
      × ((i : ℕ)
          → i < length (m.descriptors fields)
          → IsField (suc fuel) (IsMessage fuel) (message_bytes fuel)
              (field_at (m.descriptors fields) i) (walk (m.descriptors fields) src i).p_data)
