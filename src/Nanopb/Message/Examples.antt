-- ===== src/Nanopb/Message/Examples.antt =====
-- The message encoder at a message with a number and a submessage.
use fantasy_iq.Base.{
  ℕ, zero, suc, ◌%◌, ◌<◌, some, [], ◌∷◌, ◌++◌, length, ◌==◌, if◌then◌else◌, ◌≡◌, refl, arith, inl,
  inr, true, false, replicate, drop,
}
use fantasy_iq.Nanopb.Field.{Field}
use fantasy_iq.Nanopb.Wire.{groups, varint, little_endian}
use fantasy_iq.Nanopb.Output.{succeed}
use fantasy_iq.Nanopb.Output.Emits.{Emits}
use fantasy_iq.Nanopb.Output.Buffer.{Buffer, memory_sink, pb_ostream_from_buffer}
use fantasy_iq.Nanopb.Iterator.{field_at, pb_field_iter_begin, pb_field_iter_next}
use fantasy_iq.Nanopb.Iterator.Walk.{walk}
use fantasy_iq.Nanopb.Encode.{pb_encode_fixed32}
use fantasy_iq.Nanopb.Encode.Scalars.{wire_type_of}
use fantasy_iq.Nanopb.Machine.{Machine, load}
use fantasy_iq.Nanopb.FieldEncoders.{encoder, submessage}
use fantasy_iq.Nanopb.FieldEncoders.Submessage.{submessage-Emits}
use fantasy_iq.Nanopb.FieldEncoders.Values.{IsSized, scalar_bytes, encoder-scalar_bytes}
use fantasy_iq.Nanopb.Message.{pb_encode, pb_encode_delimited, pb_get_encoded_size}
use fantasy_iq.Nanopb.Arrays.{encode_array}
use fantasy_iq.Nanopb.Arrays.Packed.{entries_bytes}
use fantasy_iq.Nanopb.Arrays.Encoding.{array_bytes, IsArray, encode_array-array_bytes}
use fantasy_iq.Nanopb.Message.Encoding.{
  IsField, IsMessage, stored, message_bytes, field_bytes, fields_bytes, stored_bytes, value_bytes,
}
use fantasy_iq.Nanopb.Error.{stream_full}
use fantasy_iq.Nanopb.Message.Buffers.{pb_encode-pb_ostream_from_buffer, pb_encode_overflow}
use fantasy_iq.Nanopb.Message.Emits.{
  pb_encode-message_bytes, pb_encode_delimited-message_bytes, pb_get_encoded_size-message_bytes,
}
use fantasy_iq.Nanopb.Encode.Scalars.{pb_encode_fixed32-Emits}

-- A required number of four bytes, a required submessage behind it, and its only field.
abbrev number : Field
number = record {
  tag = 1;
  type_code = 0x01;
  data_offset = 0;
  size_offset = 0;
  data_size = 4;
  array_size = 0;
  ptr = 0;
}

abbrev inner : Field
inner = record {
  tag = 2;
  type_code = 0x07;
  data_offset = 0;
  size_offset = 0;
  data_size = 4;
  array_size = 0;
  ptr = 2;
}

abbrev word : Field
word = record {
  tag = 3;
  type_code = 0x03;
  data_offset = 0;
  size_offset = 0;
  data_size = 4;
  array_size = 0;
  ptr = 0;
}

-- Descriptors at the addresses 1 and 2, and memory that holds the low byte of each address.
abbrev machine : Machine Buffer
machine = record {
  memory = λ p. p % 256;
  descriptors = λ d. if d == 1 then number ∷ inner ∷ [] else if d == 2 then word ∷ [] else [];
  call_encode = λ funcs field arg. succeed;
  call_extension = λ function extension. succeed;
  undefined = succeed;
}

number-IsSized : IsSized machine number 4096
number-IsSized = record {
  width = λ h. inr (inr (inl refl));
  word = omega arith;
  array = λ h a n. absurd (omega arith);
}

word-IsSized : IsSized machine word 4100
word-IsSized = record {
  width = λ h. inr (inr (inl refl));
  word = omega arith;
  array = λ h a n. absurd (omega arith);
}

-- The submessage at address 4100.
inner_fields :
    (i : ℕ)
    → i < 1
    → IsField machine 1
        (IsMessage machine 0)
        (message_bytes machine 0)
        (field_at (machine.descriptors 2) i)
        (walk (machine.descriptors 2) 4100 i).p_data
unfolding walk pb_field_iter_begin wire_type_of
inner_fields zero h = stored (record {
  tag = omega arith;
  kind = omega arith;
  allocation = inl refl;
  settled = λ e o a more. absurd (omega arith);
  required = λ e. omega arith;
  oneof = λ h₀ h₁ h₂. absurd (h₀ refl);
  value = λ e. record { scalar = λ n. word-IsSized; message = λ n. absurd (omega arith) };
  array = λ e. absurd (omega arith);
  entries = λ e. absurd (omega arith);
})
inner_fields (suc i) h = absurd (omega arith)

inner-IsMessage : IsMessage machine 1 2 4100
inner-IsMessage = (ground arith, inner_fields)

-- A key of tag 3 with the wire type of four bytes, and the word in memory.
inner_bytes : message_bytes machine 1 2 4100 ≡ 29 ∷ 4 ∷ 5 ∷ 6 ∷ 7 ∷ []
unfolding message_bytes fields_bytes field_bytes stored_bytes value_bytes scalar_bytes walk
    pb_field_iter_begin wire_type_of little_endian load groups
inner_bytes = refl

outer_bytes :
    message_bytes machine 2 1 4096
    ≡ 8 ∷ 0x80 ∷ 0x82 ∷ 0x88 ∷ 0x18 ∷ 18 ∷ 5 ∷ 29 ∷ 4 ∷ 5 ∷ 6 ∷ 7 ∷ []
unfolding message_bytes fields_bytes field_bytes stored_bytes value_bytes scalar_bytes walk
    pb_field_iter_begin pb_field_iter_next wire_type_of little_endian load groups
outer_bytes = refl

outer_fields :
    (i : ℕ)
    → i < 2
    → IsField machine 2
        (IsMessage machine 1)
        (message_bytes machine 1)
        (field_at (machine.descriptors 1) i)
        (walk (machine.descriptors 1) 4096 i).p_data
unfolding walk pb_field_iter_begin pb_field_iter_next wire_type_of
outer_fields zero h = stored (record {
  tag = omega arith;
  kind = omega arith;
  allocation = inl refl;
  settled = λ e o a more. absurd (omega arith);
  required = λ e. omega arith;
  oneof = λ h₀ h₁ h₂. absurd (h₀ refl);
  value = λ e. record { scalar = λ n. number-IsSized; message = λ n. absurd (omega arith) };
  array = λ e. absurd (omega arith);
  entries = λ e. absurd (omega arith);
})
outer_fields (suc zero) h = stored (record {
  tag = omega arith;
  kind = omega arith;
  allocation = inl refl;
  settled = λ e o a more. absurd (omega arith);
  required = λ e. omega arith;
  oneof = λ h₀ h₁ h₂. absurd (h₀ refl);
  value = λ e. record {
    scalar = λ n. absurd (n refl);
    message = λ n. (omega arith, rw inner_bytes (omega arith), inner-IsMessage);
  };
  array = λ e. absurd (omega arith);
  entries = λ e. absurd (omega arith);
})
outer_fields (suc (suc i)) h = absurd (omega arith)

outer-IsMessage : IsMessage machine 2 1 4096
outer-IsMessage = (ground arith, outer_fields)

pb_encode-message_bytes_example :
    Emits memory_sink (pb_encode machine 2 1 4096) (message_bytes machine 2 1 4096)
pb_encode-message_bytes_example =
    pb_encode-message_bytes memory_sink machine 2 1 4096 outer-IsMessage

pb_encode_delimited-message_bytes_example :
    Emits memory_sink
      (pb_encode_delimited machine 2 1 4096)
      (varint (length (message_bytes machine 2 1 4096)) ++ message_bytes machine 2 1 4096)
pb_encode_delimited-message_bytes_example =
    pb_encode_delimited-message_bytes memory_sink machine 2 1 4096 outer-IsMessage
      (rw outer_bytes (omega arith))

pb_get_encoded_size-message_bytes_example :
    pb_get_encoded_size machine (record { memory = []; position = 0 }) 2 1 4096
    ≡ some (length (message_bytes machine 2 1 4096))
pb_get_encoded_size-message_bytes_example =
    pb_get_encoded_size-message_bytes memory_sink machine (record { memory = []; position = 0 }) 2 1
      4096 outer-IsMessage (rw outer_bytes (omega arith))

encoder-scalar_bytes_example :
    Emits memory_sink
      (encoder machine (pb_encode machine 1) number 4096)
      (scalar_bytes machine number 4096)
encoder-scalar_bytes_example =
    encoder-scalar_bytes memory_sink machine number 4096 (pb_encode machine 1) number-IsSized
      (omega arith) (omega arith) (omega arith)

submessage-Emits_example :
    Emits memory_sink
      (submessage (pb_encode_fixed32 7))
      (varint (length (little_endian 4 7)) ++ little_endian 4 7)
unfolding little_endian
submessage-Emits_example =
    submessage-Emits memory_sink (pb_encode_fixed32 7) (little_endian 4 7)
      (pb_encode_fixed32-Emits memory_sink 7) (omega arith)

-- A repeated number with room for two.
abbrev numbers : Field
numbers = record {
  tag = 4;
  type_code = 0x21;
  data_offset = 0;
  size_offset = 0;
  data_size = 4;
  array_size = 2;
  ptr = 0;
}

numbers-IsSized : (src : ℕ) → IsSized machine numbers src
numbers-IsSized src = record {
  width = λ h. inr (inr (inl refl));
  word = omega arith;
  array = λ h a n. absurd (omega arith);
}

numbers-IsArray : IsArray machine numbers (scalar_bytes machine numbers) 4096 2
unfolding entries_bytes scalar_bytes load groups
numbers-IsArray = record {
  inside = inr (omega arith);
  total = omega arith;
  four = λ e. absurd (omega arith);
  eight = λ e. absurd (omega arith);
}

encode_array-array_bytes_example :
    Emits memory_sink
      (encode_array machine numbers 4096 2 (encoder machine (pb_encode machine 1) numbers))
      (array_bytes machine numbers (scalar_bytes machine numbers) 4096 2)
unfolding wire_type_of
encode_array-array_bytes_example =
    encode_array-array_bytes memory_sink machine numbers
      (encoder machine (pb_encode machine 1) numbers) (scalar_bytes machine numbers) 4096 2
      (omega arith) (omega arith) numbers-IsArray
      (λ i less.
        encoder-scalar_bytes memory_sink machine numbers _ (pb_encode machine 1) (numbers-IsSized _)
          (omega arith) (omega arith) (omega arith))

pb_encode-pb_ostream_from_buffer_example :
    let bs = message_bytes machine 2 1 4096 in
    let r = pb_encode machine 2 1 4096 (pb_ostream_from_buffer (replicate 14 0) 13) in
    (r.0 ≡ true)
    × (r.1.state.memory ≡ bs ++ drop (length bs) (replicate 14 0))
    × (r.1.bytes_written ≡ length bs)
pb_encode-pb_ostream_from_buffer_example =
    pb_encode-pb_ostream_from_buffer machine 2 1 4096 (replicate 14 0) 13 outer-IsMessage
      (rw outer_bytes (omega arith)) (omega arith) (omega arith)

pb_encode_overflow_example :
    let r = pb_encode machine 2 1 4096 (pb_ostream_from_buffer (replicate 14 0) 11) in
    (r.0 ≡ false) × (r.1.errmsg ≡ some stream_full)
pb_encode_overflow_example =
    pb_encode_overflow machine 2 1 4096 (replicate 14 0) 11 outer-IsMessage
      (rw outer_bytes (omega arith)) (rw outer_bytes (omega arith))
