-- ===== src/Nanopb/Examples.antt =====
-- The functions of pb_encode.c and pb_decode.c at concrete inputs.
use fantasy_iq.Base.{
  ℕ, ◌-◌, ◌*◌, ◌%◌, ◌^◌, true, false, none, some, List, [], ◌∷◌, ◌++◌, length, replicate, ◌≡◌, refl,
  arith,
}
use fantasy_iq.Nanopb.Error.{set_error, varint_overflow, end_of_stream}
use fantasy_iq.Nanopb.Field.{Field}
use fantasy_iq.Nanopb.Wire.{varint, value}
use fantasy_iq.Nanopb.Wire.WireType
use fantasy_iq.Nanopb.Output.Emits.{Emits}
use fantasy_iq.Nanopb.Output.Buffer.{memory_sink, pb_ostream_from_buffer}
use fantasy_iq.Nanopb.Input.Buffer.{source, Takes, pb_istream_from_buffer}
use fantasy_iq.Nanopb.Encode.{pb_encode_varint, pb_encode_svarint}
use fantasy_iq.Nanopb.Encode.Varint.{pb_encode_varint-Emits}
use fantasy_iq.Nanopb.Decode.{
  pb_decode_varint, pb_decode_svarint, pb_decode_varint32_eof, pb_decode_varint32, pb_skip_field,
}
use fantasy_iq.Nanopb.Decode.Varint.{pb_decode_varint-value}
use fantasy_iq.Nanopb.Decode.Overflow.{pb_decode_varint_overflow, pb_decode_varint_truncated}
use fantasy_iq.Nanopb.Decode.Varint32.{pb_decode_varint32_eof-value}
use fantasy_iq.Nanopb.Decode.Wraps.{pb_decode_varint32_drops, pb_decode_varint32_wraps}
use fantasy_iq.Nanopb.Decode.Skip.{string_payload, pb_skip_field-Payload}
use fantasy_iq.Nanopb.Iterator.{pb_field_iter_find, pb_field_iter_next}
use fantasy_iq.Nanopb.Iterator.Walk.{IsDescriptor, IsAt, walk, walk-IsAt, next-walk}
use fantasy_iq.Nanopb.Iterator.Find.{FindsOrReturns, pb_field_iter_find-FindsOrReturns}
use fantasy_iq.Nanopb.RoundTrip.{
  pb_decode_varint-pb_encode_varint, pb_decode_svarint-pb_encode_svarint,
}

-- Twelve bytes of memory.
abbrev memory : List ℕ
memory = replicate 12 0xFF

pb_decode_varint-pb_encode_varint_example :
    let r = (pb_encode_varint 300 (pb_ostream_from_buffer memory 12)).1 in
    let back = pb_decode_varint (pb_istream_from_buffer r.state.memory r.bytes_written) in
    (back.0 ≡ some 300) × (back.1.bytes_left ≡ 0)
pb_decode_varint-pb_encode_varint_example =
    pb_decode_varint-pb_encode_varint 300 memory 12 (omega arith) (omega arith) (omega arith)
      (omega arith)

pb_decode_svarint-pb_encode_svarint_example :
    let r = (pb_encode_svarint (2 ^ 64 - 3) (pb_ostream_from_buffer memory 12)).1 in
    let back = pb_decode_svarint (pb_istream_from_buffer r.state.memory r.bytes_written) in
    (back.0 ≡ some (2 ^ 64 - 3)) × (back.1.bytes_left ≡ 0)
pb_decode_svarint-pb_encode_svarint_example =
    pb_decode_svarint-pb_encode_svarint (2 ^ 64 - 3) memory 12 (omega arith) (omega arith)
      (omega arith) (omega arith)

pb_encode_varint-Emits_example : Emits memory_sink (pb_encode_varint 300) (varint 300)
pb_encode_varint-Emits_example = pb_encode_varint-Emits memory_sink 300 (omega arith)

-- A required string, and an optional extension placeholder behind it.
abbrev text_field : Field
text_field = record {
  tag = 17;
  type_code = 0x06;
  data_offset = 0;
  size_offset = 0;
  data_size = 40;
  array_size = 0;
  ptr = 0;
}

abbrev placeholder : Field
placeholder = record {
  tag = 100;
  type_code = 0x58;
  data_offset = 0;
  size_offset = 0;
  data_size = 8;
  array_size = 0;
  ptr = 0;
}

abbrev descriptor : List Field
descriptor = text_field ∷ placeholder ∷ []

descriptor-IsDescriptor : IsDescriptor descriptor
descriptor-IsDescriptor = ground arith

-- The number 1 with a needless second byte.
pb_decode_varint-value_example :
    Takes pb_decode_varint (0x81 ∷ 0 ∷ []) (value (0x81 ∷ 0 ∷ []) % 2 ^ 64)
pb_decode_varint-value_example = pb_decode_varint-value (0x81 ∷ 0 ∷ []) (ground arith) (omega arith)

pb_decode_varint_overflow_example :
    pb_decode_varint (source (replicate 10 0x80 ++ (7 ∷ [])) 11 none)
    ≡ (none, source (7 ∷ []) 1 (set_error none varint_overflow))
pb_decode_varint_overflow_example =
    pb_decode_varint_overflow (replicate 10 0x80) (7 ∷ []) 11 1 none (ground arith) refl refl

pb_decode_varint_truncated_example :
    pb_decode_varint (source ((0x80 ∷ 0x81 ∷ []) ++ []) 2 none)
    ≡ (none, source [] 0 (set_error none end_of_stream))
pb_decode_varint_truncated_example =
    pb_decode_varint_truncated (0x80 ∷ 0x81 ∷ []) [] none (ground arith) (omega arith)

pb_decode_varint32_eof-value_example :
    pb_decode_varint32_eof true (source ((0xAC ∷ 0x02 ∷ []) ++ (5 ∷ [])) 3 none)
    ≡ (true, (some (value (0xAC ∷ 0x02 ∷ [])), source (5 ∷ []) 1 none))
unfolding value
pb_decode_varint32_eof-value_example =
    pb_decode_varint32_eof-value (0xAC ∷ 0x02 ∷ []) true (5 ∷ []) 3 1 none (ground arith)
      (omega arith) (omega arith) refl

pb_decode_varint32_drops_example :
    Takes pb_decode_varint32
      (0x81 ∷ 0x80 ∷ 0x80 ∷ 0x80 ∷ 0x90 ∷ 0 ∷ [])
      (value (0x81 ∷ 0x80 ∷ 0x80 ∷ 0x80 ∷ 0x90 ∷ 0 ∷ []) % 2 ^ 32)
pb_decode_varint32_drops_example =
    pb_decode_varint32_drops 0x81 0x80 0x80 0x80 0x90 (omega arith) (omega arith) (omega arith)
      (omega arith) (omega arith)

pb_decode_varint32_wraps_example : Takes pb_decode_varint32 (replicate 37 0x80 ++ (5 ∷ [])) (5 * 8)
pb_decode_varint32_wraps_example = pb_decode_varint32_wraps 5 (omega arith)

abbrev two_bytes : List ℕ
two_bytes = b'a' ∷ b'b' ∷ []

pb_skip_field-Payload_example :
    Takes (pb_skip_field WireType.string) (varint (length two_bytes) ++ two_bytes) tt
pb_skip_field-Payload_example =
    pb_skip_field-Payload WireType.string (varint (length two_bytes) ++ two_bytes)
      (string_payload two_bytes refl (omega arith) refl)

pb_field_iter_find-FindsOrReturns_example :
    FindsOrReturns descriptor 4096 17 1 (pb_field_iter_find (walk descriptor 4096 1) 17)
pb_field_iter_find-FindsOrReturns_example =
    pb_field_iter_find-FindsOrReturns descriptor 4096 17 descriptor-IsDescriptor 1 (omega arith)

walk-IsAt_example : IsAt descriptor 4096 1 (walk descriptor 4096 1)
walk-IsAt_example = walk-IsAt descriptor 4096 1 descriptor-IsDescriptor (omega arith)

next-walk_example : pb_field_iter_next (walk descriptor 4096 1) ≡ (false, walk descriptor 4096 0)
next-walk_example = next-walk descriptor 4096 1 descriptor-IsDescriptor (omega arith)
