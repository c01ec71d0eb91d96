-- ===== src/Nanopb/Decoder/Examples.antt =====
-- The message decoder on the bytes of a message with a number and a submessage.
use fantasy_iq.Base.{ℕ, ◌+◌, true, List, [], ◌∷◌, ◌==◌, if◌then◌else◌, ◌≡◌, refl}
use fantasy_iq.Nanopb.Field.{Field}
use fantasy_iq.Nanopb.Input.{pb_read, pb_readbyte, read_bytes}
use fantasy_iq.Nanopb.Input.Buffer.{buf_read, pb_istream_from_buffer}
use fantasy_iq.Nanopb.Iterator.{
  pb_field_iter_begin, pb_field_iter_next, pb_field_iter_find, find_rounds,
}
use fantasy_iq.Nanopb.Wire.{little_endian}
use fantasy_iq.Nanopb.Machine.{load}
use fantasy_iq.Nanopb.Decode.{
  pb_decode_varint, varint_rounds, pb_decode_varint32_eof, varint32_rounds, add_byte32,
  pb_decode_varint32, pb_decode_tag, pb_make_string_substream, pb_close_string_substream,
  pb_decode_fixed32, or_bytes32,
}
use fantasy_iq.Nanopb.Decoder.Store.{Store, Platform, done, write_byte, write_bytes, clear}
use fantasy_iq.Nanopb.Decoder.Values.{decoder, pb_dec_uvarint, pb_dec_submessage, pb_dec_fixed32}
use fantasy_iq.Nanopb.Decoder.Reset.{
  pb_message_set_to_defaults, pb_field_set_to_default, each_message, each_field,
}
use fantasy_iq.Nanopb.Decoder.Static.{decode_static_field}
use fantasy_iq.Nanopb.Decoder.Fields.{decode_field, iter_behind}
use fantasy_iq.Nanopb.Decoder.Required.{
  mark_seen, all_seen, whole_words, seek_end, required_field_count,
}
use fantasy_iq.Nanopb.Decoder.Message.{
  message_rounds, decode_tagged, known_field, fixed_count, decode_fields, decode_with,
  pb_decode_noinit, pb_decode,
}

-- A required number of four bytes, a required submessage behind it, and its only field.
abbrev number : Field
number = record {
  tag = 1;
  type_code = 0x01;
  data_offset = 0;
  size_offset = 0;
  data_size = 4;
  array_size = 0;
  ptr = 0;
}

abbrev inner : Field
inner = record {
  tag = 2;
  type_code = 0x07;
  data_offset = 0;
  size_offset = 0;
  data_size = 4;
  array_size = 0;
  ptr = 2;
}

abbrev word : Field
word = record {
  tag = 3;
  type_code = 0x03;
  data_offset = 0;
  size_offset = 0;
  data_size = 4;
  array_size = 0;
  ptr = 0;
}

-- Nothing is allocated here. The count slots lie behind the structure at 4096.
abbrev platform : Platform (Unit {0}) (List ℕ)
platform = record {
  descriptors = λ d. if d == 1 then number ∷ inner ∷ [] else if d == 2 then word ∷ [] else [];
  realloc = λ ptr size st. (0, st);
  free = λ ptr st. st;
  call_decode = λ funcs field arg. done;
  call_decode_scalar = λ funcs field arg. done;
  call_extension = λ function extension tag wire_type. done;
  count_slot = λ depth. 8192 + depth;
  undefined = done;
}

abbrev blank : Store (Unit {0})
blank = record { memory = λ p. 0xFF; heap = tt }

abbrev message : List ℕ
message = 8 ∷ 0x80 ∷ 0x82 ∷ 0x88 ∷ 0x18 ∷ 18 ∷ 5 ∷ 29 ∷ 4 ∷ 5 ∷ 6 ∷ 7 ∷ []

message_back :
    let r = pb_decode platform 2 1 4096 blank (pb_istream_from_buffer message 12) in
    (r.0 ≡ true)
    × (load r.1.0.memory 4 4096 ≡ 0x03020100)
    × (load r.1.0.memory 4 4100 ≡ 0x07060504)
    × (r.1.1.bytes_left ≡ 0)
unfolding pb_decode decode_with pb_decode_noinit decode_fields message_rounds decode_tagged
    known_field fixed_count decode_field decode_static_field decoder pb_dec_uvarint
    pb_dec_submessage pb_dec_fixed32 pb_decode_fixed32 or_bytes32 pb_decode_varint varint_rounds
    pb_decode_tag pb_decode_varint32_eof varint32_rounds add_byte32 pb_decode_varint32
    pb_make_string_substream pb_close_string_substream pb_read pb_readbyte read_bytes buf_read
    pb_istream_from_buffer pb_field_iter_begin pb_field_iter_next pb_field_iter_find find_rounds
    little_endian load write_byte write_bytes clear mark_seen all_seen whole_words seek_end
    required_field_count pb_message_set_to_defaults pb_field_set_to_default each_message each_field
    iter_behind
message_back = (refl, refl, refl, refl)
