-- ===== src/Nanopb/Error.antt =====
-- The texts that PB_RETURN_ERROR puts into `stream->errmsg` (pb_encode.c, pb_decode.c).
use mathlib.Core.Option.{Option, none, some}

pub data Error : Type 0 where
  stream_full io_error : Error
  array_max_size_exceeded missing_required_field invalid_field_type callback_error : Error
  submsg_size_changed invalid_data_size bytes_size_exceeded invalid_field_descriptor : Error
  end_of_stream varint_overflow invalid_wire_type parent_stream_too_short : Error
  array_overflow bytes_overflow string_overflow size_too_large integer_too_large : Error
  incorrect_fixed_length_bytes_size invalid_size realloc_failed too_many_array_entries : Error
  callback_failed wrong_size_for_fixed_count_field invalid_union_tag iterator_error : Error

-- PB_SET_ERROR: the first message stays.
abbrev pub set_error : Option Error → Error → Option Error
set_error none e = some e
set_error (some old) e = some old
