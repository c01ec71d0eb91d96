-- ===== src/Nanopb/Decoder/Values.antt =====
-- The pb_dec_ functions of nanopb/pb_decode.c, without the recursion into submessages.
use fantasy_iq.Base.{
  ℕ, ◌+◌, ◌*◌, ◌%◌, ◌^◌, Bool, true, false, not, ◌||◌, take, ltb, ◌==◌, if◌then◌else◌,
}
use fantasy_iq.Nanopb.Error.{
  Error, invalid_data_size, integer_too_large, bytes_overflow, size_too_large, string_overflow,
  invalid_field_descriptor, incorrect_fixed_length_bytes_size,
}
use fantasy_iq.Nanopb.Field.{Field, ltype, htype, atype, pb_size_max}
use fantasy_iq.Nanopb.Field.Ltype
use fantasy_iq.Nanopb.Field.Htype
use fantasy_iq.Nanopb.Field.Atype
use fantasy_iq.Nanopb.Iterator.{add_address}
use fantasy_iq.Nanopb.Input.{IStream, pb_read}
use fantasy_iq.Nanopb.Decode.{
  pb_decode_varint, pb_decode_varint32, pb_decode_svarint, pb_decode_fixed32, pb_decode_fixed64,
  pb_make_string_substream, pb_close_string_substream,
}
use fantasy_iq.Nanopb.Machine.{load_pointer, sign_extended}
use fantasy_iq.Nanopb.Decoder.Store.{
  Decode, Outcome, Platform, write_bytes, write_integer, write_byte, clear, put, done, fail,
  continue, with_memory, ◌>>◌, ◌>>=◌,
}
use fantasy_iq.Nanopb.Decoder.Allocate.{allocate_field}

-- The low `n` bytes of a 64-bit pattern, and whether they are its number: `signed` says as which.
abbrev pub clamped : Bool → ℕ → ℕ → ℕ
clamped true n v = sign_extended (8 * n) (v % 256 ^ n)
clamped false n v = v % 256 ^ n

-- `sizeof` one of the four C integer types.
abbrev pub is_width : ℕ → Bool
is_width n = n == 8 || n == 4 || n == 2 || n == 1

module _ {H S : Type 0} where
  -- The number is stored also where it does not fit.
  abbrev pub store_integer : Bool → Field → ℕ → ℕ → Decode H S
  store_integer signed field dest value =
      let n = field.data_size in
      let check = if clamped signed n value == value then done else fail integer_too_large in
      if is_width n
      then put (λ m. write_integer m n dest (value % 256 ^ n)) >> check
      else fail invalid_data_size

  -- `svalue`: below 64 bits the value is cast to int32_t first.
  unfoldable pub pb_dec_varint : Field → ℕ → Decode H S
  pb_dec_varint field dest = pb_decode_varint >>= λ value.
      store_integer true field dest
        (if field.data_size == 8 then value else sign_extended 32 (value % 2 ^ 32))

  unfoldable pub pb_dec_uvarint : Field → ℕ → Decode H S
  pb_dec_uvarint field dest = pb_decode_varint >>= store_integer false field dest

  unfoldable pub pb_dec_svarint : Field → ℕ → Decode H S
  pb_dec_svarint field dest = pb_decode_svarint >>= store_integer true field dest

  unfoldable pub pb_dec_fixed32 : Field → ℕ → Decode H S
  pb_dec_fixed32 field dest = pb_decode_fixed32 >>= λ v. put (λ m. write_integer m 4 dest v)

  unfoldable pub pb_dec_fixed64 : Field → ℕ → Decode H S
  pb_dec_fixed64 field dest = pb_decode_fixed64 >>= λ v. put (λ m. write_integer m 8 dest v)

  -- `pb_read(stream, dest, count)`
  unfoldable pub read_into : ℕ → ℕ → Decode H S
  read_into dest count = pb_read false count >>= λ bs. put (λ m. write_bytes m dest (take count bs))

  -- pb_bytes_array_t: the size, and the bytes behind its four.
  unfoldable pub read_array : ℕ → ℕ → Decode H S
  read_array bdest size =
      put (λ m. write_integer m 4 bdest size) >> read_into (add_address bdest 4) size

  -- The terminating 0 is written whether the reading succeeds or not.
  abbrev pub terminated : ℕ → Outcome H S → Outcome H S
  terminated p (status, (st, s)) = (status, (with_memory st (write_byte st.memory p 0), s))

  unfoldable pub read_string : ℕ → ℕ → Decode H S
  read_string dest size st s = terminated (add_address dest size) (read_into dest size st s)

  unfoldable pub pb_dec_fixed_length_bytes : Field → ℕ → Decode H S
  pb_dec_fixed_length_bytes field dest = pb_decode_varint32 >>= λ size.
      if ltb pb_size_max size
      then fail bytes_overflow
      else if size == 0
      then put (λ m. clear m dest field.data_size)
      else if not (size == field.data_size)
      then fail incorrect_fixed_length_bytes_size
      else read_into dest field.data_size

  -- Both decoders of submessages take the descriptor's address and that of the structure.
  abbrev pub close_after : IStream S → Outcome H S → Outcome H S
  close_after s (status, (st, substream)) =
      continue st (pb_close_string_substream substream s) (λ closed st' s'. (status, (st', s')))

  unfoldable pub pb_dec_submessage :
      (ℕ → ℕ → Decode H S) → (ℕ → ℕ → Decode H S) → Field → ℕ → Decode H S
  pb_dec_submessage decode noinit field dest = pb_make_string_substream >>= λ substream.
      if field.ptr == 0 then fail invalid_field_descriptor else λ st s. close_after s (
        if htype field == Htype.repeated
        then decode field.ptr dest st substream
        else noinit field.ptr dest st substream)

module _ {H S : Type 0} (p : Platform H S) where
  -- In the pointer case `dest` is the address of the pointer.
  abbrev pub placed : Field → ℕ → ℕ → Error → (ℕ → Decode H S) → Decode H S
  placed field dest alloc_size overflow read =
      if atype field == Atype.pointer
      then allocate_field p dest alloc_size 1 >> (λ st. read (load_pointer st.memory dest) st)
      else if ltb field.data_size alloc_size
      then fail overflow
      else read dest

  -- A uint32_t size and 4 fit a size_t, so that "size too large" cannot come.
  unfoldable pub pb_dec_bytes : Field → ℕ → Decode H S
  pb_dec_bytes field dest = pb_decode_varint32 >>= λ size.
      let alloc_size = (size + 4) % 2 ^ 64 in
      if ltb pb_size_max size
      then fail bytes_overflow
      else if ltb alloc_size size
      then fail size_too_large
      else placed field dest alloc_size bytes_overflow (λ bdest. read_array bdest size)

  -- `size + 1` is a uint32_t.
  unfoldable pub pb_dec_string : Field → ℕ → Decode H S
  pb_dec_string field dest = pb_decode_varint32 >>= λ size.
      let alloc_size = (size + 1) % 2 ^ 32 in
      if ltb alloc_size size
      then fail size_too_large
      else placed field dest alloc_size string_overflow (λ d. read_string d size)

  -- PB_DECODERS; there is no function for extensions, nor beyond the table.
  unfoldable pub decoder : (ℕ → ℕ → Decode H S) → (ℕ → ℕ → Decode H S) → Field → ℕ → Decode H S
  decoder decode noinit field dest =
      let t = ltype field in
      if t == Ltype.varint
      then pb_dec_varint field dest
      else if t == Ltype.uvarint
      then pb_dec_uvarint field dest
      else if t == Ltype.svarint
      then pb_dec_svarint field dest
      else if t == Ltype.fixed32
      then pb_dec_fixed32 field dest
      else if t == Ltype.fixed64
      then pb_dec_fixed64 field dest
      else if t == Ltype.bytes
      then pb_dec_bytes field dest
      else if t == Ltype.string
      then pb_dec_string field dest
      else if t == Ltype.submessage
      then pb_dec_submessage decode noinit field dest
      else if t == Ltype.fixed_length_bytes
      then pb_dec_fixed_length_bytes field dest
      else p.undefined
