-- ===== src/Nanopb/Encode.antt =====
-- The encoding functions of nanopb/pb_encode.c that do not look at message structures.
pub mod Varint
pub mod Scalars
use fantasy_iq.Base.{
  ℕ, zero, suc, ◌+◌, ◌-◌, ◌*◌, ◌/◌, ◌%◌, ◌^◌, bit_and, bit_or, List, [], ◌∷◌, ◌++◌, length, get_or,
  set, ltb, leb, ◌==◌, if◌then◌else◌, Bool, ◌||◌,
}
use fantasy_iq.Nanopb.Error.{Error, invalid_field_type}
use fantasy_iq.Nanopb.Field.{Field, ltype}
use fantasy_iq.Nanopb.Field.Ltype
use fantasy_iq.Nanopb.Wire.WireType
use fantasy_iq.Nanopb.Output.{OStream, Encode, size_mod, ◌>>◌, and_then, fail, pb_write}

-- `while (value) { buffer[i] = (pb_byte_t)((value & 0x7F) | 0x80); value >>= 7; i++; }`
-- The fuel is the room of `pb_byte_t buffer[10]`, and `i` is the length of the list.
unfoldable pub varint_loop : ℕ → ℕ → List ℕ → List ℕ
varint_loop zero value buffer = buffer
varint_loop (suc room) value buffer =
    let rest =
      varint_loop room (value / 2 ^ 7) (buffer ++ (bit_or (bit_and value 0x7F) 0x80 % 256 ∷ [])) in
    if value == 0 then buffer else rest

-- `buffer[i-1] &= 0x7F`
unfoldable pub unset_last_top_bit : List ℕ → List ℕ
unset_last_top_bit buffer =
    set buffer (length buffer - 1) (bit_and (get_or buffer (length buffer - 1) 0) 0x7F)

module _ {S : Type 0} where
  unfoldable pub pb_encode_varint : ℕ → Encode S
  pb_encode_varint value =
      if leb value 0x7F
      then pb_write (value % 256 ∷ []) 1
      else let buffer = varint_loop 10 value [] in
        pb_write (unset_last_top_bit buffer) (length buffer)

  -- The int64_t is its bit pattern, so it is negative from 2 ^ 63 on, and `~x` is 2 ^ 64 - 1 - x.
  unfoldable pub pb_encode_svarint : ℕ → Encode S
  pb_encode_svarint value =
      pb_encode_varint
        (if leb (2 ^ 63) value then size_mod - 1 - value * 2 % size_mod else value * 2 % size_mod)

  unfoldable pub pb_encode_fixed32 : ℕ → Encode S
  pb_encode_fixed32 val =
      pb_write
        (bit_and val 0xFF % 256
          ∷ bit_and (val / 2 ^ 8) 0xFF % 256
          ∷ bit_and (val / 2 ^ 16) 0xFF % 256
          ∷ bit_and (val / 2 ^ 24) 0xFF % 256
          ∷ [])
        4

  unfoldable pub pb_encode_fixed64 : ℕ → Encode S
  pb_encode_fixed64 val =
      pb_write
        (bit_and val 0xFF % 256
          ∷ bit_and (val / 2 ^ 8) 0xFF % 256
          ∷ bit_and (val / 2 ^ 16) 0xFF % 256
          ∷ bit_and (val / 2 ^ 24) 0xFF % 256
          ∷ bit_and (val / 2 ^ 32) 0xFF % 256
          ∷ bit_and (val / 2 ^ 40) 0xFF % 256
          ∷ bit_and (val / 2 ^ 48) 0xFF % 256
          ∷ bit_and (val / 2 ^ 56) 0xFF % 256
          ∷ [])
        8

  -- `((pb_uint64_t)field_number << 3) | wiretype`
  unfoldable pub pb_encode_tag : ℕ → ℕ → Encode S
  pb_encode_tag wiretype field_number =
      pb_encode_varint (bit_or (field_number * 2 ^ 3 % size_mod) wiretype)

  unfoldable pub pb_encode_tag_for_field : Field → Encode S
  pb_encode_tag_for_field field =
      let t = ltype field in
      if t == Ltype.varint || t == Ltype.uvarint || t == Ltype.svarint
      then pb_encode_tag WireType.varint field.tag
      else if t == Ltype.fixed32
      then pb_encode_tag WireType.bits32 field.tag
      else if t == Ltype.fixed64
      then pb_encode_tag WireType.bits64 field.tag
      else if t == Ltype.bytes
          || t == Ltype.string
          || t == Ltype.submessage
          || t == Ltype.fixed_length_bytes
      then pb_encode_tag WireType.string field.tag
      else fail invalid_field_type

  unfoldable pub pb_encode_string : List ℕ → ℕ → Encode S
  pb_encode_string buffer size = pb_encode_varint size >> pb_write buffer size
