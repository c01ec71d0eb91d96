-- ===== src/Nanopb/FieldEncoders.antt =====
-- The pb_enc_ functions of nanopb/pb_encode.c, and pb_encode_submessage.
pub mod Submessage
pub mod Values
use fantasy_iq.Base.{
  ℕ, zero, suc, ◌+◌, ◌-◌, ◌%◌, Bool, true, false, ◌&&◌, Option, none, some, [], ltb, ◌==◌,
  if◌then◌else◌,
}
use fantasy_iq.Nanopb.Error.{
  stream_full, submsg_size_changed, invalid_data_size, bytes_size_exceeded,
  invalid_field_descriptor,
}
use fantasy_iq.Nanopb.Field.{Field, ltype, atype}
use fantasy_iq.Nanopb.Field.Ltype
use fantasy_iq.Nanopb.Field.Atype
use fantasy_iq.Nanopb.Iterator.{add_address}
use fantasy_iq.Nanopb.Output.{OStream, Encode, size_mod, ◌>>◌, fail, pb_write, sizing}
use fantasy_iq.Nanopb.Encode.{
  pb_encode_varint, pb_encode_svarint, pb_encode_fixed32, pb_encode_fixed64, pb_encode_string,
}
use fantasy_iq.Nanopb.Machine.{Machine, load, load_bytes, load_size, sign_extended}

-- `while (size < max_size && *p != '\0') { size++; p++; }`
unfoldable pub string_size : (ℕ → ℕ) → ℕ → ℕ → ℕ
string_size memory zero p = 0
string_size memory (suc left) p = elim (memory p % 256 == 0) [
  | true ↦ 0
  | false ↦ suc (string_size memory left (add_address p 1))
]

module _ {S : Type 0} where
  -- What pb_encode_submessage does after the second pass.
  abbrev pub close_submessage : ℕ → OStream S → Bool × OStream S → Bool × OStream S
  close_submessage size s (status, substream) =
      let s' = record s {
        bytes_written = (s.bytes_written + substream.bytes_written) % size_mod;
        state = substream.state;
        errmsg = substream.errmsg;
      } in
      if substream.bytes_written == size then (status, s') else fail submsg_size_changed s'

  abbrev pub write_submessage : Encode S → ℕ → Encode S
  write_submessage encode size s = elim s.callback [
    | none ↦ pb_write [] size s
    | some write ↦
        if ltb s.max_size ((s.bytes_written + size) % size_mod)
        then fail stream_full s
        else close_submessage size s
            (encode (record s { max_size = size; bytes_written = 0; errmsg = none }))
  ]

  abbrev pub size_submessage : Encode S → OStream S → Bool × OStream S → Bool × OStream S
  size_submessage encode s (false, substream) = (false, record s { errmsg = substream.errmsg })
  size_submessage encode s (true, substream) =
      (pb_encode_varint substream.bytes_written >> write_submessage encode substream.bytes_written)
        s

  -- pb_encode_submessage, where `encode` is the pb_encode of the fields and the structure.
  unfoldable pub submessage : Encode S → Encode S
  submessage encode s = size_submessage encode s (encode (sizing s.state))

  -- The number in a C integer of the field's size.
  unfoldable pub signed_value : Machine S → Field → ℕ → Option ℕ
  signed_value m field src =
      if field.data_size == 1
      then some (sign_extended 8 (load m.memory 1 src))
      else if field.data_size == 2
      then some (sign_extended 16 (load m.memory 2 src))
      else if field.data_size == 4
      then some (sign_extended 32 (load m.memory 4 src))
      else if field.data_size == 8
      then some (load m.memory 8 src)
      else none

  unfoldable pub unsigned_value : Machine S → Field → ℕ → Option ℕ
  unsigned_value m field src =
      if field.data_size == 1
      then some (load m.memory 1 src)
      else if field.data_size == 2
      then some (load m.memory 2 src)
      else if field.data_size == 4
      then some (load m.memory 4 src)
      else if field.data_size == 8
      then some (load m.memory 8 src)
      else none

  -- `PB_RETURN_ERROR(stream, "invalid data_size")` without a value.
  abbrev pub encode_value : (ℕ → Encode S) → Option ℕ → Encode S
  encode_value f none = fail invalid_data_size
  encode_value f (some value) = f value

  unfoldable pub pb_enc_varint : Machine S → Field → ℕ → Encode S
  pb_enc_varint m field src = encode_value pb_encode_varint (signed_value m field src)

  unfoldable pub pb_enc_uvarint : Machine S → Field → ℕ → Encode S
  pb_enc_uvarint m field src = encode_value pb_encode_varint (unsigned_value m field src)

  unfoldable pub pb_enc_svarint : Machine S → Field → ℕ → Encode S
  pb_enc_svarint m field src = encode_value pb_encode_svarint (signed_value m field src)

  unfoldable pub pb_enc_fixed64 : Machine S → Field → ℕ → Encode S
  pb_enc_fixed64 m field src = pb_encode_fixed64 (load m.memory 8 src)

  unfoldable pub pb_enc_fixed32 : Machine S → Field → ℕ → Encode S
  pb_enc_fixed32 m field src = pb_encode_fixed32 (load m.memory 4 src)

  -- In pb_bytes_array_t the bytes stand behind the four of the size.
  unfoldable pub pb_enc_bytes : Machine S → Field → ℕ → Encode S
  pb_enc_bytes m field src =
      let size = load_size m.memory src in
      if src == 0
      then pb_encode_string [] 0
      else if atype field == Atype.static && ltb field.data_size (size + 4)
      then fail bytes_size_exceeded
      else pb_encode_string (load_bytes m.memory size (add_address src 4)) size

  unfoldable pub pb_enc_string : Machine S → Field → ℕ → Encode S
  pb_enc_string m field src =
      let max_size = if atype field == Atype.pointer then size_mod - 1 else field.data_size in
      let size = if src == 0 then 0 else string_size m.memory max_size src in
      pb_encode_string (load_bytes m.memory size src) size

  -- `encode` is pb_encode by the addresses of the descriptor and the structure.
  unfoldable pub pb_enc_submessage : (ℕ → ℕ → Encode S) → Field → ℕ → Encode S
  pb_enc_submessage encode field src =
      if field.ptr == 0 then fail invalid_field_descriptor else submessage (encode field.ptr src)

  unfoldable pub pb_enc_fixed_length_bytes : Machine S → Field → ℕ → Encode S
  pb_enc_fixed_length_bytes m field src =
      pb_encode_string (load_bytes m.memory field.data_size src) field.data_size

  -- PB_ENCODERS; a type code beyond the table, or the NULL for extensions, has no function.
  unfoldable pub encoder : Machine S → (ℕ → ℕ → Encode S) → Field → ℕ → Encode S
  encoder m encode field src =
      let t = ltype field in
      if t == Ltype.varint
      then pb_enc_varint m field src
      else if t == Ltype.uvarint
      then pb_enc_uvarint m field src
      else if t == Ltype.svarint
      then pb_enc_svarint m field src
      else if t == Ltype.fixed32
      then pb_enc_fixed32 m field src
      else if t == Ltype.fixed64
      then pb_enc_fixed64 m field src
      else if t == Ltype.bytes
      then pb_enc_bytes m field src
      else if t == Ltype.string
      then pb_enc_string m field src
      else if t == Ltype.submessage
      then pb_enc_submessage encode field src
      else if t == Ltype.fixed_length_bytes
      then pb_enc_fixed_length_bytes m field src
      else m.undefined
