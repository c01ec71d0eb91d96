-- ===== src/Nanopb/Arrays.antt =====
-- encode_array of nanopb/pb_encode.c.
pub mod Packed
pub mod Encoding
use fantasy_iq.Base.{
  ℕ, zero, suc, ◌*◌, ◌%◌, Bool, true, false, not, ◌&&◌, ◌||◌, none, some, [], ltb, leb, ◌==◌,
  if◌then◌else◌,
}
use fantasy_iq.Nanopb.Error.{array_max_size_exceeded}
use fantasy_iq.Nanopb.Field.{Field, ltype, atype}
use fantasy_iq.Nanopb.Field.Ltype
use fantasy_iq.Nanopb.Field.Atype
use fantasy_iq.Nanopb.Wire.WireType
use fantasy_iq.Nanopb.Iterator.{add_address}
use fantasy_iq.Nanopb.Output.{OStream, Encode, size_mod, ◌>>◌, succeed, fail, pb_write, sizing}
use fantasy_iq.Nanopb.Encode.{pb_encode_varint, pb_encode_tag, pb_encode_tag_for_field}
use fantasy_iq.Nanopb.Machine.{Machine, load_pointer}

module _ {S : Type 0} where
  -- `for (i = 0; i < count; i++) { if (!func(stream, field, p)) return false; p += data_size; }`
  unfoldable pub encode_entries : (ℕ → Encode S) → ℕ → ℕ → ℕ → Encode S
  encode_entries func data_size zero p = succeed
  encode_entries func data_size (suc count) p =
      func p >> encode_entries func data_size count (add_address p data_size)

  -- The packed data behind its size.
  abbrev pub packed_data : Encode S → ℕ → Encode S
  packed_data entries size s = elim s.callback [
    | none ↦ pb_write [] size s
    | some write ↦ entries s
  ]

  abbrev pub size_packed : Encode S → OStream S → Bool × OStream S → Bool × OStream S
  size_packed entries s (false, sizestream) = (false, s)
  size_packed entries s (true, sizestream) =
      (pb_encode_varint sizestream.bytes_written >> packed_data entries sizestream.bytes_written) s

  -- The size of a packed array, and the entries.
  abbrev pub packed_array : Field → ℕ → Encode S → Encode S
  packed_array field count entries s =
      if ltype field == Ltype.fixed32
      then (pb_encode_varint (4 * count % size_mod) >> packed_data entries (4 * count % size_mod)) s
      else if ltype field == Ltype.fixed64
      then (pb_encode_varint (8 * count % size_mod) >> packed_data entries (8 * count % size_mod)) s
      else size_packed entries s (entries (sizing s.state))

module _ {S : Type 0} (m : Machine S) where
  -- The entries of pointer-type strings and bytes are pointers themselves.
  abbrev pub entry_target : Field → ℕ → ℕ
  entry_target field p =
      if atype field == Atype.pointer && (ltype field == Ltype.string || ltype field == Ltype.bytes)
      then load_pointer m.memory p
      else p

  abbrev pub entry : Field → (ℕ → Encode S) → ℕ → Encode S
  entry field func p = pb_encode_tag_for_field field >> func (entry_target field p)

  unfoldable pub encode_array : Field → ℕ → ℕ → (ℕ → Encode S) → Encode S
  encode_array field p_data count func =
      if count == 0
      then succeed
      else if not (atype field == Atype.pointer) && ltb field.array_size count
      then fail array_max_size_exceeded
      else if leb (ltype field) Ltype.last_packable
      then pb_encode_tag WireType.string field.tag
        >> packed_array field count (encode_entries func field.data_size count p_data)
      else encode_entries (entry field func) field.data_size count p_data
