-- ===== src/Nanopb/Decoder/Static.antt =====
-- decode_static_field of nanopb/pb_decode.c.
use fantasy_iq.Base.{ℕ, zero, suc, ◌+◌, ◌*◌, ◌%◌, ◌^◌, not, ◌&&◌, ltb, leb, ◌==◌, if◌then◌else◌}
use fantasy_iq.Nanopb.Error.{array_overflow}
use fantasy_iq.Nanopb.Field.{Field, ltype, htype}
use fantasy_iq.Nanopb.Field.Ltype
use fantasy_iq.Nanopb.Field.Htype
use fantasy_iq.Nanopb.Wire.WireType
use fantasy_iq.Nanopb.Iterator.{Iter, current, add_address}
use fantasy_iq.Nanopb.Machine.{load_size}
use fantasy_iq.Nanopb.Input.{IStream}
use fantasy_iq.Nanopb.Decode.{pb_make_string_substream}
use fantasy_iq.Nanopb.Decoder.Store.{
  Decode, Outcome, Platform, write_byte, write_integer, clear, put, done, fail, ◌>>◌, ◌>>=◌,
}
use fantasy_iq.Nanopb.Decoder.Values.{close_after}
use fantasy_iq.Nanopb.Decoder.Reset.{pb_message_set_to_defaults}

-- `data_size * index` is a product of two pb_size_t, and wraps at 32 bits.
abbrev pub item_address : ℕ → ℕ → ℕ → ℕ
item_address p_data data_size index = add_address p_data (data_size * index % 2 ^ 32)

module _ {H S : Type 0} where
  -- `(*size)++` on a pb_size_t.
  abbrev pub bump_count : ℕ → Decode H S
  bump_count p_size = put (λ m. write_integer m 4 p_size ((load_size m p_size + 1) % 2 ^ 32))

  -- The loop over a packed array; its Boolean is `status`. Each entry takes a byte of the
  -- substream at least, so the bytes left are enough fuel.
  unfoldable pub packed_items : (ℕ → Decode H S) → Field → ℕ → ℕ → ℕ → Decode H S
  packed_items func field p_data p_size zero st substream = done st substream
  packed_items func field p_data p_size (suc fuel) st substream =
      let size = load_size st.memory p_size in
      let rest =
        func (item_address p_data field.data_size size)
        >> bump_count p_size
        >> packed_items func field p_data p_size fuel in
      if not (substream.bytes_left == 0) && ltb size field.array_size
      then rest st substream
      else done st substream

  -- Behind the loop.
  abbrev pub check_packed : IStream S → Outcome H S → Outcome H S
  check_packed s (status, (st, substream)) =
      if substream.bytes_left == 0
      then close_after s (status, (st, substream))
      else fail array_overflow st s

  unfoldable pub decode_packed_array : (ℕ → Decode H S) → Field → ℕ → ℕ → Decode H S
  decode_packed_array func field p_data p_size = pb_make_string_substream >>= λ substream st s.
      check_packed s (packed_items func field p_data p_size substream.bytes_left st substream)

  -- One entry; the count goes up also where there is no room.
  unfoldable pub decode_item : (ℕ → Decode H S) → Field → ℕ → ℕ → Decode H S
  decode_item func field p_data p_size st =
      let size = load_size st.memory p_size in
      let read =
        if ltb size field.array_size
        then func (item_address p_data field.data_size size)
        else fail array_overflow in
      (bump_count p_size >> read) st

module _ {H S : Type 0} (p : Platform H S) where
  -- `func` is the function of the field in PB_DECODERS.
  unfoldable pub decode_static_field : ℕ → (Field → ℕ → Decode H S) → ℕ → Iter → Decode H S
  decode_static_field fuel decoder wire_type iter =
      let field = current iter in
      let func = decoder field in
      let h = htype field in
      let packed = wire_type == WireType.string && leb (ltype field) Ltype.last_packable in
      let with_has = put (λ m. write_byte m iter.p_size 1) in
      let with_tag = put (λ m. write_integer m 4 iter.p_size field.tag) in
      let emptied = put (λ m.
        pb_message_set_to_defaults p.descriptors fuel field.ptr iter.p_data
          (clear m iter.p_data field.data_size)) in
      if h == Htype.required
      then func iter.p_data
      else if h == Htype.optional
      then (if iter.p_size == iter.p_data then func iter.p_data else with_has >> func iter.p_data)
      else if h == Htype.repeated
      then (if packed
          then decode_packed_array func field iter.p_data iter.p_size
          else decode_item func field iter.p_data iter.p_size)
      else if ltype field == Ltype.submessage
      then with_tag >> emptied >> func iter.p_data
      else with_tag >> func iter.p_data
