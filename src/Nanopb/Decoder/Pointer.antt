-- ===== src/Nanopb/Decoder/Pointer.antt =====
-- decode_pointer_field and initialize_pointer_field of nanopb/pb_decode.c.
use fantasy_iq.Base.{
  ℕ, zero, suc, ◌+◌, ◌-◌, ◌/◌, ◌%◌, ◌^◌, Bool, true, false, not, ◌&&◌, ◌||◌, some, ltb, leb, ◌==◌,
  if◌then◌else◌,
}
use fantasy_iq.Nanopb.Error.{too_many_array_entries}
use fantasy_iq.Nanopb.Field.{Field, ltype, htype, pb_size_max}
use fantasy_iq.Nanopb.Field.Ltype
use fantasy_iq.Nanopb.Field.Htype
use fantasy_iq.Nanopb.Wire.WireType
use fantasy_iq.Nanopb.Iterator.{Iter, current}
use fantasy_iq.Nanopb.Machine.{load_pointer, load_size}
use fantasy_iq.Nanopb.Input.{IStream}
use fantasy_iq.Nanopb.Decode.{pb_make_string_substream}
use fantasy_iq.Nanopb.Output.{size_mod}
use fantasy_iq.Nanopb.Decoder.Store.{
  Memory, Store, Decode, Outcome, Platform, write_integer, clear, put, done, fail, with_memory,
  ◌>>◌, ◌>>=◌,
}
use fantasy_iq.Nanopb.Decoder.Allocate.{allocate_field}
use fantasy_iq.Nanopb.Decoder.Values.{close_after}
use fantasy_iq.Nanopb.Decoder.Reset.{pb_message_set_to_defaults}
use fantasy_iq.Nanopb.Decoder.Release.{pb_release_single_field}
use fantasy_iq.Nanopb.Decoder.Static.{bump_count, item_address}

module _ {H S : Type 0} (p : Platform H S) where
  unfoldable pub initialize_pointer_field : ℕ → Field → ℕ → Memory → Memory
  initialize_pointer_field fuel field item memory =
      if ltype field == Ltype.string || ltype field == Ltype.bytes
      then write_integer memory 8 item 0
      else if ltype field == Ltype.submessage
      then pb_message_set_to_defaults p.descriptors fuel field.ptr item
          (clear memory item field.data_size)
      else memory

  -- `pItem = *(char**)iter->pData + data_size * index; initialize_pointer_field(pItem, iter);` and
  -- the call of `func`.
  abbrev pub read_item : ℕ → (ℕ → Decode H S) → Field → ℕ → ℕ → Decode H S
  read_item fuel func field p_data index st s =
      let item = item_address (load_pointer st.memory p_data) field.data_size index in
      (put (initialize_pointer_field fuel field item) >> func item) st s

  -- Whether the loop over a packed array stopped at "too many array entries", with its status.
  abbrev pub Items : Type 0
  Items = Bool × Outcome H S

  -- Behind an entry. `rest` is the next round.
  abbrev pub after_item : ℕ → (Store H → IStream S → Items) → Outcome H S → Items
  after_item p_size rest (false, (st, substream)) = (false, (false, (st, substream)))
  after_item p_size rest (true, (st, substream)) =
      let bumped =
        with_memory st
          (write_integer st.memory 4 p_size ((load_size st.memory p_size + 1) % 2 ^ 32)) in
      if load_size st.memory p_size == pb_size_max
      then (true, (false, (st, substream)))
      else rest bumped substream

  -- Behind the allocation: the entry at the count.
  abbrev pub allocated_item :
      ℕ → (ℕ → Decode H S) → Field → ℕ → ℕ → (Store H → IStream S → Items) → Outcome H S → Items
  allocated_item fuel func field p_data p_size rest (false, (st, substream)) =
      (false, (false, (st, substream)))
  allocated_item fuel func field p_data p_size rest (true, (st, substream)) =
      after_item p_size rest
        (read_item fuel func field p_data (load_size st.memory p_size) st substream)

  -- The loop. `allocated` is what there is room for; as many more entries are allocated as the
  -- bytes left can hold. Each entry takes a byte of the substream at least.
  unfoldable pub allocated_items :
      ℕ → (ℕ → Decode H S) → Field → ℕ → ℕ → ℕ → ℕ → Store H → IStream S → Items
  allocated_items fuel func field p_data p_size zero allocated st substream =
      (false, done st substream)
  allocated_items fuel func field p_data p_size (suc rounds) allocated st substream =
      let full = ltb allocated (load_size st.memory p_size + 1) in
      let more = (allocated + ((substream.bytes_left - 1) / field.data_size + 1)) % size_mod in
      let room = if full then more else allocated in
      let allocation = allocate_field p p_data field.data_size more in
      let rest = allocated_items fuel func field p_data p_size rounds room in
      if substream.bytes_left == 0
      then (false, done st substream)
      else if full && field.data_size == 0
      then (false, p.undefined st substream)
      else allocated_item fuel func field p_data p_size rest
          (if full then allocation st substream else done st substream)

  -- The stream gets the message of the loop, and that of the substream when it is closed.
  abbrev pub close_items : IStream S → Items → Outcome H S
  close_items s (overfull, outcome) =
      close_after (if overfull then record s { errmsg = some too_many_array_entries } else s)
        outcome

  unfoldable pub decode_packed_pointers : ℕ → (ℕ → Decode H S) → Field → ℕ → ℕ → Decode H S
  decode_packed_pointers fuel func field p_data p_size =
      pb_make_string_substream >>= λ substream st s. close_items s (
        allocated_items fuel func field p_data p_size substream.bytes_left
          (load_size st.memory p_size) st substream)

  -- One entry more.
  unfoldable pub decode_pointer_item : ℕ → (ℕ → Decode H S) → Field → ℕ → ℕ → Decode H S
  decode_pointer_item fuel func field p_data p_size st s =
      let size = load_size st.memory p_size in
      let allocate = λ (st' : Store H) (s' : IStream S).
        allocate_field p p_data field.data_size (load_size st'.memory p_size) st' s' in
      let read = λ (st' : Store H) (s' : IStream S).
        read_item fuel func field p_data ((load_size st'.memory p_size + 2 ^ 32 - 1) % 2 ^ 32) st'
          s' in
      if size == pb_size_max
      then fail too_many_array_entries st s
      else (bump_count p_size >> allocate >> read) st s

  -- Required, optional and oneof fields: behind the release of an old submessage.
  abbrev pub decode_single : ℕ → (ℕ → Decode H S) → Iter → Decode H S
  decode_single fuel func iter =
      let field = current iter in
      let with_tag =
        if htype field == Htype.oneof
        then put (λ m. write_integer m 4 iter.p_size field.tag)
        else done in
      let allocate = allocate_field p iter.p_data field.data_size 1 in
      if ltype field == Ltype.string || ltype field == Ltype.bytes
      then with_tag >> func iter.p_data
      else with_tag >> allocate >> read_item fuel func field iter.p_data 0

  unfoldable pub decode_pointer_field : ℕ → (Field → ℕ → Decode H S) → ℕ → Iter → Decode H S
  decode_pointer_field fuel decoder wire_type iter st s =
      let field = current iter in
      let func = decoder field in
      let duplicate =
        ltype field == Ltype.submessage && not (load_pointer st.memory iter.p_data == 0) in
      let st' = if duplicate then pb_release_single_field p fuel iter st else st in
      let packed = wire_type == WireType.string && leb (ltype field) Ltype.last_packable in
      if not (htype field == Htype.repeated)
      then decode_single fuel func iter st' s
      else if packed
      then decode_packed_pointers fuel func field iter.p_data iter.p_size st s
      else decode_pointer_item fuel func field iter.p_data iter.p_size st s
