-- ===== src/Nanopb/Decoder/ArrayOverflow.antt =====
-- Arrays with more entries than the structure has room for, in decode_static_field of
-- nanopb/pb_decode.c.
use fantasy_iq.Base.{
  ℕ, ◌+◌, ◌<◌, false, Option, List, ◌++◌, length, ◌==◌, ◌≡◌, refl, inr, arith, append_assoc,
  length-append,
}
use fantasy_iq.Nanopb.Error.{Error, array_overflow, set_error}
use fantasy_iq.Nanopb.Field.{Field}
use fantasy_iq.Nanopb.Wire.{varint, IsU32}
use fantasy_iq.Nanopb.Input.Buffer.{source}
use fantasy_iq.Nanopb.Machine.{load_size}
use fantasy_iq.Nanopb.Arrays.Packed.{entry_address, entries_bytes}
use fantasy_iq.Nanopb.Decode.Skip.{pb_make_string_substream_lem}
use fantasy_iq.Nanopb.Decoder.Store.{Memory, Store, Decode, with_memory}
use fantasy_iq.Nanopb.Decoder.Static.{decode_packed_array}
use fantasy_iq.Nanopb.Decoder.Items.{
  stored_packed, IsCounted, ReadsItems, packed_items-entries, entries-long,
}

module _ {H : Type 0} (field : Field) (p_data p_size : ℕ) (move : ℕ → ℕ → Memory → Memory)
    (func : ℕ → Decode H (List ℕ)) (f : ℕ → List ℕ) (IsEntry : ℕ → Type 0)
    (is : IsCounted field p_data p_size move IsEntry) where
  -- In an array whose entries lie apart from its count, and of which `i` are taken, a packed array
  -- whose first `n` entries fill the structure's array, with bytes left behind them,
  -- is refused with "array overflow"; these entries are stored and counted.
  pub decode_packed_array_overflow :
      (n i from : ℕ) (more rest : List ℕ) (st : Store H) (m left : ℕ) (e : Option Error)
      → ((k : ℕ) → k < n → 0 < length (f (entry_address field.data_size from k)))
      → ReadsItems field p_data p_size move func f IsEntry is n i from
      → i + n ≡ field.array_size
      → load_size st.memory p_size ≡ i
      → 0 < length more
      → IsU32 (length (entries_bytes f field.data_size n from ++ more))
      → m
        ≡ length (varint (length (entries_bytes f field.data_size n from ++ more)))
          + (length (entries_bytes f field.data_size n from ++ more) + left)
      → let content = entries_bytes f field.data_size n from ++ more in
        decode_packed_array func field p_data p_size st
          (source (varint (length content) ++ (content ++ rest)) m e)
        ≡ (
          false,
          (
            with_memory st (stored_packed field p_data p_size move n i from st.memory),
            source (content ++ rest) left (set_error e array_overflow),
          ),
        )
  unfolding decode_packed_array
  decode_packed_array_overflow n i from more rest st m left e long each full count unread word
        size =
      let bs = entries_bytes f field.data_size n from in
      let content = bs ++ more in
      let total = length-append bs more in
      let made =
        pb_make_string_substream_lem (length content) (content ++ rest) m left e word size in
      let enough = entries-long field p_data p_size move func f IsEntry is n from long in
      let items =
        packed_items-entries field p_data p_size move func f IsEntry is n i from (length content)
          (length content) (length more) st (more ++ rest) e long each (omega arith) count
          (omega (arith, total, enough)) total (inr full) in
      let some_left : (length more == 0) ≡ false = ground arith in
      rw made (rw (append_assoc bs more rest, items, some_left) refl)
