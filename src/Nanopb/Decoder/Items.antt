-- ===== src/Nanopb/Decoder/Items.antt =====
-- Entries of a static array: decode_static_field of nanopb/pb_decode.c behind what encode_array of
-- nanopb/pb_encode.c writes.
use fantasy_iq.Base.{
  ℕ, zero, suc, ◌+◌, ◌%◌, ◌^◌, ◌<◌, ◌≤◌, true, false, Option, List, [], ◌++◌, length, ltb, ◌==◌,
  not, ◌&&◌, ◌≡◌, ◌⊎◌, inl, refl, arith, append_assoc, length-append, ap, ◌∙◌,
}
use fantasy_iq.Nanopb.Error.{Error}
use fantasy_iq.Nanopb.Field.{Field}
use fantasy_iq.Nanopb.Iterator.{add_address}
use fantasy_iq.Nanopb.Wire.{varint, IsU32}
use fantasy_iq.Nanopb.Input.Buffer.{source}
use fantasy_iq.Nanopb.Machine.{load_size}
use fantasy_iq.Nanopb.Arrays.Packed.{entry_address, entries_bytes}
use fantasy_iq.Nanopb.Decode.Skip.{pb_make_string_substream_lem, pb_close_string_substream_lem}
use fantasy_iq.Nanopb.Decoder.Store.{Memory, Store, Decode, with_memory, write_integer}
use fantasy_iq.Nanopb.Decoder.Words.{load-write_integer, load-ext}
use fantasy_iq.Nanopb.Decoder.Static.{item_address, packed_items, decode_packed_array, decode_item}
use fantasy_iq.Nanopb.Decoder.Copies.{Reads, ReadsAt}

-- `move` says what storing the value at an address at another one does to memory.
module _ (field : Field) (p_data p_size : ℕ) (move : ℕ → ℕ → Memory → Memory) where
  abbrev pub item : ℕ → ℕ
  item i = item_address p_data field.data_size i

  -- `n` values from address `from` on are stored behind `i` that are there; each is counted behind
  -- its value.
  unfoldable pub stored_packed : ℕ → ℕ → ℕ → Memory → Memory
  stored_packed zero i from memory = memory
  stored_packed (suc n) i from memory =
      stored_packed n (suc i) (add_address from field.data_size)
        (write_integer (move from (item i) memory) 4 p_size (suc i))

  -- One value, counted before it is stored.
  abbrev pub stored_item : ℕ → ℕ → Memory → Memory
  stored_item i from memory = move from (item i) (write_integer memory 4 p_size (suc i))

  -- The count is a pb_size_t, and storing an entry, of the right kind, leaves it alone.
  pub record IsCounted (IsEntry : ℕ → Type 0) : Type 0 where
    pub word : p_size + 4 ≤ 2 ^ 64
    pub short : field.array_size < 2 ^ 32
    pub apart :
        (i from q : ℕ) (memory : Memory)
        → i < field.array_size
        → IsEntry from
        → p_size ≤ q
        → q < p_size + 4
        → move from (item i) memory q ≡ memory q

  count_kept :
      (IsEntry : ℕ → Type 0) (i from : ℕ) (memory : Memory)
      → IsCounted IsEntry
      → i < field.array_size
      → IsEntry from
      → load_size (move from (item i) memory) p_size ≡ load_size memory p_size
  count_kept IsEntry i from memory is inside entry =
      load-ext 4 (move from (item i) memory) memory p_size is.word
        (λ q lo hi. is.apart i from q memory inside entry lo hi)

  -- Behind an entry the count is one more.
  pub stored_item-count :
      (IsEntry : ℕ → Type 0) (i from : ℕ) (memory : Memory)
      → IsCounted IsEntry
      → i < field.array_size
      → IsEntry from
      → load_size (stored_item i from memory) p_size ≡ suc i
  stored_item-count IsEntry i from memory is inside entry =
      let short = is.short in
      count_kept IsEntry i from (write_integer memory 4 p_size (suc i)) is inside entry
      ∙ load-write_integer memory 4 p_size (suc i) is.word (omega arith)

  pub stored_packed-count :
      (IsEntry : ℕ → Type 0) (n i from : ℕ) (memory : Memory)
      → IsCounted IsEntry
      → i + n ≤ field.array_size
      → load_size memory p_size ≡ i
      → load_size (stored_packed n i from memory) p_size ≡ i + n
  unfolding stored_packed
  stored_packed-count IsEntry zero i from memory is room count = omega (arith, count)
  stored_packed-count IsEntry (suc n) i from memory is room count =
      let short = is.short in
      let next : i + suc n ≡ suc i + n = omega arith in
      rw next (
        stored_packed-count IsEntry n (suc i) (add_address from field.data_size)
          (write_integer (move from (item i) memory) 4 p_size (suc i)) is (omega arith)
          (load-write_integer (move from (item i) memory) 4 p_size (suc i) is.word (omega arith)))

module _ {H : Type 0} (field : Field) (p_data p_size : ℕ) (move : ℕ → ℕ → Memory → Memory)
    (func : ℕ → Decode H (List ℕ)) (f : ℕ → List ℕ) (IsEntry : ℕ → Type 0)
    (is : IsCounted field p_data p_size move IsEntry) where
  -- The `n` values from `from` on are right, and `func` reads them into the entries from `i` on.
  abbrev pub ReadsItems : ℕ → ℕ → ℕ → Type 0
  ReadsItems n i from =
      (k : ℕ)
      → k < n
      → IsEntry (entry_address field.data_size from k)
        × Reads (func (item field p_data p_size move (i + k)))
            (f (entry_address field.data_size from k))
            (move (entry_address field.data_size from k) (item field p_data p_size move (i + k)))

  pub tail_items :
      (n i from : ℕ)
      → ReadsItems (suc n) i from
      → ReadsItems n (suc i) (add_address from field.data_size)
  unfolding entry_address
  tail_items n i from each k less =
      let next : i + suc k ≡ suc i + k = omega arith in rw next at (each (suc k) (omega arith))

  pub head_item :
      (n i from : ℕ)
      → ReadsItems (suc n) i from
      → IsEntry from
        × Reads
            (func (item field p_data p_size move i))
            (f from)
            (move from (item field p_data p_size move i))
  unfolding entry_address
  head_item n i from each = let here : i + 0 ≡ i = omega arith in rw here at (each 0 (omega arith))

  -- An entry that is not packed, where there is room for one more.
  pub decode_item-ReadsAt :
      (i from : ℕ) (memory : Memory)
      → i < field.array_size
      → load_size memory p_size ≡ i
      → Reads
          (func (item field p_data p_size move i))
          (f from)
          (move from (item field p_data p_size move i))
      → ReadsAt memory
          (decode_item func field p_data p_size)
          (f from)
          (stored_item field p_data p_size move i from)
  unfolding decode_item
  decode_item-ReadsAt i from memory room count reads st rest m n e at size =
      let short = is.short in
      let count' : load_size st.memory p_size ≡ i =
        ap (λ (t : Memory). load_size t p_size) at ∙ count in
      let less : ltb i field.array_size ≡ true = ground arith in
      let small : (i + 1) % 2 ^ 32 ≡ suc i = omega arith in
      rw (count', less, small)
        (reads (with_memory st (write_integer st.memory 4 p_size (suc i))) rest m n e size)

  -- The loop over a packed array: it ends with the array, or before bytes that there is no room for.
  pub packed_items-entries :
      (n i from fuel m left : ℕ) (st : Store H) (tail : List ℕ) (e : Option Error)
      → ((k : ℕ) → k < n → 0 < length (f (entry_address field.data_size from k)))
      → ReadsItems n i from
      → i + n ≤ field.array_size
      → load_size st.memory p_size ≡ i
      → n ≤ fuel
      → m ≡ length (entries_bytes f field.data_size n from) + left
      → (left ≡ 0) ⊎ (i + n ≡ field.array_size)
      → packed_items func field p_data p_size fuel st
          (source (entries_bytes f field.data_size n from ++ tail) m e)
        ≡ (
          true,
          (
            with_memory st (stored_packed field p_data p_size move n i from st.memory),
            source tail left e,
          ),
        )
  unfolding packed_items entries_bytes stored_packed
  packed_items-entries zero i from zero m left st tail e some each room count enough size last =
      let all : m ≡ left = omega arith in rw all refl
  packed_items-entries zero i from (suc fuel) m left st tail e some each room count enough size
        last =
      let all : m ≡ left = omega arith in
      let end : (not (left == 0) && ltb i field.array_size) ≡ false = ground arith in
      rw (count, all, end) refl
  packed_items-entries (suc n) i from zero m left st tail e some each room count enough size last =
      absurd (omega arith)
  packed_items-entries (suc n) i from (suc fuel) m left st tail e some each room count enough size
        last =
      let short = is.short in
      let bs = entries_bytes f field.data_size n (add_address from field.data_size) in
      let total = length-append (f from) bs in
      let nonempty : 0 < length (f from) = unfold entry_address in some 0 (omega arith) in
      let more : (m == 0) ≡ false = ground (arith, nonempty, total, size) in
      let less : ltb i field.array_size ≡ true = ground arith in
      let small : (i + 1) % 2 ^ 32 ≡ suc i = omega arith in
      let read =
        (head_item n i from each).1 st (bs ++ tail) m (length bs + left) e
          (omega (arith, size, total)) in
      let kept =
        count_kept field p_data p_size move IsEntry i from st.memory is (omega arith)
          (head_item n i from each).0
        ∙ count in
      let moved = move from (item field p_data p_size move i) st.memory in
      rw (count, more, less, append_assoc (f from) bs tail, read, kept, small)
        (packed_items-entries n (suc i) (add_address from field.data_size) fuel (length bs + left)
          left (with_memory st (write_integer moved 4 p_size (suc i))) tail e
          (λ k lt. unfold entry_address in some (suc k) (omega arith)) (tail_items n i from each)
          (omega arith) (load-write_integer moved 4 p_size (suc i) is.word (omega arith))
          (omega arith) refl (ground arith))

  pub entries-long :
      (n from : ℕ)
      → ((k : ℕ) → k < n → 0 < length (f (entry_address field.data_size from k)))
      → n ≤ length (entries_bytes f field.data_size n from)
  unfolding entries_bytes
  entries-long zero from some = omega arith
  entries-long (suc n) from some =
      let bs = entries_bytes f field.data_size n (add_address from field.data_size) in
      let rest =
        entries-long n (add_address from field.data_size)
          (λ k lt. unfold entry_address in some (suc k) (omega arith)) in
      let first : 0 < length (f from) = unfold entry_address in some 0 (omega arith) in
      omega (arith, length-append (f from) bs)

  -- A packed array, where there is room for all of its entries.
  pub decode_packed_array-ReadsAt :
      (n i from : ℕ) (memory : Memory)
      → ((k : ℕ) → k < n → 0 < length (f (entry_address field.data_size from k)))
      → ReadsItems n i from
      → i + n ≤ field.array_size
      → load_size memory p_size ≡ i
      → IsU32 (length (entries_bytes f field.data_size n from))
      → ReadsAt memory
          (decode_packed_array func field p_data p_size)
          (varint (length (entries_bytes f field.data_size n from))
            ++ entries_bytes f field.data_size n from)
          (stored_packed field p_data p_size move n i from)
  unfolding decode_packed_array
  decode_packed_array-ReadsAt n i from memory some each room count word st rest m k e at size =
      let bs = entries_bytes f field.data_size n from in
      let count' : load_size st.memory p_size ≡ i =
        ap (λ (t : Memory). load_size t p_size) at ∙ count in
      let made =
        pb_make_string_substream_lem (length bs) (bs ++ rest) m k e word
          (omega (arith, size, length-append (varint (length bs)) bs)) in
      let items =
        packed_items-entries n i from (length bs) (length bs) 0 st rest e some each room count'
          (entries-long n from some) (omega arith) (inl refl) in
      rw (append_assoc (varint (length bs)) bs rest, made, items)
        (rw (pb_close_string_substream_lem bs [] rest k e e) refl)
