-- ===== src/Nanopb/Iterator.antt =====
-- pb_common.c: the iterator over the fields of a message structure.
-- A descriptor array is the list of its entries before PB_LAST_FIELD, and `pos` is an index into it.
pub mod Walk
pub mod Find
use fantasy_iq.Base.{
  ℕ, zero, suc, ◌+◌, ◌-◌, ◌*◌, ◌%◌, ◌^◌, List, [], ◌∷◌, length, get_or, ltb, ◌==◌, if◌then◌else◌,
  Bool, true, false, not, ◌&&◌, ◌||◌,
}
use fantasy_iq.Nanopb.Field.{Field, ltype, htype, atype, pb_size_max}
use fantasy_iq.Nanopb.Field.Ltype
use fantasy_iq.Nanopb.Field.Htype
use fantasy_iq.Nanopb.Field.Atype

-- pb_field_iter_t; `dest_struct`, `p_data` and `p_size` are addresses.
pub record Iter : Type 0 where
  pub start : List Field
  pub pos : ℕ
  pub required_field_index : ℕ
  pub dest_struct : ℕ
  pub p_data : ℕ
  pub p_size : ℕ

-- PB_LAST_FIELD
abbrev pub last_field : Field
last_field = record {
  tag = 0;
  type_code = 0;
  data_offset = 0;
  size_offset = 0;
  data_size = 0;
  array_size = 0;
  ptr = 0;
}

-- `fields[pos]`; what stands behind the entries is the terminator.
abbrev pub field_at : List Field → ℕ → Field
field_at fields pos = get_or fields pos last_field

abbrev pub current : Iter → Field
current iter = field_at iter.start iter.pos

-- Addresses have 64 bits. A size_offset is an int32_t pattern, and its sign is extended.
abbrev pub add_address : ℕ → ℕ → ℕ
add_address p n = (p + n) % 2 ^ 64

abbrev pub add_signed : ℕ → ℕ → ℕ
add_signed p n = if ltb n (2 ^ 31) then add_address p n else add_address p (n + 2 ^ 64 - 2 ^ 32)

unfoldable pub pb_field_iter_begin : List Field → ℕ → Bool × Iter
pb_field_iter_begin fields dest_struct =
    let first = field_at fields 0 in
    let p_data = add_address dest_struct first.data_offset in
    (
      not (first.tag == 0),
      record {
        start = fields;
        pos = 0;
        required_field_index = 0;
        dest_struct = dest_struct;
        p_data = p_data;
        p_size = add_signed p_data first.size_offset;
      },
    )

-- `prev_size` behind the three tests, where the pointers are advanced.
abbrev pub size_of_previous : Field → ℕ
size_of_previous prev =
    if atype prev == Atype.static && htype prev == Htype.repeated
    then prev.data_size * prev.array_size
    else if atype prev == Atype.pointer
    then 8
    else prev.data_size

-- Both fields lie in the same union.
abbrev pub in_same_union : Field → Field → Bool
in_same_union prev next =
    htype prev == Htype.oneof && htype next == Htype.oneof && next.data_offset == pb_size_max

abbrev pub advance : Iter → Field → Field → Iter
advance iter prev next =
    let p_data = add_address (add_address iter.p_data (size_of_previous prev)) next.data_offset in
    let count = if htype prev == Htype.required then 1 else 0 in
    record iter {
      pos = iter.pos + 1;
      required_field_index = iter.required_field_index + count;
      p_data = p_data;
      p_size = add_signed p_data next.size_offset;
    }

unfoldable pub pb_field_iter_next : Iter → Bool × Iter
unfolding pb_field_iter_begin
pb_field_iter_next iter =
    let prev = current iter in
    let next = field_at iter.start (iter.pos + 1) in
    if prev.tag == 0
    then (false, iter)
    else if next.tag == 0
    then (false, (pb_field_iter_begin iter.start iter.dest_struct).1)
    else if in_same_union prev next
    then (true, record iter { pos = iter.pos + 1 })
    else (true, advance iter prev next)

abbrev pub is_wanted : ℕ → Field → Bool
is_wanted tag field = field.tag == tag && not (ltype field == Ltype.extension)

-- The do-while loop of pb_field_iter_find. It visits each entry at most once, so as many rounds as
-- there are entries are enough.
unfoldable pub find_rounds : ℕ → ℕ → ℕ → Iter → Bool × Iter
find_rounds zero start tag iter = (false, iter)
find_rounds (suc fuel) start tag iter =
    let iter' = (pb_field_iter_next iter).1 in
    let rest = find_rounds fuel start tag iter' in
    if is_wanted tag (current iter)
    then (true, iter)
    else if iter'.pos == start
    then (false, iter')
    else rest

unfoldable pub pb_field_iter_find : Iter → ℕ → Bool × Iter
unfolding find_rounds
pb_field_iter_find iter tag = find_rounds (suc (length iter.start)) iter.pos tag iter
