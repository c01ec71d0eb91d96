-- ===== src/Nanopb/Defaults.antt =====
-- pb_check_proto3_default_value of nanopb/pb_encode.c.
use fantasy_iq.Base.{
  ℕ, zero, suc, ◌%◌, Bool, true, false, not, ◌&&◌, ◌||◌, length, ◌==◌, if◌then◌else◌,
}
use fantasy_iq.Nanopb.Field.{Field, ltype, htype, atype}
use fantasy_iq.Nanopb.Field.Ltype
use fantasy_iq.Nanopb.Field.Htype
use fantasy_iq.Nanopb.Field.Atype
use fantasy_iq.Nanopb.Iterator.{
  Iter, current, add_address, add_signed, pb_field_iter_begin, pb_field_iter_next,
}
use fantasy_iq.Nanopb.Machine.{Machine, load, load_size}

-- The byte-per-byte comparison.
unfoldable pub all_zero : (ℕ → ℕ) → ℕ → ℕ → Bool
all_zero memory zero p = true
all_zero memory (suc n) p = memory p % 256 == 0 && all_zero memory n (add_address p 1)

module _ {S : Type 0} (m : Machine S) where
  -- The do-while loop over the fields of a submessage; `is_default` is the function itself.
  unfoldable pub all_default : (Field → ℕ → Bool) → ℕ → Iter → Bool
  all_default is_default zero iter = true
  all_default is_default (suc n) iter =
      let (more, iter') = pb_field_iter_next iter in
      let rest = all_default is_default n iter' in
      is_default (current iter) iter.p_data && (if more then rest else true)

  -- The proto3 singular fields: a submessage is as long as its descriptor has entries.
  abbrev default_value : (Field → ℕ → Bool) → Field → ℕ → Bool
  default_value is_default field p_data =
      let static = atype field == Atype.static in
      let fields = m.descriptors field.ptr in
      let (any, iter) = pb_field_iter_begin fields p_data in
      if static && ltype field == Ltype.bytes
      then load_size m.memory p_data == 0
      else if static && ltype field == Ltype.string
      then m.memory p_data % 256 == 0
      else if static && ltype field == Ltype.fixed_length_bytes
      then field.data_size == 0
      else if static && ltype field == Ltype.submessage
      then (if any then all_default is_default (length fields) iter else true)
      else all_zero m.memory field.data_size p_data

  -- The fuel is how deep submessages are nested. Without any the answer means nothing.
  unfoldable pub pb_check_proto3_default_value : ℕ → Field → ℕ → Bool
  pb_check_proto3_default_value zero field p_data = true
  pb_check_proto3_default_value (suc fuel) field p_data =
      let p_size = add_signed p_data field.size_offset in
      if htype field == Htype.required
      then false
      else if htype field == Htype.repeated || htype field == Htype.oneof
      then load_size m.memory p_size == 0
      else if htype field == Htype.optional && not (field.size_offset == 0)
      then load m.memory 1 p_size == 0
      else default_value (pb_check_proto3_default_value fuel) field p_data
