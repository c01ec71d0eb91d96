-- ===== src/Nanopb/Message.antt =====
-- The message encoder of nanopb/pb_encode.c: fields, extensions and whole messages.
pub mod Encoding
pub mod Fields
pub mod Emits
pub mod Buffers
pub mod Same
pub mod Fuel
pub mod Examples
use fantasy_iq.Base.{
  ℕ, zero, suc, ◌+◌, ◌*◌, ◌%◌, Bool, true, false, not, ◌&&◌, ◌||◌, Option, none, some, List, [],
  ◌∷◌, length, ltb, leb, ◌==◌, if◌then◌else◌,
}
use fantasy_iq.Nanopb.Error.{
  Error, array_max_size_exceeded, missing_required_field, invalid_field_type, callback_error,
}
use fantasy_iq.Nanopb.Field.{Field, ltype, htype, atype}
use fantasy_iq.Nanopb.Field.Ltype
use fantasy_iq.Nanopb.Field.Htype
use fantasy_iq.Nanopb.Field.Atype
use fantasy_iq.Nanopb.Wire.WireType
use fantasy_iq.Nanopb.Iterator.{
  Iter, current, add_address, add_signed, pb_field_iter_begin, pb_field_iter_next,
}
use fantasy_iq.Nanopb.Output.{
  OStream, Encode, size_mod, ◌>>◌, and_then, succeed, fail, pb_write, sizing,
}
use fantasy_iq.Nanopb.Encode.{pb_encode_varint, pb_encode_tag, pb_encode_tag_for_field}
use fantasy_iq.Nanopb.Machine.{
  Machine, load, load_pointer, load_size, callback_funcs, callback_arg, extension_type,
  extension_dest, extension_next, extension_encode, extension_field,
}
use fantasy_iq.Nanopb.FieldEncoders.{encoder, submessage}
use fantasy_iq.Nanopb.Defaults.{pb_check_proto3_default_value}
use fantasy_iq.Nanopb.Arrays.{encode_array}

module _ {S : Type 0} (m : Machine S) where
  -- `encode` is pb_encode for the submessages; `fuel` is for the check of default values.
  unfoldable pub encode_basic_field : ℕ → (ℕ → ℕ → Encode S) → Field → ℕ → Encode S
  encode_basic_field fuel encode field p_data =
      let explicit = not (field.size_offset == 0) in
      let p_size = add_signed p_data field.size_offset in
      let is_pointer = atype field == Atype.pointer in
      let target = if is_pointer then load_pointer m.memory p_data else p_data in
      let implicit_has =
        if is_pointer
        then not (target == 0)
        else if htype field == Htype.optional
        then not (pb_check_proto3_default_value m fuel field p_data)
        else true in
      let has = if explicit then not (load m.memory 1 p_size == 0) else implicit_has in
      let count = if explicit then load_size m.memory p_size else field.array_size in
      let func = encoder m encode field in
      if htype field == Htype.required
      then (if target == 0
          then fail missing_required_field
          else pb_encode_tag_for_field field >> func target)
      else if htype field == Htype.optional
      then (if has then pb_encode_tag_for_field field >> func target else succeed)
      else if htype field == Htype.repeated
      then encode_array m field target count func
      else if not explicit
      then m.undefined
      else if load_size m.memory p_size == field.tag
      then pb_encode_tag_for_field field >> func target
      else succeed

  abbrev pub check_callback : Bool × OStream S → Bool × OStream S
  check_callback (true, s) = (true, s)
  check_callback (false, s) = fail callback_error s

  unfoldable pub encode_callback_field : Field → ℕ → Encode S
  encode_callback_field field p_data s =
      let funcs = callback_funcs m.memory p_data in
      if funcs == 0
      then (true, s)
      else check_callback (m.call_encode funcs field (callback_arg p_data) s)

  unfoldable pub encode_field : ℕ → (ℕ → ℕ → Encode S) → Field → ℕ → Encode S
  encode_field fuel encode field p_data =
      let t = atype field in
      if t == Atype.static || t == Atype.pointer
      then encode_basic_field fuel encode field p_data
      else if t == Atype.callback
      then encode_callback_field field p_data
      else fail invalid_field_type

  unfoldable pub default_extension_encoder : ℕ → (ℕ → ℕ → Encode S) → ℕ → Encode S
  default_extension_encoder fuel encode extension =
      let field = extension_field m extension in
      let dest = extension_dest extension in
      if atype field == Atype.pointer
      then encode_field fuel encode field dest
      else encode_field fuel encode field (load_pointer m.memory dest)

  -- `while (extension)`; the fuel is the length of the list.
  unfoldable pub encode_extensions : ℕ → ℕ → (ℕ → ℕ → Encode S) → ℕ → Encode S
  encode_extensions zero fuel encode extension = if extension == 0 then succeed else m.undefined
  encode_extensions (suc links) fuel encode extension =
      let function = extension_encode m.memory extension in
      let first =
        if function == 0
        then default_extension_encoder fuel encode extension
        else m.call_extension function extension in
      let rest = encode_extensions links fuel encode (extension_next m.memory extension) in
      if extension == 0 then succeed else first >> rest

  unfoldable pub encode_extension_field : ℕ → (ℕ → ℕ → Encode S) → ℕ → Encode S
  encode_extension_field fuel encode p_data =
      encode_extensions fuel fuel encode (load_pointer m.memory p_data)

  -- The body of the loop in pb_encode.
  unfoldable pub encode_one : ℕ → (ℕ → ℕ → Encode S) → Field → ℕ → Encode S
  encode_one fuel encode field p_data =
      if ltype field == Ltype.extension
      then encode_extension_field fuel encode p_data
      else encode_field fuel encode field p_data

  -- The do-while loop in pb_encode; it ends after as many rounds as there are entries.
  unfoldable pub encode_fields : (Field → ℕ → Encode S) → ℕ → Iter → Encode S
  encode_fields one zero iter = succeed
  encode_fields one (suc n) iter =
      let rest = encode_fields one n (pb_field_iter_next iter).1 in
      one (current iter) iter.p_data >> (if (pb_field_iter_next iter).0 then rest else succeed)

  -- By the addresses of the descriptor and the structure. The fuel bounds how deep messages are
  -- nested and how long a list of extensions is; a message beyond it has an undefined result.
  unfoldable pub pb_encode : ℕ → ℕ → ℕ → Encode S
  pb_encode zero fields src_struct = m.undefined
  pb_encode (suc fuel) fields src_struct =
      let entries = m.descriptors fields in
      let start = pb_field_iter_begin entries src_struct in
      let body = encode_fields (encode_one (suc fuel) (pb_encode fuel)) (length entries) start.1 in
      if start.0 then body else succeed

  unfoldable pub pb_encode_submessage : ℕ → ℕ → ℕ → Encode S
  pb_encode_submessage fuel fields src_struct = submessage (pb_encode fuel fields src_struct)

  unfoldable pub pb_encode_delimited : ℕ → ℕ → ℕ → Encode S
  pb_encode_delimited fuel fields src_struct = pb_encode_submessage fuel fields src_struct

  unfoldable pub pb_encode_nullterminated : ℕ → ℕ → ℕ → Encode S
  pb_encode_nullterminated fuel fields src_struct =
      pb_encode fuel fields src_struct >> pb_write (0 ∷ []) 1

  abbrev pub size_of : Bool × OStream S → Option ℕ
  size_of (true, stream) = some stream.bytes_written
  size_of (false, stream) = none

  -- The size, if the function returns true; the state of the sizing stream is never read.
  unfoldable pub pb_get_encoded_size : S → ℕ → ℕ → ℕ → Option ℕ
  pb_get_encoded_size st fuel fields src_struct =
      size_of (pb_encode fuel fields src_struct (sizing st))
