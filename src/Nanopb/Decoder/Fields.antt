-- ===== src/Nanopb/Decoder/Fields.antt =====
-- decode_callback_field, decode_field and the extensions of nanopb/pb_decode.c.
use fantasy_iq.Base.{
  ℕ, zero, suc, Bool, true, false, not, ◌&&◌, ◌||◌, Option, none, some, List, length, ◌==◌,
  if◌then◌else◌,
}
use fantasy_iq.Nanopb.Error.{callback_failed, invalid_field_type}
use fantasy_iq.Nanopb.Field.{Field, ltype, htype, atype}
use fantasy_iq.Nanopb.Field.Ltype
use fantasy_iq.Nanopb.Field.Htype
use fantasy_iq.Nanopb.Field.Atype
use fantasy_iq.Nanopb.Wire.WireType
use fantasy_iq.Nanopb.Iterator.{Iter, current, field_at, pb_field_iter_next}
use fantasy_iq.Nanopb.Machine.{
  load_pointer, callback_funcs, callback_arg, extension_type, extension_next,
}
use fantasy_iq.Nanopb.Input.{IStream}
use fantasy_iq.Nanopb.Input.Buffer.{pb_istream_from_buffer}
use fantasy_iq.Nanopb.Decode.{pb_skip_field, read_raw_value, pb_make_string_substream}
use fantasy_iq.Nanopb.Decoder.Store.{
  Store, Decode, Outcome, Platform, write_byte, with_memory, done, fail, and_then, ◌>>=◌,
}
use fantasy_iq.Nanopb.Decoder.Values.{close_after}
use fantasy_iq.Nanopb.Decoder.Reset.{extension_found, extension_arg, iter_from_extension}
use fantasy_iq.Nanopb.Decoder.Release.{pb_release_union_field}
use fantasy_iq.Nanopb.Decoder.Static.{decode_static_field}
use fantasy_iq.Nanopb.Decoder.Pointer.{decode_pointer_field}

-- The loop of find_extension_field, as that of pb_field_iter_find.
unfoldable pub extension_rounds : ℕ → ℕ → Iter → Bool × Iter
extension_rounds zero start iter = (false, iter)
extension_rounds (suc fuel) start iter =
    let iter' = (pb_field_iter_next iter).1 in
    let rest = extension_rounds fuel start iter' in
    if ltype (current iter) == Ltype.extension
    then (true, iter)
    else if iter'.pos == start
    then (false, iter')
    else rest

unfoldable pub find_extension_field : Iter → Bool × Iter
unfolding extension_rounds
find_extension_field iter = extension_rounds (suc (length iter.start)) iter.pos iter

module _ {H S : Type 0} (p : Platform H S) where
  -- The do-while loop on a string; its Boolean is what the last call returned. A callback takes a
  -- byte each time, as long as there is one, or else the loop may never end, which is undefined
  -- here.
  unfoldable pub callback_rounds : ℕ → Decode H S → Decode H S
  callback_rounds zero call st substream = p.undefined st substream
  callback_rounds (suc fuel) call st substream =
      let again : Decode H S = λ st' substream'.
        let rest = callback_rounds fuel call st' substream' in
        if substream'.bytes_left == 0 then done st' substream' else rest in
      and_then (call st substream) again

  -- `PB_RETURN_ERROR(stream, "callback failed")`, or the closing of the substream.
  abbrev pub after_rounds : IStream S → Outcome H S → Outcome H S
  after_rounds s (false, (st, substream)) = fail callback_failed st s
  after_rounds s (true, (st, substream)) = close_after s (true, (st, substream))

  -- The outcome of a callback on a stream of its own.
  abbrev pub own_stream : IStream S → Outcome H (List ℕ) → Outcome H S
  own_stream s (status, (st, substream)) = (status, (st, s))

  -- `pCallback->funcs.decode(...)`, the pointer being read anew each time.
  abbrev pub call_now : Field → ℕ → ℕ → Decode H S
  call_now field p_data arg st substream =
      let funcs = callback_funcs st.memory p_data in
      if funcs == 0 then p.undefined st substream else p.call_decode funcs field arg st substream

  unfoldable pub decode_callback_field : ℕ → Iter → Decode H S
  decode_callback_field wire_type iter st =
      let field = current iter in
      let funcs = callback_funcs st.memory iter.p_data in
      let arg = callback_arg iter.p_data in
      let call = call_now field iter.p_data arg in
      let skip = pb_skip_field wire_type >>= λ skipped. done in
      let string = pb_make_string_substream >>= λ substream st' s.
      after_rounds s (callback_rounds (suc substream.bytes_left) call st' substream) in
      let scalar = read_raw_value wire_type 10 >>= λ buffer st' s.
      own_stream s (
        p.call_decode_scalar funcs field arg st' (pb_istream_from_buffer buffer (length buffer))) in
      (if iter.p_data == 0 || funcs == 0
          then skip
          else if wire_type == WireType.string
          then string
          else scalar)
        st

  -- `if (!pb_release_union_field(stream, iter)) return false;`
  abbrev pub with_iter : Option Iter × (Store H × IStream S) → (Iter → Decode H S) → Outcome H S
  with_iter (none, (st, s)) k = (false, (st, s))
  with_iter (some iter, (st, s)) k = k iter st s

  abbrev pub by_allocation : ℕ → (Field → ℕ → Decode H S) → ℕ → Iter → Decode H S
  by_allocation fuel decoder wire_type iter =
      let a = atype (current iter) in
      if a == Atype.static
      then decode_static_field p fuel decoder wire_type iter
      else if a == Atype.pointer
      then decode_pointer_field p fuel decoder wire_type iter
      else if a == Atype.callback
      then decode_callback_field wire_type iter
      else fail invalid_field_type

  -- The old data of a oneof is released first.
  unfoldable pub after_release :
      ℕ → Iter → Store H → IStream S → Option Iter × (Store H × IStream S)
  after_release fuel iter st s =
      if htype (current iter) == Htype.oneof
      then pb_release_union_field p fuel iter st s
      else (some iter, (st, s))

  -- `decoder` is PB_DECODERS.
  unfoldable pub decode_field : ℕ → (Field → ℕ → Decode H S) → ℕ → Iter → Decode H S
  unfolding after_release
  decode_field fuel decoder wire_type iter st s =
      with_iter (after_release fuel iter st s) (by_allocation fuel decoder wire_type)

  -- Where decode_field leaves the iterator of the caller, if it does not fail.
  unfoldable pub iter_behind : ℕ → Iter → Store H → IStream S → Iter
  iter_behind fuel iter st s = elim (after_release fuel iter st s).0 [
    | none ↦ iter
    | some iter' ↦ iter'
  ]

  unfoldable pub default_extension_decoder : ℕ → (Field → ℕ → Decode H S) → ℕ → ℕ → ℕ → Decode H S
  default_extension_decoder fuel decoder extension tag wire_type st =
      let field = field_at (p.descriptors (extension_arg st.memory extension)) 0 in
      let iter = iter_from_extension p.descriptors st.memory extension in
      let found = with_memory st (write_byte st.memory (extension_found extension) 1) in
      if field.tag == tag then decode_field fuel decoder wire_type iter found else done st

  -- `while (extension != NULL && pos == stream->bytes_left)`
  unfoldable pub decode_extensions : ℕ → ℕ → (Field → ℕ → Decode H S) → ℕ → ℕ → ℕ → ℕ → Decode H S
  decode_extensions zero fuel decoder tag wire_type pos extension st s = done st s
  decode_extensions (suc links) fuel decoder tag wire_type pos extension st s =
      let function = load_pointer st.memory (extension_type st.memory extension) in
      let first =
        if function == 0
        then default_extension_decoder fuel decoder extension tag wire_type
        else p.call_extension function extension tag wire_type in
      let next : Decode H S = λ st' s'.
        decode_extensions links fuel decoder tag wire_type pos (extension_next st'.memory extension)
          st' s' in
      let rest = and_then (first st s) next in
      if not (extension == 0) && pos == s.bytes_left then rest else done st s

  unfoldable pub decode_extension : ℕ → (Field → ℕ → Decode H S) → ℕ → ℕ → Iter → Decode H S
  decode_extension fuel decoder tag wire_type iter st s =
      decode_extensions fuel fuel decoder tag wire_type s.bytes_left
        (load_pointer st.memory iter.p_data) st s
