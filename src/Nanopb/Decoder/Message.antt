-- ===== src/Nanopb/Decoder/Message.antt =====
-- pb_decode_noinit, pb_decode and their variants (nanopb/pb_decode.c).
use fantasy_iq.Base.{
  ℕ, zero, suc, ◌-◌, ◌^◌, Bool, true, false, not, ◌&&◌, Option, none, some, List, [], ◌∷◌, ltb,
  ◌==◌, if◌then◌else◌,
}
use fantasy_iq.Nanopb.Error.{
  Error, set_error, wrong_size_for_fixed_count_field, missing_required_field,
}
use fantasy_iq.Nanopb.Field.{Field, htype}
use fantasy_iq.Nanopb.Field.Htype
use fantasy_iq.Nanopb.Iterator.{Iter, current, field_at, pb_field_iter_begin, pb_field_iter_find}
use fantasy_iq.Nanopb.Machine.{load_size}
use fantasy_iq.Nanopb.Input.{IStream}
use fantasy_iq.Nanopb.Decode.{pb_decode_tag, pb_skip_field, pb_make_string_substream}
use fantasy_iq.Nanopb.Decoder.Store.{
  Store, Decode, Outcome, Platform, write_integer, with_memory, done, fail, ◌>>=◌,
}
use fantasy_iq.Nanopb.Decoder.Values.{decoder, close_after}
use fantasy_iq.Nanopb.Decoder.Reset.{pb_message_set_to_defaults}
use fantasy_iq.Nanopb.Decoder.Release.{pb_release}
use fantasy_iq.Nanopb.Decoder.Fields.{
  find_extension_field, decode_extension, decode_field, iter_behind,
}
use fantasy_iq.Nanopb.Decoder.Required.{
  max_required_fields, mark_seen, all_seen, required_field_count,
}

-- The variables of pb_decode_noinit; `fixed_count_field` is the position of an entry. Memory
-- holds `fixed_count_size`, since `iter.p_size` may point to it.
pub record Progress : Type 0 where
  pub iter : Iter
  pub fields_seen : List ℕ
  pub extension_range_start : ℕ
  pub fixed_count_field : Option ℕ

-- `none` is `return false`.
abbrev pub Step : Type 0 → Type 0 → Type 0
Step H S = Option Progress × (Store H × IStream S)

module _ {H S : Type 0} (p : Platform H S) (fuel : ℕ) (decoders : Field → ℕ → Decode H S) where
  abbrev pub step_of : Progress → Outcome H S → Step H S
  step_of progress (true, (st, s)) = (some progress, (st, s))
  step_of progress (false, (st, s)) = (none, (st, s))

  abbrev pub skipped : Progress → ℕ → Store H → IStream S → Step H S
  skipped progress wire_type st s =
      step_of progress ((pb_skip_field wire_type >>= λ nothing. done) st s)

  -- After the extensions had their chance at the stream that had `pos` bytes.
  abbrev pub unless_handled : Progress → ℕ → ℕ → Outcome H S → Step H S
  unless_handled progress wire_type pos (false, (st, s)) = (none, (st, s))
  unless_handled progress wire_type pos (true, (st, s)) =
      if s.bytes_left == pos then skipped progress wire_type st s else (some progress, (st, s))

  -- No entry has the tag.
  unfoldable pub unknown_field : Progress → ℕ → ℕ → Store H → IStream S → Step H S
  unknown_field progress wire_type tag st s =
      let search = find_extension_field progress.iter in
      let start = if search.0 then (current search.1).tag else 2 ^ 32 - 1 in
      let progress' = record progress { iter = search.1; extension_range_start = start } in
      let tried =
        unless_handled progress' wire_type s.bytes_left
          (decode_extension p fuel decoders tag wire_type search.1 st s) in
      if ltb tag progress.extension_range_start
      then skipped progress wire_type st s
      else if ltb tag start
      then skipped progress' wire_type st s
      else tried

  -- `fixed_count_size != fixed_count_field->array_size`
  abbrev pub count_is_wrong : Progress → Store H → Bool
  count_is_wrong progress st = elim progress.fixed_count_field [
    | none ↦ false
    | some pos ↦
        not
          (load_size st.memory (p.count_slot fuel) == (field_at progress.iter.start pos).array_size)
  ]

  abbrev pub is_position : Option ℕ → ℕ → Bool
  is_position none pos = false
  is_position (some q) pos = q == pos

  abbrev pub fail_step : Error → Store H → IStream S → Step H S
  fail_step e st s = (none, (st, record s { errmsg = set_error s.errmsg e }))

  -- A repeated field without a count in the structure is counted in `fixed_count_size`.
  unfoldable pub fixed_count : Progress → Store H → IStream S → Step H S
  fixed_count progress st s =
      let iter = progress.iter in
      let slot = p.count_slot fuel in
      let counted = record progress { iter = record iter { p_size = slot } } in
      if not (htype (current iter) == Htype.repeated && iter.p_size == iter.p_data)
      then (some progress, (st, s))
      else if is_position progress.fixed_count_field iter.pos
      then (some counted, (st, s))
      else if count_is_wrong progress st
      then fail_step wrong_size_for_fixed_count_field st s
      else (
        some (record counted { fixed_count_field = some iter.pos }),
        (with_memory st (write_integer st.memory 4 slot 0), s),
      )

  abbrev pub seen_field : Progress → Progress
  seen_field progress =
      let iter = progress.iter in
      if htype (current iter) == Htype.required && ltb iter.required_field_index max_required_fields
      then record progress {
        fields_seen = mark_seen iter.required_field_index progress.fields_seen;
      }
      else progress

  abbrev pub decode_known : ℕ → Step H S → Step H S
  decode_known wire_type (none, (st, s)) = (none, (st, s))
  decode_known wire_type (some progress, (st, s)) =
      let behind = iter_behind p fuel progress.iter st s in
      step_of (record (seen_field progress) { iter = behind })
        (decode_field p fuel decoders wire_type progress.iter st s)

  unfoldable pub known_field : Progress → ℕ → Store H → IStream S → Step H S
  known_field progress wire_type st s = decode_known wire_type (fixed_count progress st s)

  -- The body of the loop behind the key.
  unfoldable pub decode_tagged : Progress → ℕ × ℕ → Store H → IStream S → Step H S
  decode_tagged progress (wire_type, tag) st s =
      let search = pb_field_iter_find progress.iter tag in
      let progress' = record progress { iter = search.1 } in
      if search.0
      then known_field progress' wire_type st s
      else unknown_field progress' wire_type tag st s

  abbrev pub next_step : Step H S → (Progress → Store H → IStream S → Step H S) → Step H S
  next_step (none, (st, s)) k = (none, (st, s))
  next_step (some progress, (st, s)) k = k progress st s

  -- What is done with the result of pb_decode_tag; `next` is the rest of the loop.
  abbrev pub on_tag :
      Progress
      → Store H
      → (Progress → Store H → IStream S → Step H S)
      → Bool × (Option (ℕ × ℕ) × IStream S)
      → Step H S
  on_tag progress st next (eof, (none, s)) = (if eof then some progress else none, (st, s))
  on_tag progress st next (eof, (some tagged, s)) =
      next_step (decode_tagged progress tagged st s) next

  -- `while (stream->bytes_left)`. A key takes a byte at least, so the bytes left are enough rounds.
  unfoldable pub message_rounds : ℕ → Progress → Store H → IStream S → Step H S
  message_rounds zero progress st s = (some progress, (st, s))
  message_rounds (suc rounds) progress st s =
      let next : Progress → Store H → IStream S → Step H S =
        λ progress' st' s'. message_rounds rounds progress' st' s' in
      let rest = on_tag progress st next (pb_decode_tag s) in
      if s.bytes_left == 0 then (some progress, (st, s)) else rest

  -- The two checks behind the loop.
  abbrev pub finish_message : Step H S → Outcome H S
  finish_message (none, (st, s)) = (false, (st, s))
  finish_message (some progress, (st, s)) =
      if count_is_wrong progress st
      then fail wrong_size_for_fixed_count_field st s
      else if all_seen (required_field_count progress.iter) progress.fields_seen
      then done st s
      else fail missing_required_field st s

  abbrev pub start_of : ℕ → ℕ → Progress
  start_of fields dest_struct = record {
    iter = (pb_field_iter_begin (p.descriptors fields) dest_struct).1;
    fields_seen = 0 ∷ 0 ∷ [];
    extension_range_start = 0;
    fixed_count_field = none;
  }

  unfoldable pub decode_fields : ℕ → ℕ → Decode H S
  decode_fields fields dest_struct st s =
      let st' = with_memory st (write_integer st.memory 4 (p.count_slot fuel) 0) in
      finish_message (message_rounds s.bytes_left (start_of fields dest_struct) st' s)

module _ {H S : Type 0} (p : Platform H S) where
  abbrev pub or_release : ℕ → ℕ → ℕ → Outcome H S → Outcome H S
  or_release fuel fields dest_struct (true, (st, s)) = (true, (st, s))
  or_release fuel fields dest_struct (false, (st, s)) =
      (false, (pb_release p fuel fields dest_struct st, s))

  -- pb_decode, where `noinit` is pb_decode_noinit.
  unfoldable pub decode_with : ℕ → (ℕ → ℕ → Decode H S) → ℕ → ℕ → Decode H S
  decode_with fuel noinit fields dest_struct st s =
      let reset = pb_message_set_to_defaults p.descriptors fuel fields dest_struct st.memory in
      or_release fuel fields dest_struct (noinit fields dest_struct (with_memory st reset) s)

  -- The fuel bounds how deep messages are nested and how long lists of extensions are.
  unfoldable pub pb_decode_noinit : ℕ → ℕ → ℕ → Decode H S
  pb_decode_noinit zero fields dest_struct = p.undefined
  pb_decode_noinit (suc fuel) fields dest_struct =
      let noinit = pb_decode_noinit fuel in
      decode_fields p (suc fuel) (decoder p (decode_with fuel noinit) noinit) fields dest_struct

  unfoldable pub pb_decode : ℕ → ℕ → ℕ → Decode H S
  pb_decode fuel fields dest_struct = decode_with fuel (pb_decode_noinit fuel) fields dest_struct

  abbrev pub delimited : Decode H S → Decode H S
  delimited decode =
      pb_make_string_substream >>= λ substream st s. close_after s (decode st substream)

  unfoldable pub pb_decode_delimited_noinit : ℕ → ℕ → ℕ → Decode H S
  pb_decode_delimited_noinit fuel fields dest_struct =
      delimited (pb_decode_noinit fuel fields dest_struct)

  unfoldable pub pb_decode_delimited : ℕ → ℕ → ℕ → Decode H S
  pb_decode_delimited fuel fields dest_struct = delimited (pb_decode fuel fields dest_struct)

  unfoldable pub pb_decode_nullterminated : ℕ → ℕ → ℕ → Decode H S
  pb_decode_nullterminated fuel fields dest_struct = pb_decode fuel fields dest_struct
