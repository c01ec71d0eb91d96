-- ===== src/Nanopb/Decoder/Release.antt =====
-- pb_release, pb_release_single_field and pb_release_union_field of nanopb/pb_decode.c.
use fantasy_iq.Base.{
  ℕ, zero, suc, Bool, true, false, not, ◌&&◌, ◌||◌, Option, none, some, ltb, ◌==◌, if◌then◌else◌,
}
use fantasy_iq.Nanopb.Error.{invalid_union_tag, iterator_error, set_error}
use fantasy_iq.Nanopb.Field.{ltype, htype, atype}
use fantasy_iq.Nanopb.Field.Ltype
use fantasy_iq.Nanopb.Field.Htype
use fantasy_iq.Nanopb.Field.Atype
use fantasy_iq.Nanopb.Iterator.{Iter, current, add_address, pb_field_iter_find}
use fantasy_iq.Nanopb.Machine.{load_pointer, load_size, extension_next}
use fantasy_iq.Nanopb.Input.{IStream}
use fantasy_iq.Nanopb.Decoder.Store.{Store, Platform, write_integer, with_memory}
use fantasy_iq.Nanopb.Decoder.Reset.{iter_from_extension, each_message}

module _ {H S : Type 0} (p : Platform H S) where
  -- `while (ext != NULL)`, in which `release` is the recursive call.
  unfoldable pub release_extensions : (Iter → Store H → Store H) → ℕ → ℕ → Store H → Store H
  release_extensions release zero extension st = st
  release_extensions release (suc links) extension st =
      let st' = release (iter_from_extension p.descriptors st.memory extension) st in
      let rest = release_extensions release links (extension_next st'.memory extension) st' in
      if extension == 0 then st else rest

  -- `while (count--)` over the submessages.
  unfoldable pub release_items : (ℕ → Store H → Store H) → ℕ → ℕ → ℕ → Store H → Store H
  release_items release data_size zero item st = st
  release_items release data_size (suc count) item st =
      release_items release data_size count (add_address item data_size) (release item st)

  -- `while (count--) { pb_free(*pItem); *pItem++ = NULL; }`
  unfoldable pub free_entries : ℕ → ℕ → Store H → Store H
  free_entries zero item st = st
  free_entries (suc count) item st =
      let st' = p.free (load_pointer st.memory item) st in
      free_entries count (add_address item 8) (with_memory st' (write_integer st'.memory 8 item 0))

  -- The number of submessages in a field.
  abbrev pub item_count : Iter → Store H → ℕ
  item_count iter st =
      let field = current iter in
      let static = atype field == Atype.static in
      let count =
        if static && iter.p_size == iter.p_data
        then field.array_size
        else load_size st.memory iter.p_size in
      if not (htype field == Htype.repeated)
      then 1
      else if static && ltb field.array_size count
      then field.array_size
      else count

  -- What is inside an extension or a submessage.
  abbrev pub release_contents : (Iter → Store H → Store H) → ℕ → Iter → Store H → Store H
  release_contents release links iter st =
      let field = current iter in
      let item =
        if atype field == Atype.pointer then load_pointer st.memory iter.p_data else iter.p_data in
      let release_one = λ (dest : ℕ) (st' : Store H).
        if dest == 0 then st' else each_message release (p.descriptors field.ptr) dest st' in
      if ltype field == Ltype.extension
      then release_extensions release links (load_pointer st.memory iter.p_data) st
      else if ltype field == Ltype.submessage
      then (if item == 0
          then st
          else release_items release_one field.data_size (item_count iter st) item st)
      else st

  -- The entries of an array of strings or bytes, its count, and the main item.
  abbrev pub release_pointer : Iter → Store H → Store H
  release_pointer iter st =
      let field = current iter in
      let repeated = htype field == Htype.repeated in
      let entries =
        if repeated && (ltype field == Ltype.string || ltype field == Ltype.bytes)
        then free_entries (load_size st.memory iter.p_size) (load_pointer st.memory iter.p_data) st
        else st in
      let counted =
        if repeated
        then with_memory entries (write_integer entries.memory 4 iter.p_size 0)
        else entries in
      let freed = p.free (load_pointer counted.memory iter.p_data) counted in
      with_memory freed (write_integer freed.memory 8 iter.p_data 0)

  -- The fuel bounds how deep submessages are nested and how long lists of extensions are.
  unfoldable pub pb_release_single_field : ℕ → Iter → Store H → Store H
  pb_release_single_field zero iter st = st
  pb_release_single_field (suc fuel) iter st =
      let field = current iter in
      let inside = release_contents (pb_release_single_field fuel) fuel iter st in
      let all = if atype field == Atype.pointer then release_pointer iter inside else inside in
      if htype field == Htype.oneof && not (load_size st.memory iter.p_size == field.tag)
      then st
      else all

  unfoldable pub pb_release : ℕ → ℕ → ℕ → Store H → Store H
  pb_release fuel fields dest_struct st =
      if dest_struct == 0
      then st
      else each_message (pb_release_single_field fuel) (p.descriptors fields) dest_struct st

  -- The iterator behind, which stands where it stood; `none` is `return false`.
  abbrev pub restored : Store H → IStream S → Bool × Iter → Option Iter × (Store H × IStream S)
  restored st s (true, iter) = (some iter, (st, s))
  restored st s (false, iter) =
      (none, (st, record s { errmsg = set_error s.errmsg iterator_error }))

  abbrev pub release_old :
      ℕ → ℕ → Store H → IStream S → Bool × Iter → Option Iter × (Store H × IStream S)
  release_old fuel new_tag st s (true, iter) =
      restored (pb_release_single_field fuel iter st) s (pb_field_iter_find iter new_tag)
  release_old fuel new_tag st s (false, iter) =
      (none, (st, record s { errmsg = set_error s.errmsg invalid_union_tag }))

  unfoldable pub pb_release_union_field :
      ℕ → Iter → Store H → IStream S → Option Iter × (Store H × IStream S)
  pb_release_union_field fuel iter st s =
      let old_tag = load_size st.memory iter.p_size in
      let new_tag = (current iter).tag in
      if old_tag == 0 || old_tag == new_tag
      then (some iter, (st, s))
      else release_old fuel new_tag st s (pb_field_iter_find iter old_tag)
