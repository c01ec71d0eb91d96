-- ===== src/Nanopb/Decoder/Reset.antt =====
-- pb_message_set_to_defaults and pb_field_set_to_default of nanopb/pb_decode.c, and the iterator
-- of an extension.
use fantasy_iq.Base.{ℕ, zero, suc, not, ◌&&◌, ◌||◌, List, length, ◌==◌, if◌then◌else◌}
use fantasy_iq.Nanopb.Field.{Field, ltype, htype, atype}
use fantasy_iq.Nanopb.Field.Ltype
use fantasy_iq.Nanopb.Field.Htype
use fantasy_iq.Nanopb.Field.Atype
use fantasy_iq.Nanopb.Iterator.{
  Iter, current, field_at, add_address, pb_field_iter_begin, pb_field_iter_next,
}
use fantasy_iq.Nanopb.Machine.{
  load_bytes, load_pointer, extension_type, extension_dest, extension_next,
}
use fantasy_iq.Nanopb.Decoder.Store.{Memory, write_byte, write_bytes, write_integer, clear}

-- `&extension->found`
abbrev pub extension_found : ℕ → ℕ
extension_found extension = add_address extension 24

-- `extension->type->arg`
abbrev pub extension_arg : Memory → ℕ → ℕ
extension_arg memory extension =
    load_pointer memory (add_address (extension_type memory extension) 16)

unfoldable pub iter_from_extension : (ℕ → List Field) → Memory → ℕ → Iter
iter_from_extension descriptors memory extension =
    let fields = descriptors (extension_arg memory extension) in
    let dest = load_pointer memory (extension_dest extension) in
    record (pb_field_iter_begin fields dest).1 {
      p_data =
          if atype (field_at fields 0) == Atype.pointer then extension_dest extension else dest;
      p_size = extension_found extension;
    }

-- `do { f(&iter); } while (pb_field_iter_next(&iter));` A descriptor has as many rounds as entries.
unfoldable pub each_field : {A : Type 0} → (Iter → A → A) → ℕ → Iter → A → A
each_field f zero iter a = a
each_field f (suc n) iter a =
    let rest = each_field f n (pb_field_iter_next iter).1 (f iter a) in
    if (pb_field_iter_next iter).0 then rest else f iter a

unfoldable pub each_message : {A : Type 0} → (Iter → A → A) → List Field → ℕ → A → A
unfolding each_field
each_message f fields dest_struct a =
    let start = pb_field_iter_begin fields dest_struct in
    let rest = each_field f (length fields) start.1 a in if start.0 then rest else a

-- `while (ext != NULL)`, in which `reset` is the recursive call.
unfoldable pub reset_extensions :
    (ℕ → List Field) → (Iter → Memory → Memory) → ℕ → ℕ → Memory → Memory
reset_extensions descriptors reset zero extension memory = memory
reset_extensions descriptors reset (suc links) extension memory =
    let unfound = write_byte memory (extension_found extension) 0 in
    let memory' = reset (iter_from_extension descriptors unfound extension) unfound in
    let rest =
      reset_extensions descriptors reset links (extension_next memory' extension) memory' in
    if extension == 0 then memory else rest

-- Where `init_data` is true.
abbrev pub init_data : (ℕ → List Field) → (Iter → Memory → Memory) → Field → ℕ → Memory → Memory
init_data descriptors reset field p_data memory =
    if ltype field == Ltype.submessage
    then each_message reset (descriptors field.ptr) p_data memory
    else if not (field.ptr == 0)
    then write_bytes memory p_data (load_bytes memory field.data_size field.ptr)
    else clear memory p_data field.data_size

-- The fuel bounds how deep submessages are nested and how long lists of extensions are.
unfoldable pub pb_field_set_to_default : (ℕ → List Field) → ℕ → Iter → Memory → Memory
unfolding reset_extensions each_message
pb_field_set_to_default descriptors zero iter memory = memory
pb_field_set_to_default descriptors (suc fuel) iter memory =
    let field = current iter in
    let reset = pb_field_set_to_default descriptors fuel in
    let counted = htype field == Htype.repeated || htype field == Htype.oneof in
    if ltype field == Ltype.extension
    then reset_extensions descriptors reset fuel (load_pointer memory iter.p_data) memory
    else if atype field == Atype.static
    then (if htype field == Htype.optional && not (iter.p_size == iter.p_data)
        then init_data descriptors reset field iter.p_data (write_byte memory iter.p_size 0)
        else if counted
        then write_integer memory 4 iter.p_size 0
        else init_data descriptors reset field iter.p_data memory)
    else if atype field == Atype.pointer
    then (let null = write_integer memory 8 iter.p_data 0 in
        if counted then write_integer null 4 iter.p_size 0 else null)
    else memory

-- By the address of the descriptor.
unfoldable pub pb_message_set_to_defaults : (ℕ → List Field) → ℕ → ℕ → ℕ → Memory → Memory
unfolding pb_field_set_to_default
pb_message_set_to_defaults descriptors fuel fields dest_struct memory =
    each_message (pb_field_set_to_default descriptors fuel) (descriptors fields) dest_struct memory
