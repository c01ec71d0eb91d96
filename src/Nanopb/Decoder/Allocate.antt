-- ===== src/Nanopb/Decoder/Allocate.antt =====
-- allocate_field of nanopb/pb_decode.c.
use fantasy_iq.Base.{ℕ, ◌-◌, ◌*◌, ◌/◌, ◌%◌, ◌^◌, ◌==◌, ◌||◌, ◌&&◌, leb, ltb, if◌then◌else◌}
use fantasy_iq.Nanopb.Error.{invalid_size, size_too_large, realloc_failed}
use fantasy_iq.Nanopb.Output.{size_mod}
use fantasy_iq.Nanopb.Machine.{load_pointer}
use fantasy_iq.Nanopb.Input.{IStream}
use fantasy_iq.Nanopb.Decoder.Store.{
  Store, Decode, Outcome, Platform, with_memory, write_integer, done, fail,
}

module _ {H S : Type 0} (p : Platform H S) where
  -- `*(void**)pData = ptr`, if there is one.
  abbrev pub set_pointer : ℕ → ℕ × Store H → IStream S → Outcome H S
  set_pointer p_data (ptr, st) s =
      if ptr == 0
      then fail realloc_failed st s
      else done (with_memory st (write_integer st.memory 8 p_data ptr)) s

  unfoldable pub allocate_field : ℕ → ℕ → ℕ → Decode H S
  allocate_field p_data data_size array_size st s =
      let check_limit = 2 ^ 32 in
      if data_size == 0 || array_size == 0
      then fail invalid_size st s
      else if (leb check_limit data_size || leb check_limit array_size)
          && ltb ((size_mod - 1) / array_size) data_size
      then fail size_too_large st s
      else set_pointer p_data
          (p.realloc (load_pointer st.memory p_data) (array_size * data_size % size_mod) st) s
