-- ===== src/Nanopb/Decoder/ReleasedRuns.antt =====
-- A structure with a string and an array of numbers, both of them pointers.
use fantasy_iq.Base.{
  ℕ, zero, suc, ◌+◌, ◌-◌, ◌*◌, ◌^◌, ◌<◌, false, none, List, [], ◌∷◌, ◌≡◌, ◌≢◌, refl, arith, inr,
}
use fantasy_iq.Nanopb.Field.{Field, ltype, htype, atype}
use fantasy_iq.Nanopb.Iterator.{
  field_at, pb_field_iter_begin, pb_field_iter_next, pb_field_iter_find, find_rounds,
}
use fantasy_iq.Nanopb.Iterator.Walk.{walk, IsDescriptor}
use fantasy_iq.Nanopb.Input.Buffer.{source}
use fantasy_iq.Nanopb.Decoder.Store.{Platform, done}
use fantasy_iq.Nanopb.Decoder.Message.{
  pb_decode, pb_decode_noinit, decode_with, decode_fields, message_rounds,
}
use fantasy_iq.Nanopb.Decoder.Reset.{each_message}
use fantasy_iq.Nanopb.Decoder.Release.{pb_release}
use fantasy_iq.Nanopb.Decoder.Pointers.{IsOwned, IsReleased, IsSlot}
use fantasy_iq.Nanopb.Decoder.Memory.{Outside}
use fantasy_iq.Nanopb.Decoder.Layout.{value_at, count_at}
use fantasy_iq.Nanopb.Decoder.Store.{Store}
use fantasy_iq.Nanopb.Decoder.Released.{pb_release-IsReleased, pb_decode_failed}
use fantasy_iq.Nanopb.Decoder.Reset.{
  pb_message_set_to_defaults, pb_field_set_to_default, each_field,
}
use fantasy_iq.Nanopb.Decoder.Required.{
  mark_seen, all_seen, whole_words, seek_end, required_field_count,
}
use fantasy_iq.Nanopb.Decoder.Store.{write_byte, write_bytes, clear}
use fantasy_iq.Nanopb.Decode.{
  pb_decode_tag, pb_decode_varint32_eof, varint32_rounds, add_byte32, pb_decode_varint32,
}
use fantasy_iq.Nanopb.Input.{pb_read, pb_readbyte, read_bytes}

-- struct { char *name; pb_size_t numbers_count; uint32_t *numbers; }
abbrev pointers : List Field
pointers =
    record {
      tag = 1;
      type_code = 0x86;
      data_offset = 0;
      size_offset = 0;
      data_size = 1;
      array_size = 0;
      ptr = 0;
    }
    ∷ record {
      tag = 2;
      type_code = 0xA1;
      data_offset = 8;
      size_offset = 2 ^ 32 - 8;
      data_size = 4;
      array_size = 0;
      ptr = 0;
    }
    ∷ []

abbrev owner : Platform (Unit {0}) (List ℕ)
owner = record {
  descriptors = λ d. pointers;
  realloc = λ ptr size st. (0, st);
  free = λ ptr st. st;
  call_decode = λ funcs field arg. done;
  call_decode_scalar = λ funcs field arg. done;
  call_extension = λ function extension tag wire_type. done;
  count_slot = λ depth. 65536 + 4 * depth;
  undefined = done;
}

from_name :
    (i q : ℕ)
    → i < 2
    → i ≢ 0
    → IsSlot pointers 4096 i q
    → Outside (value_at pointers 4096 0) 8 q
      × (htype (field_at pointers 0) ≡ 0x20 → Outside (count_at pointers 4096 0) 4 q)
unfolding walk pb_field_iter_begin pb_field_iter_next
from_name zero q hi other slot = absurd (omega arith)
from_name (suc zero) q hi other slot = (ground arith, λ e. absurd (omega arith))
from_name (suc (suc i)) q hi other slot = absurd (omega arith)

from_numbers :
    (i q : ℕ)
    → i < 2
    → i ≢ 1
    → IsSlot pointers 4096 i q
    → Outside (value_at pointers 4096 1) 8 q
      × (htype (field_at pointers 1) ≡ 0x20 → Outside (count_at pointers 4096 1) 4 q)
unfolding walk pb_field_iter_begin pb_field_iter_next
from_numbers zero q hi other slot = (ground arith, λ e. ground arith)
from_numbers (suc zero) q hi other slot = absurd (omega arith)
from_numbers (suc (suc i)) q hi other slot = absurd (omega arith)

each-IsOwned : (j : ℕ) → j < 2 → atype (field_at pointers j) ≡ 0x80 → IsOwned pointers 4096 j
unfolding walk pb_field_iter_begin pb_field_iter_next
each-IsOwned zero h pointer = record {
  alone = omega arith;
  no_message = omega arith;
  no_extension = omega arith;
  plain = λ e. absurd (omega arith);
  word = omega arith;
  count_word = omega arith;
  own = λ e. absurd (omega arith);
  apart = from_name;
}
each-IsOwned (suc zero) h pointer = record {
  alone = omega arith;
  no_message = omega arith;
  no_extension = omega arith;
  plain = λ e. (omega arith, omega arith);
  word = omega arith;
  count_word = omega arith;
  own = λ e. inr (omega arith);
  apart = from_numbers;
}
each-IsOwned (suc (suc j)) h pointer = absurd (omega arith)

none-other :
    (j : ℕ)
    → j < 2
    → atype (field_at pointers j) ≢ 0x80
    → (ltype (field_at pointers j) ≢ 7) × (ltype (field_at pointers j) ≢ 8)
none-other zero h pointer = (omega arith, omega arith)
none-other (suc zero) h pointer = (omega arith, omega arith)
none-other (suc (suc j)) h pointer = absurd (omega arith)

abbrev blank : Store (Unit {0})
blank = record { memory = λ p. 0xFF; heap = tt }

pointers-IsDescriptor : IsDescriptor pointers
pointers-IsDescriptor = (ground arith, (ground arith, tt))

pb_release-IsReleased_example : IsReleased pointers 4096 1 (pb_release owner 1 3 4096 blank)
pb_release-IsReleased_example =
    pb_release-IsReleased owner 3 4096 pointers-IsDescriptor each-IsOwned none-other
      (λ j q ptr st h slot. refl) (omega arith) 0 blank 1 (omega arith) refl

-- The name is required, and the message is empty.
empty-fails : (pb_decode owner 1 3 4096 blank (source [] 0 none)).0 ≡ false
unfolding pb_decode decode_with pb_decode_noinit decode_fields message_rounds pb_field_iter_begin
    pb_field_iter_next pb_field_iter_find find_rounds all_seen whole_words seek_end
    required_field_count pb_message_set_to_defaults each_message each_field pb_field_set_to_default
    pb_decode_tag pb_decode_varint32_eof varint32_rounds add_byte32 pb_decode_varint32 pb_read
    pb_readbyte read_bytes write_byte write_bytes clear mark_seen
empty-fails = refl

pb_decode_failed_example :
    IsReleased pointers 4096 1 (pb_decode owner 1 3 4096 blank (source [] 0 none)).1.0
pb_decode_failed_example =
    pb_decode_failed owner 3 4096 pointers-IsDescriptor each-IsOwned none-other
      (λ j q ptr st h slot. refl) (omega arith) 0 blank (source [] 0 none) 1 (omega arith) refl
      empty-fails
