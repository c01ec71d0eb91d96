-- ===== src/Nanopb/Decoder/OverflowRuns.antt =====
-- A packed list of two entries and a byte more than the sample structure has room for.
use fantasy_iq.Base.{
  ℕ, zero, suc, ◌+◌, false, none, [], ◌∷◌, ◌++◌, length, ◌≡◌, ◌≢◌, refl, arith, inl, inr,
}
use fantasy_iq.Nanopb.Error.{array_overflow, set_error}
use fantasy_iq.Nanopb.Wire.{varint, groups}
use fantasy_iq.Nanopb.Iterator.{pb_field_iter_begin, pb_field_iter_next}
use fantasy_iq.Nanopb.Iterator.Walk.{walk}
use fantasy_iq.Nanopb.Input.Buffer.{source}
use fantasy_iq.Nanopb.Machine.{load}
use fantasy_iq.Nanopb.Arrays.Packed.{entries_bytes, entry_address}
use fantasy_iq.Nanopb.FieldEncoders.Values.{scalar_bytes}
use fantasy_iq.Nanopb.Message.Encoding.{value_bytes, message_bytes}
use fantasy_iq.Nanopb.Decoder.Store.{with_memory}
use fantasy_iq.Nanopb.Decoder.Static.{decode_packed_array}
use fantasy_iq.Nanopb.Decoder.Stored.{IsHeld}
use fantasy_iq.Nanopb.Decoder.Complete.{decoders_of}
use fantasy_iq.Nanopb.Decoder.Kinds.{number-long}
use fantasy_iq.Nanopb.Decoder.Items.{stored_packed, IsCounted, ReadsItems}
use fantasy_iq.Nanopb.Decoder.ArrayOverflow.{decode_packed_array_overflow}
use fantasy_iq.Nanopb.Decoder.Nested.{moved_value}
use fantasy_iq.Nanopb.Decoder.Sendable.{entries-IsCounted, items-Reads}
use fantasy_iq.Nanopb.Decoder.Setup.{list, machine, platform, blank}
use fantasy_iq.Nanopb.Decoder.SetupPlaced.{outer-IsPlaced}
use fantasy_iq.Nanopb.Decoder.Outer.{outer-IsTransferable}

list-IsHeld_anywhere : (q : ℕ) → q ≢ 0 → IsHeld machine list q
list-IsHeld_anywhere q there = record {
  sized = record {
    width = λ h. inr (inr (inl refl));
    word = omega arith;
    array = λ h a n. absurd (omega arith);
  };
  static = refl;
  somewhere = there;
  scalar = inl (omega arith);
  ended = λ e. absurd (omega arith);
}

list-IsCounted :
    IsCounted list 8208 8204 (moved_value platform machine 1 list) (IsHeld machine list)
unfolding walk pb_field_iter_begin pb_field_iter_next
list-IsCounted =
    entries-IsCounted platform machine 1 2 4096 8192 24 outer-IsPlaced outer-IsTransferable 1
      (omega arith) refl ((outer-IsTransferable.3 1 (omega arith)).array refl)

list-ReadsItems :
    ReadsItems list 8208 8204
      (moved_value platform machine 1 list)
      (decoders_of platform 1 list)
      (value_bytes machine (message_bytes machine 1) list)
      (IsHeld machine list)
      list-IsCounted
      2
      0
      4112
unfolding entry_address
list-ReadsItems zero h = (
  list-IsHeld_anywhere 4112 (omega arith),
  items-Reads platform machine 1 list 4112 8208
      (inl (omega arith, list-IsHeld_anywhere 4112 (omega arith))) (omega arith),
)
list-ReadsItems (suc zero) h = (
  list-IsHeld_anywhere 4116 (omega arith),
  items-Reads platform machine 1 list 4116 8212
      (inl (omega arith, list-IsHeld_anywhere 4116 (omega arith))) (omega arith),
)
list-ReadsItems (suc (suc k)) h = absurd (omega arith)

content_length :
    length (entries_bytes (value_bytes machine (message_bytes machine 1) list) 4 2 4112 ++ (7 ∷ []))
    ≡ 11
unfolding entries_bytes value_bytes scalar_bytes load groups
content_length = refl

decode_packed_array_overflow_example :
    let content =
      entries_bytes (value_bytes machine (message_bytes machine 1) list) 4 2 4112 ++ (7 ∷ []) in
    decode_packed_array (decoders_of platform 1 list) list 8208 8204 blank (
      source
        (varint (length content) ++ (content ++ []))
        (length (varint (length content)) + (length content + 0))
        none)
    ≡ (
      false,
      (
        with_memory blank (
            stored_packed list 8208 8204
              (moved_value platform machine 1 list)
              2
              0
              4112
              blank.memory),
        source (content ++ []) 0 (set_error none array_overflow),
      ),
    )
unfolding load
decode_packed_array_overflow_example =
    let n =
      length
        (entries_bytes (value_bytes machine (message_bytes machine 1) list) 4 2 4112 ++ (7 ∷ [])) in
    decode_packed_array_overflow list 8208 8204 (moved_value platform machine 1 list)
      (decoders_of platform 1 list) (value_bytes machine (message_bytes machine 1) list)
      (IsHeld machine list) list-IsCounted 2 0 4112 (7 ∷ []) [] blank (length (varint n) + (n + 0))
      0 none
      (λ k h.
        number-long machine (message_bytes machine 1) list (entry_address 4 4112 k) (omega arith))
      list-ReadsItems refl refl (omega arith) (rw content_length (omega arith)) refl
