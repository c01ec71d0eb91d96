-- ===== src/Nanopb/Decoder/Runs.antt =====
-- The message decoder on a message with a required and an optional number.
use fantasy_iq.Base.{
  ℕ, zero, suc, ◌+◌, ◌≤◌, ◌*◌, ◌^◌, ◌<◌, Bool, true, false, none, some, List, [], ◌∷◌, ◌++◌, length,
  ◌==◌, ltb, if◌then◌else◌, ◌≡◌, refl, arith, inl, inr, replicate, drop, ◌||◌, min, ◌↔◌,
}
use fantasy_iq.Nanopb.Error.{missing_required_field, size_too_large}
use fantasy_iq.Nanopb.Wire.{groups, little_endian}
use fantasy_iq.Nanopb.Output.Buffer.{pb_ostream_from_buffer}
use fantasy_iq.Nanopb.Iterator.{pb_field_iter_begin, pb_field_iter_next}
use fantasy_iq.Nanopb.Iterator.Walk.{walk, walk-IsAt, required_before}
use fantasy_iq.Nanopb.Iterator.Find.{wanted_at}
use fantasy_iq.Nanopb.Machine.{load_pointer}
use fantasy_iq.Nanopb.FieldEncoders.{encoder}
use fantasy_iq.Nanopb.FieldEncoders.Values.{scalar_bytes}
use fantasy_iq.Nanopb.Message.{pb_encode}
use fantasy_iq.Nanopb.Message.Encoding.{message_bytes}
use fantasy_iq.Nanopb.Input.Buffer.{source, pb_istream_from_buffer}
use fantasy_iq.Nanopb.Decoder.Store.{with_memory, write_integer, write_bytes, write_byte, fail}
use fantasy_iq.Nanopb.Decoder.Allocate.{allocate_field, set_pointer}
use fantasy_iq.Nanopb.Decoder.Product.{allocate_field-product}
use fantasy_iq.Nanopb.Decoder.Reset.{pb_message_set_to_defaults}
use fantasy_iq.Nanopb.Decoder.Message.{pb_decode, pb_decode_noinit}
use fantasy_iq.Nanopb.Decoder.Values.{decoder}
use fantasy_iq.Nanopb.Decoder.Static.{decode_static_field}
use fantasy_iq.Nanopb.Decoder.Required.{mark_seen, all_seen, required_field_count}
use fantasy_iq.Nanopb.Decoder.Keeps.{Keeps}
use fantasy_iq.Nanopb.Decoder.Safety.{Elsewhere}
use fantasy_iq.Nanopb.Decoder.Frame.{IsLaid, decoder-Elsewhere}
use fantasy_iq.Nanopb.Decoder.StaticFrame.{OutsideField, member, decode_static_field-OutsideField}
use fantasy_iq.Nanopb.Decoder.Count.{required_field_count-IsAt}
use fantasy_iq.Nanopb.Decoder.Stored.{copied, IsHeld, decoder-encoder}
use fantasy_iq.Nanopb.Decoder.Chunks.{
  Chunk, unknown, bytes_of, seen_of, chunk_seen, chunk_effect, IsUnknown, AreChunks,
}
use fantasy_iq.Nanopb.Decode.Skip.{string_payload}
use fantasy_iq.Nanopb.Decoder.ChunkBounds.{checked}
use fantasy_iq.Nanopb.Decoder.Complete.{
  IsReadable, nothing_seen, decoders_of, memory_after, pb_decode_noinit_complete,
  pb_decode_noinit_missing,
}
use fantasy_iq.Nanopb.Decoder.Seen.{AllBelow, words, marked, all_seen-AllBelow, mark_seen-marked}
use fantasy_iq.Nanopb.Decoder.Sent.{chunks_of, entry_chunks}
use fantasy_iq.Nanopb.Decoder.SentChunks.{chunks_of-AreChunks}
use fantasy_iq.Nanopb.Decoder.SentSeen.{seen_of-chunks_of}
use fantasy_iq.Nanopb.Decoder.Sendable.{fields-IsSendable}
use fantasy_iq.Nanopb.Decoder.Layout.{IsOpen}
use fantasy_iq.Nanopb.Decoder.Emptied.{defaults-IsOpen}
use fantasy_iq.Nanopb.Decoder.Defaults.{defaults-Outside}
use fantasy_iq.Nanopb.Decoder.Nested.{IsNested, IsTransferable, moved_value, moved_message}
use fantasy_iq.Nanopb.Decoder.Transfer.{pb_decode-pb_encode, pb_decode_noinit-Consumes}
use fantasy_iq.Nanopb.Machine.{load}
use fantasy_iq.Nanopb.Decoder.Numbers.{decoder-encoder_number}
use fantasy_iq.Nanopb.Decoder.SetupPlaced.{fields-IsPlaced, outer-IsPlaced}
use fantasy_iq.Nanopb.Decoder.Outer.{outer-IsTransferable, outer-IsMessage, outer_bytes}
use fantasy_iq.Nanopb.Decoder.Setup.{
  each-IsSent, word, fields, machine, platform, blank, fields-IsDescriptor, fields-HasNoExtensions,
  word-IsHeld, fields-IsTransferable,
}

pb_decode-pb_encode_example :
    let r = (pb_encode machine 2 2 4096 (pb_ostream_from_buffer (replicate 24 0) 20)).1 in
    let back = source r.state.memory r.bytes_written none in
    let left = drop {A = ℕ} (length (message_bytes machine 2 2 4096)) (replicate 24 0) in
    let reset = pb_message_set_to_defaults platform.descriptors 2 2 8192 blank.memory in
    pb_decode platform 2 2 8192 blank back ≡ (
      true,
      (with_memory blank (moved_message platform machine 2 2 4096 8192 reset), source left 0 none),
    )
pb_decode-pb_encode_example =
    pb_decode-pb_encode platform machine 2 2 4096 8192 24 blank (replicate 24 0) 20 (λ d. refl)
      outer-IsTransferable outer-IsPlaced outer-IsMessage (rw outer_bytes (omega arith))
      (omega arith) (omega arith)

-- An unknown field before a number and a word.
abbrev stranger : Chunk
stranger = unknown 9 2 (3 ∷ 65 ∷ 66 ∷ 67 ∷ [])

abbrev message : List Chunk
message =
    stranger
    ∷ chunks_of machine (message_bytes machine 0) (moved_value platform machine 0) fields 4096 8192
        2 0

stranger-IsUnknown :
    IsUnknown platform 1 (decoders_of platform 0) fields 8192 9 2 (3 ∷ 65 ∷ 66 ∷ 67 ∷ [])
unfolding groups
stranger-IsUnknown = record {
  positive = omega arith;
  small = omega arith;
  nowhere = no_nine;
  carried = string_payload (65 ∷ 66 ∷ 67 ∷ []) refl (omega arith) refl;
}
  where
    no_nine : (i : ℕ) → i < 2 → wanted_at fields 9 i ≡ false
    no_nine zero h = refl
    no_nine (suc zero) h = refl
    no_nine (suc (suc i)) h = absurd (omega arith)

blank-IsOpen : IsOpen platform 1 1 8192 (write_integer blank.memory 4 (platform.count_slot 1) 0)
unfolding walk pb_field_iter_begin pb_field_iter_next write_bytes write_byte little_endian
blank-IsOpen zero h =
    (λ e. absurd (omega arith), λ e n. absurd (omega arith), λ e n. absurd (omega arith))
blank-IsOpen (suc zero) h = (λ e. absurd (omega arith), λ e n. absurd (omega arith), λ e n. refl)
blank-IsOpen (suc (suc j)) h = absurd (omega arith)

-- What was sent of the last entries.
last-AreChunks :
    (n k : ℕ)
    → n + k ≤ 2
    → AreChunks platform 1
        (decoders_of platform 0)
        fields
        8192
        (write_integer blank.memory 4 (platform.count_slot 1) 0)
        (chunks_of machine
          (message_bytes machine 0)
          (moved_value platform machine 0)
          fields
          4096
          8192
          n
          k)
last-AreChunks n k h =
    chunks_of-AreChunks machine (message_bytes machine 0) (moved_value platform machine 0)
      (IsNested platform machine (IsTransferable platform machine 0) (message_bytes machine 0))
      (IsHeld machine) (IsOpen platform 0) fields 4096 8192 platform 1 (decoders_of platform 0)
      fields-IsDescriptor
      (fields-IsSendable platform machine 0 1 4096 8192 12
        (pb_decode_noinit-Consumes platform machine (λ d. refl) 0) fields-IsPlaced
        fields-IsTransferable)
      n k (write_integer blank.memory 4 (platform.count_slot 1) 0) h each-IsSent
      (λ j lo hi. blank-IsOpen j hi)

message-IsReadable : IsReadable platform 1 (decoders_of platform 0) 1 8192 blank.memory message
unfolding chunk_effect
message-IsReadable = record {
  entries = fields-IsDescriptor;
  plain = fields-HasNoExtensions;
  some_entry = omega arith;
  chunks = (stranger-IsUnknown, last-AreChunks 2 0 (omega arith));
}

message_seen : AllBelow (checked fields) (seen_of fields message nothing_seen)
unfolding seen_of chunk_seen required_before
message_seen =
    seen_of-chunks_of machine (message_bytes machine 0) (moved_value platform machine 0) fields 4096
      8192 2 0 nothing_seen (λ i lo. absurd (omega arith))

pb_decode_noinit_complete_example :
    pb_decode_noinit platform 1 1 8192 blank
      (source (bytes_of fields message ++ (0xFF ∷ [])) (length (bytes_of fields message)) none)
    ≡ (
      true,
      (
        with_memory blank
            (memory_after platform 1 (decoders_of platform 0) 1 8192 message blank.memory),
        source (0xFF ∷ []) 0 none,
      ),
    )
pb_decode_noinit_complete_example =
    pb_decode_noinit_complete platform 0 1 8192 message blank (0xFF ∷ [])
      (length (bytes_of fields message)) none message-IsReadable message_seen refl

-- The optional word without the required number.
abbrev incomplete : List Chunk
incomplete =
    stranger
    ∷ chunks_of machine (message_bytes machine 0) (moved_value platform machine 0) fields 4096 8192
        1 1

incomplete-IsReadable :
    IsReadable platform 1 (decoders_of platform 0) 1 8192 blank.memory incomplete
unfolding chunk_effect
incomplete-IsReadable = record {
  entries = fields-IsDescriptor;
  plain = fields-HasNoExtensions;
  some_entry = omega arith;
  chunks = (stranger-IsUnknown, last-AreChunks 1 1 (omega arith));
}

incomplete_seen : seen_of fields incomplete nothing_seen 0 ≡ false
unfolding seen_of chunk_seen required_before chunks_of entry_chunks load walk pb_field_iter_begin
    pb_field_iter_next
incomplete_seen = refl

pb_decode_noinit_missing_example :
    let o =
      pb_decode_noinit platform 1 1 8192 blank
        (source (bytes_of fields incomplete ++ []) (length (bytes_of fields incomplete)) none) in
    (o.0 ≡ false) × (o.1.1 ≡ source [] 0 (some missing_required_field))
unfolding required_before
pb_decode_noinit_missing_example =
    pb_decode_noinit_missing platform 0 1 8192 incomplete blank []
      (length (bytes_of fields incomplete)) 0 incomplete-IsReadable (omega arith) incomplete_seen
      refl

decoder-encoder_example :
    let r =
      (encoder machine
        (pb_encode machine 0)
        word
        4104
        (pb_ostream_from_buffer (replicate 6 0) 5)).1 in
    let back = pb_istream_from_buffer r.state.memory r.bytes_written in
    let left = drop {A = ℕ} (length (scalar_bytes machine word 4104)) (replicate 6 0) in
    decoder platform (pb_decode platform 0) (pb_decode_noinit platform 0) word 8192 blank back ≡ (
      true,
      (with_memory blank (copied machine.memory word 4104 8192 blank.memory), source left 0 none),
    )
unfolding scalar_bytes little_endian
decoder-encoder_example =
    decoder-encoder platform (pb_decode platform 0) (pb_decode_noinit platform 0) machine
      (pb_encode machine 0) word 4104 8192 blank (replicate 6 0) 5 word-IsHeld (omega arith)
      (omega arith) (omega arith)

word-IsLaid : IsLaid word
word-IsLaid = record {
  static = refl;
  scalar = inr (inr (inr (inl refl)));
  four = λ e. refl;
  eight = λ e. absurd (omega arith);
}

decoder-Elsewhere_example :
    Keeps
      (Elsewhere word 8200)
      (decoder platform (pb_decode platform 0) (pb_decode_noinit platform 0) word 8200)
decoder-Elsewhere_example =
    decoder-Elsewhere platform (pb_decode platform 0) (pb_decode_noinit platform 0) word 8200
      word-IsLaid (omega arith)

decode_static_field-OutsideField_example : Keeps (OutsideField (walk fields 8192 1)) (
    decode_static_field platform 1
      (decoder platform (pb_decode platform 0) (pb_decode_noinit platform 0))
      5
      (walk fields 8192 1))
unfolding walk pb_field_iter_begin pb_field_iter_next member
decode_static_field-OutsideField_example =
    decode_static_field-OutsideField platform 1 (pb_decode platform 0) (pb_decode_noinit platform 0)
      5 (walk fields 8192 1) word-IsLaid (omega arith) (omega arith) (omega arith)

-- The required fields 0 and 33 of 34.
abbrev two_seen : ℕ → Bool
two_seen i = i == 0 || i == 33

all_seen-AllBelow_example : (all_seen 1 (words (λ i. i == 0)) ≡ true) ↔ AllBelow 1 (λ i. i == 0)
all_seen-AllBelow_example =
    all_seen-AllBelow 1 (λ i. i == 0) (omega arith) (λ i lo hi. ground arith)

mark_seen-marked_example : mark_seen 40 (words two_seen) ≡ words (marked 40 two_seen)
mark_seen-marked_example = mark_seen-marked 40 two_seen (omega arith)

required_field_count-IsAt_example :
    required_field_count (walk fields 8192 1) ≡ min 64 (required_before fields (length fields))
required_field_count-IsAt_example =
    required_field_count-IsAt fields 8192 1 (walk fields 8192 1) fields-IsDescriptor (omega arith)
      (walk-IsAt fields 8192 1 fields-IsDescriptor (omega arith))

allocate_field-product_example :
    allocate_field platform 8192 (2 ^ 32) (2 ^ 32) blank (source [] 0 none) ≡ (
      if ltb (2 ^ 32 * 2 ^ 32) (2 ^ 64)
      then set_pointer platform 8192
          (platform.realloc (load_pointer blank.memory 8192) (2 ^ 32 * 2 ^ 32) blank)
          (source [] 0 none)
      else fail size_too_large blank (source [] 0 none))
allocate_field-product_example =
    allocate_field-product platform 8192 (2 ^ 32) (2 ^ 32) blank (source [] 0 none) (omega arith)
      (omega arith)

decoder-encoder_number_example :
    let r =
      (encoder machine
        (pb_encode machine 0)
        word
        4104
        (pb_ostream_from_buffer (replicate 6 0) 5)).1 in
    let back = pb_istream_from_buffer r.state.memory r.bytes_written in
    let after =
      (decoder platform
        (pb_decode platform 0)
        (pb_decode_noinit platform 0)
        word
        8192
        blank
        back).1.0.memory in
    load after 4 8192 ≡ load machine.memory 4 4104
unfolding scalar_bytes little_endian
decoder-encoder_number_example =
    decoder-encoder_number platform (pb_decode platform 0) (pb_decode_noinit platform 0) machine
      (pb_encode machine 0) word 4104 8192 blank (replicate 6 0) 5 word-IsHeld (omega arith)
      (omega arith) (omega arith) (omega arith) (λ e. refl) (λ e. absurd (omega arith))
      (omega arith)

defaults-IsOpen_example :
    IsOpen platform 2 2 8192
      (pb_message_set_to_defaults platform.descriptors 2 2 8192 machine.memory)
defaults-IsOpen_example = defaults-IsOpen platform 2 2 8192 24 machine.memory outer-IsPlaced

defaults-Outside_example :
    pb_message_set_to_defaults platform.descriptors 2 2 8192 machine.memory 8216 ≡ 24
defaults-Outside_example =
    defaults-Outside platform 2 2 8192 24 8216 machine.memory outer-IsPlaced (inr (omega arith))
