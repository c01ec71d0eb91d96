-- ===== src/Nanopb/Decoder/Transfer.antt =====
-- From a structure through pb_encode (nanopb/pb_encode.c) and pb_decode (nanopb/pb_decode.c) to
-- another structure.
use fantasy_iq.Base.{
  ℕ, zero, suc, ◌^◌, ◌<◌, ◌≤◌, true, none, List, ◌++◌, length, drop, ◌≡◌, refl, sym, arith, ap, ◌∙◌,
}
use mathlib.Core.Path.{subst}
use fantasy_iq.Nanopb.Field.{Field}
use fantasy_iq.Nanopb.Output.Buffer.{Buffer, pb_ostream_from_buffer}
use fantasy_iq.Nanopb.Input.Buffer.{source}
use fantasy_iq.Nanopb.Machine.{Machine}
use fantasy_iq.Nanopb.Message.{pb_encode}
use fantasy_iq.Nanopb.Message.Encoding.{message_bytes, IsMessage}
use fantasy_iq.Nanopb.Message.Buffers.{pb_encode-pb_ostream_from_buffer}
use fantasy_iq.Nanopb.Decoder.Store.{Store, Memory, Platform, with_memory, write_integer}
use fantasy_iq.Nanopb.Decoder.Reset.{pb_message_set_to_defaults}
use fantasy_iq.Nanopb.Decoder.Message.{decode_with, pb_decode_noinit, pb_decode, or_release}
use fantasy_iq.Nanopb.Decoder.Words.{write_integer-Outside}
use fantasy_iq.Nanopb.Decoder.Stored.{IsHeld}
use fantasy_iq.Nanopb.Decoder.Layout.{IsPlaced, IsOpen, IsOpen-ext}
use fantasy_iq.Nanopb.Decoder.Emptied.{defaults-IsOpen}
use fantasy_iq.Nanopb.Decoder.Chunks.{bytes_of}
use fantasy_iq.Nanopb.Decoder.Complete.{IsReadable, decoders_of, pb_decode_noinit_complete}
use fantasy_iq.Nanopb.Decoder.Sent.{chunks_of, IsSent}
use fantasy_iq.Nanopb.Decoder.SentChunks.{chunks_of-AreChunks}
use fantasy_iq.Nanopb.Decoder.SentSeen.{all_sent}
use fantasy_iq.Nanopb.Decoder.Sendable.{ReadsMessages, fields-IsSendable}
use fantasy_iq.Nanopb.Decoder.Nested.{
  moved_message, moved_value, IsNested, IsTransferable, fields_bytes-chunks_of,
}

module _ {H S : Type 0} (p : Platform H (List ℕ)) (m : Machine S)
    (same : (d : ℕ) → p.descriptors d ≡ m.descriptors d) where
  message_of_chunks :
      (IsCarried : Field → ℕ → ℕ → Type 0) (move : Field → ℕ → ℕ → Memory → Memory)
      (message src dest depth : ℕ)
      → ((j : ℕ)
          → j < length (m.descriptors message)
          → IsSent m (message_bytes m depth) IsCarried (m.descriptors message) src dest j)
      → message_bytes m (suc depth) message src
        ≡ bytes_of (m.descriptors message) (
            chunks_of m
              (message_bytes m depth)
              move
              (m.descriptors message)
              src
              dest
              (length (m.descriptors message))
              0)
  unfolding message_bytes
  message_of_chunks IsCarried move message src dest depth each =
      fields_bytes-chunks_of m (message_bytes m depth) move (m.descriptors message) src dest
        IsCarried (suc depth) (length (m.descriptors message)) 0 (omega arith) each

  -- A message that can be sent is read completely, and its values are stored.
  pub pb_decode_noinit-Consumes : (depth : ℕ) → ReadsMessages p m depth
  unfolding moved_message
  pb_decode_noinit-Consumes zero message src dest size memory placed can before st tail k e at
        total =
      absurd can
  pb_decode_noinit-Consumes (suc depth) message src dest size memory placed (d, plain, some, each)
        before st tail k e at total =
      let fields = p.descriptors message in
      let n = length fields in
      let move = moved_value p m depth in
      let sub = message_bytes m depth in
      let cs = chunks_of m sub move fields src dest n 0 in
      let IsCarried = IsNested p m (IsTransferable p m depth) sub in
      let bytes : message_bytes m (suc depth) message src ≡ bytes_of fields cs =
        rw (sym (same message)) at (
          message_of_chunks IsCarried move message src dest depth (rw (sym (same message)) each)) in
      let (slot_word, slot) = placed.2 (suc depth) (omega arith) in
      let counted = write_integer st.memory 4 (p.count_slot (suc depth)) 0 in
      let ready : IsOpen p (suc depth) message dest counted =
        IsOpen-ext p (suc depth) message dest size st.memory counted placed
          (λ q lo hi. sym (
            write_integer-Outside st.memory 4 (p.count_slot (suc depth)) 0 q slot_word
              (ground arith)))
          (subst (λ t. IsOpen p (suc depth) message dest t) (sym at) before) in
      let is : IsReadable p (suc depth) (decoders_of p depth) message dest st.memory cs = record {
        entries = d;
        plain = plain;
        some_entry = some;
        chunks =
            chunks_of-AreChunks m sub move IsCarried (IsHeld m) (IsOpen p depth) fields src dest p
              (suc depth) (decoders_of p depth) d
              (fields-IsSendable p m depth message src dest size (pb_decode_noinit-Consumes depth)
                placed (d, plain, some, each))
              n 0 counted (omega arith) each (λ j lo hi. ready j hi);
      } in
      let all = all_sent m sub move fields src dest in
      ap (λ (t : List ℕ). pb_decode_noinit p (suc depth) message dest st (source (t ++ tail) k e))
        bytes
      ∙ pb_decode_noinit_complete p depth message dest cs st tail k e is all
          (total ∙ ap length bytes)

-- A message of required fields, of optional fields with has_ flags and of counted arrays, all inside
-- their structures, whose values are scalars or, outside arrays, again such messages, nested less
-- than `depth` deep: each field has a tag of its own below 2 ^ 29, numbers have the sizes of C types,
-- byte arrays and strings fit their arrays, arrays have room for their entries, and submessages and
-- packed arrays have 32-bit lengths. The fields of the structure of `struct_size` bytes at `dest` lie
-- apart from each other and from the variables `fixed_count_size`. If `pb_encode` can write the
-- structure at `src` into a buffer with room for its bytes, `pb_decode` reads it back from the bytes
-- written: it returns true, uses these bytes up, and stores in the structure at `dest`, which it
-- first sets to its default values, each value that was sent, in the order of the descriptors, with
-- its has_ flag or its count; it writes nothing else but the counter `fixed_count_size` of each
-- message.
pub pb_decode-pb_encode :
    {H : Type 0} (p : Platform H (List ℕ)) (m : Machine Buffer)
    (depth message src dest struct_size : ℕ) (st : Store H) (buf : List ℕ) (size : ℕ)
    → ((d : ℕ) → p.descriptors d ≡ m.descriptors d)
    → IsTransferable p m depth message src dest
    → IsPlaced p depth message dest struct_size
    → IsMessage m depth message src
    → length (message_bytes m depth message src) ≤ size
    → size ≤ length buf
    → size < 2 ^ 64
    → let r = (pb_encode m depth message src (pb_ostream_from_buffer buf size)).1 in
      let back = source r.state.memory r.bytes_written none in
      let left = drop (length (message_bytes m depth message src)) buf in
      let reset = pb_message_set_to_defaults p.descriptors depth message dest st.memory in
      pb_decode p depth message dest st back ≡ (
        true,
        (with_memory st (moved_message p m depth message src dest reset), source left 0 none),
      )
unfolding pb_decode decode_with
pb_decode-pb_encode p m depth message src dest struct_size st buf size same can placed ok fits
      inside word =
    let bs = message_bytes m depth message src in
    let left = drop (length bs) buf in
    let reset = pb_message_set_to_defaults p.descriptors depth message dest st.memory in
    let (done, memory, count) =
      pb_encode-pb_ostream_from_buffer m depth message src buf size ok fits inside word in
    rw (memory, count)
      (ap (or_release p depth message dest) (
        pb_decode_noinit-Consumes p m same depth message src dest struct_size reset placed can
          (defaults-IsOpen p depth message dest struct_size st.memory placed) (with_memory st reset)
          left (length bs) none refl refl))
