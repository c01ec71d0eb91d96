-- ===== src/Nanopb/Decoder/Complete.antt =====
-- pb_decode_noinit (nanopb/pb_decode.c) on whole messages.
use fantasy_iq.Base.{
  ℕ, suc, ◌<◌, Bool, true, false, Option, none, some, List, length, if◌then◌else◌, ◌≡◌, refl, arith,
  inl, inr, Bool-cases, ◌∙◌, ap, ◌++◌,
}
use fantasy_iq.Nanopb.Error.{Error, set_error, missing_required_field}
use fantasy_iq.Nanopb.Field.{Field}
use fantasy_iq.Nanopb.Iterator.Walk.{IsDescriptor, walk, walk-IsAt}
use fantasy_iq.Nanopb.Input.Buffer.{source}
use fantasy_iq.Nanopb.Decoder.Store.{Memory, Store, Decode, Platform, with_memory, write_integer}
use fantasy_iq.Nanopb.Decoder.Values.{decoder}
use fantasy_iq.Nanopb.Decoder.Required.{all_seen}
use fantasy_iq.Nanopb.Decoder.Message.{
  Progress, message_rounds, decode_fields, finish_message, start_of, decode_with, pb_decode_noinit,
}
use fantasy_iq.Nanopb.Decoder.Seen.{words, word, AllBelow, all_seen-AllBelow}
use fantasy_iq.Nanopb.Decoder.Count.{required_field_count-IsAt}
use fantasy_iq.Nanopb.Decoder.Extensions.{HasNoExtensions}
use fantasy_iq.Nanopb.Decoder.Chunks.{
  Chunk, bytes_of, effect_of, seen_of, position_of, range_of, AreChunks, at_entry,
}
use fantasy_iq.Nanopb.Decoder.Loop.{message_rounds-bytes_of}
use fantasy_iq.Nanopb.Decoder.ChunkBounds.{
  checked, seen_of-NoneFrom, position_of-lt, length-bytes_of,
}

-- Before the first chunk no required field was seen.
abbrev pub nothing_seen : ℕ → Bool
nothing_seen i = false

module _ {H : Type 0} (p : Platform H (List ℕ)) (fuel : ℕ)
    (decoders : Field → ℕ → Decode H (List ℕ)) (message dest : ℕ) where
  -- What is known of a message before it is read, and memory.
  pub record IsReadable (memory : Memory) (cs : List Chunk) : Type 0 where
    pub entries : IsDescriptor (p.descriptors message)
    pub plain : HasNoExtensions (p.descriptors message)
    pub some_entry : 0 < length (p.descriptors message)
    pub chunks :
        AreChunks p fuel decoders
          (p.descriptors message)
          dest
          (write_integer memory 4 (p.count_slot fuel) 0)
          cs

  -- Memory behind the loop: `fixed_count_size` was set to 0 before.
  abbrev pub memory_after : List Chunk → Memory → Memory
  memory_after cs memory = effect_of cs (write_integer memory 4 (p.count_slot fuel) 0)

  starts :
      start_of p fuel decoders message dest
      ≡ at_entry p fuel decoders (p.descriptors message) dest 0 nothing_seen 0
  unfolding walk words word
  starts = refl

  -- The two checks, at any entry.
  finishes :
      (k x : ℕ) (f : ℕ → Bool) (st : Store H) (tail : List ℕ) (e : Option Error)
      → IsDescriptor (p.descriptors message)
      → k < length (p.descriptors message)
      → finish_message p fuel decoders (
        some (at_entry p fuel decoders (p.descriptors message) dest k f x),
        (st, source tail 0 e),
      )
        ≡ (if all_seen (checked (p.descriptors message)) (words f)
            then (true, (st, source tail 0 e))
            else (false, (st, source tail 0 (set_error e missing_required_field))))
  finishes k x f st tail e d inside =
      let fields = p.descriptors message in
      let now = walk-IsAt fields dest k d inside in
      let count = required_field_count-IsAt fields dest k (walk fields dest k) d inside now in
      rw count (elim (Bool-cases (all_seen (checked fields) (words f))) [
        | inl whole ↦ rw whole refl
        | inr gap ↦ rw gap refl
      ])

  pub decode_fields-bytes_of :
      (cs : List Chunk) (st : Store H) (tail : List ℕ) (m : ℕ) (e : Option Error)
      → IsReadable st.memory cs
      → m ≡ length (bytes_of (p.descriptors message) cs)
      → decode_fields p fuel decoders message dest st
          (source (bytes_of (p.descriptors message) cs ++ tail) m e)
        ≡ (if all_seen
              (checked (p.descriptors message))
              (words (seen_of (p.descriptors message) cs nothing_seen))
            then (true, (with_memory st (memory_after cs st.memory), source tail 0 e))
            else (
              false,
              (
                with_memory st (memory_after cs st.memory),
                source tail 0 (set_error e missing_required_field),
              ),
            ))
  unfolding decode_fields
  decode_fields-bytes_of cs st tail m e is size =
      let fields = p.descriptors message in
      let st' = with_memory st (write_integer st.memory 4 (p.count_slot fuel) 0) in
      let k = position_of cs 0 in
      let inside =
        position_of-lt p fuel decoders fields dest st'.memory cs 0 is.chunks is.some_entry in
      let loop =
        message_rounds-bytes_of p fuel decoders fields dest is.entries cs tail m 0 0 m nothing_seen
          st' e is.plain is.chunks is.some_entry (omega (arith, size, length-bytes_of fields cs))
          size in
      ap
        (λ (q : Progress).
          finish_message p fuel decoders
            (message_rounds p fuel decoders m q st' (source (bytes_of fields cs ++ tail) m e)))
        starts
      ∙ ap (finish_message p fuel decoders) loop
      ∙ finishes k (range_of cs 0) (seen_of fields cs nothing_seen)
          (with_memory st (memory_after cs st.memory)) tail e is.entries inside

-- PB_DECODERS in a pb_decode_noinit that may nest `fuel` deep.
abbrev pub decoders_of : {H : Type 0} → Platform H (List ℕ) → ℕ → Field → ℕ → Decode H (List ℕ)
decoders_of p fuel =
    decoder p (decode_with p fuel (pb_decode_noinit p fuel)) (pb_decode_noinit p fuel)

-- A message whose fields stand in any order and any number of times, between fields with tags that
-- no entry has, of a descriptor with entries, none of which is an extension, all tags being below
-- 2 ^ 29. Its known fields are of entries with tags of their own, not of arrays without a count in
-- the structure, and are such that decode_field takes their payload and has a certain effect on
-- memory as the fields before have left it; the payload of an unknown field is well-formed for its
-- wire type. Such a message is decoded successfully if every required entry, of the first 64, is
-- in it: all of its bytes are used up, each known field had its effect on memory, one after the
-- other, and the unknown fields had none.
pub pb_decode_noinit_complete :
    {H : Type 0} (p : Platform H (List ℕ)) (fuel message dest : ℕ) (cs : List Chunk) (st : Store H)
    (tail : List ℕ) (m : ℕ) (e : Option Error)
    → IsReadable p (suc fuel) (decoders_of p fuel) message dest st.memory cs
    → AllBelow (checked (p.descriptors message)) (seen_of (p.descriptors message) cs nothing_seen)
    → m ≡ length (bytes_of (p.descriptors message) cs)
    → pb_decode_noinit p
        (suc fuel)
        message
        dest
        st
        (source (bytes_of (p.descriptors message) cs ++ tail) m e)
      ≡ (
        true,
        (
          with_memory st (memory_after p (suc fuel) (decoders_of p fuel) message dest cs st.memory),
          source tail 0 e,
        ),
      )
unfolding pb_decode_noinit
pb_decode_noinit_complete p fuel message dest cs st tail m e is all size =
    let fields = p.descriptors message in
    let seen = seen_of fields cs nothing_seen in
    let beyond =
      seen_of-NoneFrom p (suc fuel) (decoders_of p fuel) fields dest
        (write_integer st.memory 4 (p.count_slot (suc fuel)) 0) cs nothing_seen is.chunks
        (λ i lo hi. refl) in
    let (to, from) = all_seen-AllBelow (checked fields) seen (omega arith) beyond in
    decode_fields-bytes_of p (suc fuel) (decoders_of p fuel) message dest cs st tail m e is size
    ∙ rw (from all) refl

-- A message whose fields stand in any order and any number of times, between fields with tags that
-- no entry has, of a descriptor with entries, none of which is an extension, all tags being below
-- 2 ^ 29. Its known fields are of entries with tags of their own, not of arrays without a count in
-- the structure, and are such that decode_field takes their payload and has a certain effect on
-- memory as the fields before have left it; the payload of an unknown field is well-formed for its
-- wire type. If one of the first 64 required entries does not occur in such a message, it is read
-- to its end and refused with "missing required field".
pub pb_decode_noinit_missing :
    {H : Type 0} (p : Platform H (List ℕ)) (fuel message dest : ℕ) (cs : List Chunk) (st : Store H)
    (tail : List ℕ) (m r : ℕ)
    → IsReadable p (suc fuel) (decoders_of p fuel) message dest st.memory cs
    → r < checked (p.descriptors message)
    → seen_of (p.descriptors message) cs nothing_seen r ≡ false
    → m ≡ length (bytes_of (p.descriptors message) cs)
    → let o =
        pb_decode_noinit p
          (suc fuel)
          message
          dest
          st
          (source (bytes_of (p.descriptors message) cs ++ tail) m none) in
      (o.0 ≡ false) × (o.1.1 ≡ source tail 0 (some missing_required_field))
unfolding pb_decode_noinit
pb_decode_noinit_missing p fuel message dest cs st tail m r is small gap size =
    let fields = p.descriptors message in
    let seen = seen_of fields cs nothing_seen in
    let beyond =
      seen_of-NoneFrom p (suc fuel) (decoders_of p fuel) fields dest
        (write_integer st.memory 4 (p.count_slot (suc fuel)) 0) cs nothing_seen is.chunks
        (λ i lo hi. refl) in
    let (to, from) = all_seen-AllBelow (checked fields) seen (omega arith) beyond in
    let refused : all_seen (checked fields) (words seen) ≡ false =
      elim (Bool-cases (all_seen (checked fields) (words seen))) [
        | inl whole ↦ absurd (ground (arith, to whole r small, gap))
        | inr e ↦ e
      ] in
    rw
      (
        decode_fields-bytes_of p (suc fuel) (decoders_of p fuel) message dest cs st tail m none is
            size,
        refused,
      )
      (refl, refl)
