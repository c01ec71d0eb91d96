-- ===== src/Nanopb/Decoder/Loop.antt =====
-- The loop of pb_decode_noinit (nanopb/pb_decode.c) on a message.
use fantasy_iq.Base.{
  ℕ, zero, suc, ◌+◌, ◌-◌, ◌*◌, ◌^◌, ◌<◌, ◌≤◌, Bool, true, false, ◌&&◌, ◌||◌, Option, some, List, [],
  ◌∷◌, ◌++◌, length, ltb, ◌==◌, if◌then◌else◌, ◌≡◌, refl, arith, append_assoc, length-append, inl,
  inr, Bool-cases, ◌∙◌, ap,
}
use fantasy_iq.Nanopb.Error.{Error}
use fantasy_iq.Nanopb.Field.{Field, htype}
use fantasy_iq.Nanopb.Field.Htype
use fantasy_iq.Nanopb.Wire.{key, length-groups}
use fantasy_iq.Nanopb.Iterator.{field_at, pb_field_iter_find}
use fantasy_iq.Nanopb.Iterator.Walk.{IsDescriptor, walk, walk-IsAt, required_before, tag_of_entry}
use fantasy_iq.Nanopb.Iterator.Find.{pb_field_iter_find-FindsOrReturns, current-walk}
use fantasy_iq.Nanopb.Input.Buffer.{source}
use fantasy_iq.Nanopb.Decode.Scalars.{pb_decode_tag-key}
use fantasy_iq.Nanopb.Decode.Skip.{
  Payload, varint_payload, bits64_payload, bits32_payload, string_payload, pb_skip_field-Payload,
}
use fantasy_iq.Nanopb.Decoder.Store.{Memory, Store, Decode, Platform, with_memory}
use fantasy_iq.Nanopb.Decoder.Message.{
  Progress, decode_tagged, known_field, unknown_field, fixed_count, message_rounds, seen_field,
}
use fantasy_iq.Nanopb.Machine.{load_size}
use fantasy_iq.Nanopb.Input.{IStream}
use fantasy_iq.Nanopb.Decoder.Release.{pb_release_union_field}
use fantasy_iq.Nanopb.Decoder.Fields.{iter_behind, after_release}
use fantasy_iq.Nanopb.Decoder.Seen.{mark_seen-marked}
use fantasy_iq.Nanopb.Decoder.Extensions.{HasNoExtensions, find_extension_field_none}
use fantasy_iq.Nanopb.Decoder.Chunks.{
  Chunk, known, unknown, chunk_bytes, bytes_of, chunk_effect, effect_of, chunk_seen, seen_of,
  position_of, range_of, IsKnown, IsUnknown, AreChunks, at_entry,
}

Payload-lt : (w : ℕ) (bs : List ℕ) → Payload w bs → w < 8
Payload-lt w bs (varint_payload e v) = omega (arith, e)
Payload-lt w bs (bits64_payload e eight) = omega (arith, e)
Payload-lt w bs (bits32_payload e four) = omega (arith, e)
Payload-lt w bs (string_payload content e h split) = omega (arith, e)

module _ {H : Type 0} (p : Platform H (List ℕ)) (fuel : ℕ)
    (decoders : Field → ℕ → Decode H (List ℕ)) (fields : List Field) (dest : ℕ)
    (d : IsDescriptor fields) where
  finds :
      (memory : Memory) (i w k : ℕ) (payload : List ℕ) (effect : Memory → Memory)
      → k < length fields
      → IsKnown p fuel decoders fields dest memory i w payload effect
      → pb_field_iter_find (walk fields dest k) (field_at fields i).tag ≡ (true, walk fields dest i)
  finds memory i w k payload effect h is =
      elim (pb_field_iter_find-FindsOrReturns fields dest (field_at fields i).tag d k h) [
        | inl (j, inside, found, e) ↦ e ∙ rw (is.only j inside found) refl
        | inr (nowhere, e) ↦ absurd (ground (arith, is.wanted, nowhere i is.inside))
      ]

  seen_step :
      (i w x : ℕ) (f : ℕ → Bool) (payload : List ℕ) (effect : Memory → Memory)
      → i < length fields
      → seen_field p fuel decoders (at_entry p fuel decoders fields dest i f x)
        ≡ at_entry p fuel decoders fields dest i (chunk_seen fields (known i w payload effect) f) x
  unfolding chunk_seen
  seen_step i w x f payload effect inside =
      let now = walk-IsAt fields dest i d inside in
      let r = required_before fields i in
      rw (current-walk fields dest 0 d i inside, now.counted)
        (elim (Bool-cases (htype (field_at fields i) == Htype.required && ltb r 64)) [
          | inl e ↦ rw (e, mark_seen-marked r f (ground arith)) refl
          | inr e ↦ rw e refl
        ])

  -- Releasing the old data of a oneof brings the iterator back to where it was.
  released_back :
      (i w : ℕ) (payload : List ℕ) (effect : Memory → Memory) (memory : Memory) (st : Store H)
      (s : IStream (List ℕ))
      → IsKnown p fuel decoders fields dest memory i w payload effect
      → iter_behind p fuel (walk fields dest i) st s ≡ walk fields dest i
  unfolding iter_behind after_release pb_release_union_field
  released_back i w payload effect memory st s is =
      let old = load_size st.memory (walk fields dest i).p_size in
      let new = (field_at fields i).tag in
      rw (iter_behind, after_release, current-walk fields dest 0 d i is.inside)
        (elim (Bool-cases (htype (field_at fields i) == 0x30)) [
          | inl union ↦ rw union (elim (Bool-cases (old == 0 || old == new)) [
            | inl e ↦ rw e refl
            | inr e ↦ rw e (elim (pb_field_iter_find-FindsOrReturns fields dest old d i is.inside) [
              | inl (j, inside, found, to) ↦
                  rw (to, finds memory i w j payload effect inside is) refl
              | inr (nowhere, to) ↦ rw to refl
            ])
          ])
          | inr e ↦ rw e refl
        ])

  known_step :
      (i w k x : ℕ) (f : ℕ → Bool) (payload : List ℕ) (effect : Memory → Memory) (st : Store H)
      (rest : List ℕ) (m n : ℕ) (e : Option Error)
      → k < length fields
      → IsKnown p fuel decoders fields dest st.memory i w payload effect
      → m ≡ length payload + n
      → decode_tagged p fuel decoders
          (at_entry p fuel decoders fields dest k f x)
          (w, (field_at fields i).tag)
          st
          (source (payload ++ rest) m e)
        ≡ (
          some (
              at_entry p fuel decoders fields dest i
                (chunk_seen fields (known i w payload effect) f)
                x),
          (with_memory st (effect st.memory), source rest n e),
        )
  unfolding decode_tagged known_field fixed_count
  known_step i w k x f payload effect st rest m n e h is size =
      let at_i = current-walk fields dest 0 d i is.inside in
      let r = is.reads st rest m n e refl size in
      let back = released_back i w payload effect st.memory st (source (payload ++ rest) m e) is in
      rw (finds st.memory i w k payload effect h is, at_i, is.counted, r, back)
        (ap
          (λ (q : Progress). (
            some (record q { iter = walk fields dest i }),
            (with_memory st (effect st.memory), source rest n e),
          ))
          (seen_step i w x f payload effect is.inside))

  not_found :
      (tag w k : ℕ) (payload : List ℕ)
      → k < length fields
      → IsUnknown p fuel decoders fields dest tag w payload
      → pb_field_iter_find (walk fields dest k) tag ≡ (false, walk fields dest k)
  not_found tag w k payload h is = elim (pb_field_iter_find-FindsOrReturns fields dest tag d k h) [
    | inl (j, inside, found, e) ↦ absurd (ground (arith, found, is.nowhere j inside))
    | inr (nowhere, e) ↦ e
  ]

  unknown_step :
      (tag w k x : ℕ) (f : ℕ → Bool) (payload : List ℕ) (st : Store H) (rest : List ℕ) (m n : ℕ)
      (e : Option Error)
      → HasNoExtensions fields
      → k < length fields
      → IsUnknown p fuel decoders fields dest tag w payload
      → m ≡ length payload + n
      → decode_tagged p fuel decoders
          (at_entry p fuel decoders fields dest k f x)
          (w, tag)
          st
          (source (payload ++ rest) m e)
        ≡ (
          some (at_entry p fuel decoders fields dest k f (if ltb tag x then x else 2 ^ 32 - 1)),
          (st, source rest n e),
        )
  unfolding decode_tagged unknown_field
  unknown_step tag w k x f payload st rest m n e plain h is size =
      let skip = pb_skip_field-Payload w payload is.carried rest m n e size in
      let low : ltb tag (2 ^ 32 - 1) ≡ true = ground (arith, is.small) in
      rw (not_found tag w k payload h is, find_extension_field_none fields dest d plain k h)
        (elim (Bool-cases (ltb tag x)) [
          | inl below ↦ rw (below, skip) refl
          | inr above ↦ rw (above, low, skip) refl
        ])

  -- One round, with what the body does behind the key.
  round :
      (w tag rounds : ℕ) (payload rest : List ℕ) (m n : ℕ) (e : Option Error)
      (progress progress' : Progress) (st st' : Store H)
      → w < 8
      → tag < 2 ^ 29
      → 0 < tag
      → m ≡ length (key w tag ++ payload) + n
      → decode_tagged p fuel decoders progress
          (w, tag)
          st
          (source (payload ++ rest) (length payload + n) e)
        ≡ (some progress', (st', source rest n e))
      → message_rounds p fuel decoders
          (suc rounds)
          progress
          st
          (source ((key w tag ++ payload) ++ rest) m e)
        ≡ message_rounds p fuel decoders rounds progress' st' (source rest n e)
  unfolding message_rounds
  round w tag rounds payload rest m n e progress progress' st st' wire small positive size step =
      let total = length-append (key w tag) payload in
      let some_bytes = length-groups 9 (tag * 8 + w) in
      let more : (m == 0) ≡ false = ground (arith, size, total, some_bytes) in
      let taken =
        pb_decode_tag-key w tag (payload ++ rest) m (length payload + n) e wire small
          (omega (arith, positive)) (omega (arith, size, total)) in
      rw (append_assoc (key w tag) payload rest, more, taken, step) refl

  -- All chunks, and the end of the stream.
  pub message_rounds-bytes_of :
      (cs : List Chunk) (tail : List ℕ) (rounds k x m : ℕ) (f : ℕ → Bool) (st : Store H)
      (e : Option Error)
      → HasNoExtensions fields
      → AreChunks p fuel decoders fields dest st.memory cs
      → k < length fields
      → length cs ≤ rounds
      → m ≡ length (bytes_of fields cs)
      → message_rounds p fuel decoders rounds
          (at_entry p fuel decoders fields dest k f x)
          st
          (source (bytes_of fields cs ++ tail) m e)
        ≡ (
          some (
              at_entry p fuel decoders fields dest
                (position_of cs k)
                (seen_of fields cs f)
                (range_of cs x)),
          (with_memory st (effect_of cs st.memory), source tail 0 e),
        )
  unfolding bytes_of seen_of effect_of chunk_bytes chunk_effect chunk_seen
  message_rounds-bytes_of [] tail zero k x m f st e plain ok h enough size =
      unfold message_rounds in rw size refl
  message_rounds-bytes_of [] tail (suc rounds) k x m f st e plain ok h enough size =
      unfold message_rounds in rw size refl
  message_rounds-bytes_of (c ∷ cs) tail zero k x m f st e plain ok h enough size =
      absurd (omega arith)
  message_rounds-bytes_of (known i w payload effect ∷ cs) tail (suc rounds) k x m f st e plain ok h
        enough size =
      let is = ok.0 in
      let n = length (bytes_of fields cs) in
      let tag = (field_at fields i).tag in
      let f' = chunk_seen fields (known i w payload effect) f in
      let st' = with_memory st (effect st.memory) in
      let total = length-append (key w tag ++ payload) (bytes_of fields cs) in
      ap
        (λ (t : List ℕ).
          message_rounds p fuel decoders (suc rounds) (at_entry p fuel decoders fields dest k f x)
            st (source t m e))
        (append_assoc (key w tag ++ payload) (bytes_of fields cs) tail)
      ∙ round w tag rounds payload (bytes_of fields cs ++ tail) m n e
          (at_entry p fuel decoders fields dest k f x) (at_entry p fuel decoders fields dest i f' x)
          st st' is.wire is.tag (ground (arith, tag_of_entry fields i d is.inside))
          (omega (arith, size, total))
          (known_step i w k x f payload effect st (bytes_of fields cs ++ tail) (length payload + n)
            n e h is refl)
      ∙ message_rounds-bytes_of cs tail rounds i x n f' st' e plain ok.1 is.inside (omega arith)
          refl
  message_rounds-bytes_of (unknown tag w payload ∷ cs) tail (suc rounds) k x m f st e plain ok h
        enough size =
      let is = ok.0 in
      let n = length (bytes_of fields cs) in
      let x' = if ltb tag x then x else 2 ^ 32 - 1 in
      let total = length-append (key w tag ++ payload) (bytes_of fields cs) in
      ap
        (λ (t : List ℕ).
          message_rounds p fuel decoders (suc rounds) (at_entry p fuel decoders fields dest k f x)
            st (source t m e))
        (append_assoc (key w tag ++ payload) (bytes_of fields cs) tail)
      ∙ round w tag rounds payload (bytes_of fields cs ++ tail) m n e
          (at_entry p fuel decoders fields dest k f x) (at_entry p fuel decoders fields dest k f x')
          st st (Payload-lt w payload is.carried) is.small is.positive (omega (arith, size, total))
          (unknown_step tag w k x f payload st (bytes_of fields cs ++ tail) (length payload + n) n e
            plain h is refl)
      ∙ message_rounds-bytes_of cs tail rounds k x' n f st e plain ok.1 h (omega arith) refl
