-- ===== src/Nanopb/Decoder/Released.antt =====
-- What pb_release of nanopb/pb_decode.c leaves in a structure, also where pb_decode fails.
use fantasy_iq.Base.{
  ℕ, zero, suc, ◌+◌, ◌<◌, true, false, List, length, ◌==◌, ◌≡◌, ◌≢◌, arith, inl, inr, Bool-cases,
  ◌∙◌,
}
use fantasy_iq.Nanopb.Field.{Field, ltype, atype}
use fantasy_iq.Nanopb.Iterator.{field_at}
use fantasy_iq.Nanopb.Iterator.Walk.{IsDescriptor, walk}
use fantasy_iq.Nanopb.Input.{IStream}
use fantasy_iq.Nanopb.Decoder.Store.{Store, Outcome, Platform, with_memory}
use fantasy_iq.Nanopb.Decoder.Words.{load-ext}
use fantasy_iq.Nanopb.Decoder.Layout.{value_at, count_at}
use fantasy_iq.Nanopb.Decoder.Reset.{each_message, pb_message_set_to_defaults}
use fantasy_iq.Nanopb.Decoder.Release.{pb_release_single_field, pb_release}
use fantasy_iq.Nanopb.Decoder.Message.{pb_decode, pb_decode_noinit, decode_with, or_release}
use fantasy_iq.Nanopb.Decoder.Defaults.{over, each_message-over}
use fantasy_iq.Nanopb.Decoder.Pointers.{
  IsSlot, IsOwned, IsReleased, single_pointer, single_other, pointer_store, release_pointer-store,
  pointer_store-IsReleased, pointer_store-keeps,
}

module _ {H S : Type 0} (p : Platform H S) (fields : List Field) (dest : ℕ)
    (d : IsDescriptor fields)
    (owned : (j : ℕ) → j < length fields → atype (field_at fields j) ≡ 0x80 → IsOwned fields dest j)
    (others : (j : ℕ)
      → j < length fields
      → atype (field_at fields j) ≢ 0x80
      → (ltype (field_at fields j) ≢ 7) × (ltype (field_at fields j) ≢ 8))
    (keeps : (j q ptr : ℕ) (st : Store H)
      → j < length fields
      → IsSlot fields dest j q
      → (p.free ptr st).memory q ≡ st.memory q) where
  IsReleased-ext :
      (i : ℕ) (st st' : Store H)
      → i < length fields
      → atype (field_at fields i) ≡ 0x80
      → ((q : ℕ) → IsSlot fields dest i q → st'.memory q ≡ st.memory q)
      → IsReleased fields dest i st
      → IsReleased fields dest i st'
  IsReleased-ext i st st' h pointer same before =
      let is = owned i h pointer in
      (
        load-ext 8 st'.memory st.memory (value_at fields dest i) is.word
              (λ q lo hi. same q (inl (lo, hi)))
            ∙ before.0,
        λ array.
            load-ext 4 st'.memory st.memory (count_at fields dest i) is.count_word
              (λ q lo hi. same q (inr (array, lo, hi)))
            ∙ before.1 array,
      )

  over-IsReleased :
      (fuel n k : ℕ) (st : Store H)
      → k + n ≡ length fields
      → ((i : ℕ) → i < k → atype (field_at fields i) ≡ 0x80 → IsReleased fields dest i st)
      → (i : ℕ) → i < length fields
      → atype (field_at fields i) ≡ 0x80
      → IsReleased fields dest i (over (pb_release_single_field p (suc fuel)) fields dest n k st)
  unfolding over
  over-IsReleased fuel zero k st total before = λ i h. before i (omega arith)
  over-IsReleased fuel (suc n) k st total before =
      let st' = pb_release_single_field p (suc fuel) (walk fields dest k) st in
      over-IsReleased fuel n (suc k) st' (omega arith) (λ i less pointer.
        elim (Bool-cases (atype (field_at fields k) == 0x80)) [
          | inl e ↦
              let here : atype (field_at fields k) ≡ 0x80 = ground arith in
              rw
                (single_pointer p fields dest d owned others keeps fuel k st (omega arith) here
                  ∙ release_pointer-store p fields dest d owned others keeps k st (omega arith)
                      here)
                (elim (Bool-cases (i == k)) [
                  | inl same ↦
                      let at : i ≡ k = ground arith in
                      rw at (
                        pointer_store-IsReleased p fields dest d owned others keeps k st
                          (omega arith) here)
                  | inr differs ↦
                      let other : i ≢ k = ground arith in
                      IsReleased-ext i st (pointer_store p fields dest d owned others keeps k st)
                        (omega arith) pointer
                        (λ q slot.
                          pointer_store-keeps p fields dest d owned others keeps k i q st
                            (omega arith) (omega arith) other here slot)
                        (before i (ground arith) pointer)
                ])
          | inr e ↦
              let static : atype (field_at fields k) ≢ 0x80 = ground arith in
              rw (single_other p fields dest d owned others keeps fuel k st (omega arith) static)
                (before i (ground (arith, static, pointer)) pointer)
        ])

  each_message-IsReleased :
      (fuel : ℕ) (st : Store H) (i : ℕ)
      → i < length fields
      → atype (field_at fields i) ≡ 0x80
      → IsReleased fields dest i
          (each_message (pb_release_single_field p (suc fuel)) fields dest st)
  each_message-IsReleased fuel st i h pointer =
      rw (each_message-over (pb_release_single_field p (suc fuel)) fields dest st d) (
        over-IsReleased fuel (length fields) 0 st (omega arith) (λ j less. absurd (omega arith)) i h
          pointer)

module _ {H S : Type 0} (p : Platform H S) (message dest : ℕ)
    (d : IsDescriptor (p.descriptors message))
    (owned : (j : ℕ)
      → j < length (p.descriptors message)
      → atype (field_at (p.descriptors message) j) ≡ 0x80
      → IsOwned (p.descriptors message) dest j)
    (others : (j : ℕ)
      → j < length (p.descriptors message)
      → atype (field_at (p.descriptors message) j) ≢ 0x80
      → (ltype (field_at (p.descriptors message) j) ≢ 7)
        × (ltype (field_at (p.descriptors message) j) ≢ 8))
    (keeps : (j q ptr : ℕ) (st : Store H)
      → j < length (p.descriptors message)
      → IsSlot (p.descriptors message) dest j q
      → (p.free ptr st).memory q ≡ st.memory q)
    (there : dest ≢ 0) where
  -- For a structure that is not at NULL, of a message without submessages, extensions and pointers in
  -- unions, whose pointers lie apart from each other and from their counts and are no arrays of
  -- strings or bytes: if free does not write to these pointers and counts, each pointer of the
  -- structure is NULL after pb_release, and the count of each array that is a pointer is 0.
  pub pb_release-IsReleased :
      (fuel : ℕ) (st : Store H) (i : ℕ)
      → i < length (p.descriptors message)
      → atype (field_at (p.descriptors message) i) ≡ 0x80
      → IsReleased (p.descriptors message) dest i (pb_release p (suc fuel) message dest st)
  unfolding pb_release
  pb_release-IsReleased fuel st i h pointer =
      let no_null : (dest == 0) ≡ false = ground (arith, there) in
      rw no_null (
        each_message-IsReleased p (p.descriptors message) dest d owned others keeps fuel st i h
          pointer)

  failed :
      (fuel : ℕ) (o : Outcome H S) (i : ℕ)
      → i < length (p.descriptors message)
      → atype (field_at (p.descriptors message) i) ≡ 0x80
      → (or_release p (suc fuel) message dest o).0 ≡ false
      → IsReleased (p.descriptors message) dest i (or_release p (suc fuel) message dest o).1.0
  failed fuel (true, (st, s)) i h pointer e = cc
  failed fuel (false, (st, s)) i h pointer e = pb_release-IsReleased fuel st i h pointer

  -- For a structure that is not at NULL, of a message without submessages, extensions and pointers in
  -- unions, whose pointers lie apart from each other and from their counts and are no arrays of
  -- strings or bytes: if free does not write to these pointers and counts and pb_decode returns
  -- false, then no pointer is left dangling, whatever pb_decode has read. Each pointer of the
  -- structure is NULL, and the count of each array that is a pointer is 0.
  pub pb_decode_failed :
      (fuel : ℕ) (st : Store H) (s : IStream S) (i : ℕ)
      → i < length (p.descriptors message)
      → atype (field_at (p.descriptors message) i) ≡ 0x80
      → (pb_decode p (suc fuel) message dest st s).0 ≡ false
      → IsReleased (p.descriptors message) dest i (pb_decode p (suc fuel) message dest st s).1.0
  unfolding pb_decode decode_with
  pb_decode_failed fuel st s i h pointer e =
      let reset = pb_message_set_to_defaults p.descriptors (suc fuel) message dest st.memory in
      failed fuel (pb_decode_noinit p (suc fuel) message dest (with_memory st reset) s) i h pointer
        e
