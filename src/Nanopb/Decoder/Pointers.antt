-- ===== src/Nanopb/Decoder/Pointers.antt =====
-- What pb_release_single_field of nanopb/pb_decode.c leaves of a pointer.
use fantasy_iq.Base.{
  ℕ, suc, ◌+◌, ◌^◌, ◌<◌, ◌≤◌, true, false, List, length, ◌==◌, if◌then◌else◌, ◌≡◌, ◌≢◌, ◌⊎◌, not,
  ◌&&◌, ◌||◌, refl, arith, inl, inr, Bool-cases, ◌∙◌,
}
use fantasy_iq.Nanopb.Field.{Field, ltype, htype, atype}
use fantasy_iq.Nanopb.Field.Htype
use fantasy_iq.Nanopb.Iterator.{field_at}
use fantasy_iq.Nanopb.Iterator.Walk.{IsDescriptor, walk}
use fantasy_iq.Nanopb.Iterator.Find.{current-walk}
use fantasy_iq.Nanopb.Machine.{load_pointer, load_size}
use fantasy_iq.Nanopb.Decoder.Store.{Store, Platform, with_memory, write_integer}
use fantasy_iq.Nanopb.Decoder.Memory.{Outside}
use fantasy_iq.Nanopb.Decoder.Words.{load-ext, load-write_integer, write_integer-Outside}
use fantasy_iq.Nanopb.Decoder.Layout.{Apart, value_at, count_at}
use fantasy_iq.Nanopb.Decoder.Release.{release_pointer, pb_release_single_field}

-- A pointer, and the count of an array.
abbrev pub pointer_size : ℕ
pointer_size = 8

module _ (fields : List Field) (dest : ℕ) where
  -- A byte of the pointer of entry `j`, or of its count if it is an array.
  abbrev pub IsSlot : ℕ → ℕ → Type 0
  IsSlot j q =
      (value_at fields dest j ≤ q) × (q < value_at fields dest j + pointer_size)
      ⊎ (htype (field_at fields j) ≡ 0x20)
        × (count_at fields dest j ≤ q)
        × (q < count_at fields dest j + 4)

  -- A field of a structure outside unions that is no submessage and no extension; as a pointer it is
  -- no array of strings or bytes, and it lies apart from its count and from the other pointers.
  pub record IsOwned (j : ℕ) : Type 0 where
    pub alone : htype (field_at fields j) ≢ 0x30
    pub no_message : ltype (field_at fields j) ≢ 7
    pub no_extension : ltype (field_at fields j) ≢ 8
    pub plain :
        htype (field_at fields j) ≡ 0x20
        → (ltype (field_at fields j) ≢ 5) × (ltype (field_at fields j) ≢ 6)
    pub word : value_at fields dest j + pointer_size ≤ 2 ^ 64
    pub count_word : count_at fields dest j + 4 ≤ 2 ^ 64
    pub own :
        htype (field_at fields j) ≡ 0x20
        → Apart (value_at fields dest j) pointer_size (count_at fields dest j) 4
    pub apart :
        (i q : ℕ)
        → i < length fields
        → i ≢ j
        → IsSlot i q
        → Outside (value_at fields dest j) pointer_size q
          × (htype (field_at fields j) ≡ 0x20 → Outside (count_at fields dest j) 4 q)

  -- The pointer is NULL, and the count of an array 0.
  abbrev pub IsReleased : {H : Type 0} → ℕ → Store H → Type 0
  IsReleased j st =
      (load_pointer st.memory (value_at fields dest j) ≡ 0)
      × (htype (field_at fields j) ≡ 0x20 → load_size st.memory (count_at fields dest j) ≡ 0)

module _ {H S : Type 0} (p : Platform H S) (fields : List Field) (dest : ℕ)
    (d : IsDescriptor fields)
    (owned : (j : ℕ) → j < length fields → atype (field_at fields j) ≡ 0x80 → IsOwned fields dest j)
    (others : (j : ℕ)
      → j < length fields
      → atype (field_at fields j) ≢ 0x80
      → (ltype (field_at fields j) ≢ 7) × (ltype (field_at fields j) ≢ 8))
    (keeps : (j q ptr : ℕ) (st : Store H)
      → j < length fields
      → IsSlot fields dest j q
      → (p.free ptr st).memory q ≡ st.memory q) where
  pub single_pointer :
      (fuel j : ℕ) (st : Store H)
      → j < length fields
      → atype (field_at fields j) ≡ 0x80
      → pb_release_single_field p (suc fuel) (walk fields dest j) st
        ≡ release_pointer p (walk fields dest j) st
  unfolding pb_release_single_field
  single_pointer fuel j st h pointer =
      let is = owned j h pointer in
      let here = current-walk fields dest 0 d j h in
      let no_union : (htype (field_at fields j) == 0x30) ≡ false = ground (arith, is.alone) in
      let no_message : (ltype (field_at fields j) == 7) ≡ false = ground (arith, is.no_message) in
      let no_extension : (ltype (field_at fields j) == 8) ≡ false =
        ground (arith, is.no_extension) in
      rw (here, no_union, no_message, no_extension, pointer) refl

  pub single_other :
      (fuel j : ℕ) (st : Store H)
      → j < length fields
      → atype (field_at fields j) ≢ 0x80
      → pb_release_single_field p (suc fuel) (walk fields dest j) st ≡ st
  unfolding pb_release_single_field
  single_other fuel j st h static =
      let (message, extension) = others j h static in
      let here = current-walk fields dest 0 d j h in
      let no_message : (ltype (field_at fields j) == 7) ≡ false = ground (arith, message) in
      let no_extension : (ltype (field_at fields j) == 8) ≡ false = ground (arith, extension) in
      let no_pointer : (atype (field_at fields j) == 0x80) ≡ false = ground arith in
      rw (here, no_message, no_extension, no_pointer)
        (elim (Bool-cases (
          htype (field_at fields j) == Htype.oneof
          && not (load_size st.memory (walk fields dest j).p_size == (field_at fields j).tag))) [
            | inl e ↦ rw e refl
            | inr e ↦ rw e refl
          ])

  -- What releasing a pointer does to the store.
  unfoldable pub pointer_store : ℕ → Store H → Store H
  pointer_store j st =
      let at = value_at fields dest j in
      let counted =
        if htype (field_at fields j) == 0x20
        then with_memory st (write_integer st.memory 4 (count_at fields dest j) 0)
        else st in
      let freed = p.free (load_pointer counted.memory at) counted in
      with_memory freed (write_integer freed.memory 8 at 0)

  pub release_pointer-store :
      (j : ℕ) (st : Store H)
      → j < length fields
      → atype (field_at fields j) ≡ 0x80
      → release_pointer p (walk fields dest j) st ≡ pointer_store j st
  unfolding pointer_store
  release_pointer-store j st h pointer =
      let is = owned j h pointer in
      let here = current-walk fields dest 0 d j h in
      elim (Bool-cases (htype (field_at fields j) == 0x20)) [
        | inl e ↦
            let (bytes, string) = is.plain (ground arith) in
            let no_strings : (ltype (field_at fields j) == 6 || ltype (field_at fields j) == 5)
                ≡ false =
              ground arith in
            rw (here, e, no_strings) refl
        | inr e ↦ rw (here, e) refl
      ]

  pub pointer_store-IsReleased :
      (j : ℕ) (st : Store H)
      → j < length fields
      → atype (field_at fields j) ≡ 0x80
      → IsReleased fields dest j (pointer_store j st)
  unfolding pointer_store
  pointer_store-IsReleased j st h pointer =
      let is = owned j h pointer in
      let at = value_at fields dest j in
      let count = count_at fields dest j in
      let word = is.word in
      let count_word = is.count_word in
      (
        load-write_integer _ 8 at 0 word (omega arith),
        λ array.
            let e : (htype (field_at fields j) == 0x20) ≡ true = ground arith in
            let counted = with_memory st (write_integer st.memory 4 count 0) in
            let freed = p.free (load_pointer counted.memory at) counted in
            let own = is.own array in
            rw e (
              load-ext 4 (write_integer freed.memory 8 at 0) counted.memory count count_word
                (λ q lo hi.
                  write_integer-Outside freed.memory 8 at 0 q word (ground arith)
                  ∙ keeps j q (load_pointer counted.memory at) counted h (inr (array, lo, hi)))
              ∙ load-write_integer st.memory 4 count 0 count_word (omega arith)),
      )

  pub pointer_store-keeps :
      (j i q : ℕ) (st : Store H)
      → j < length fields
      → i < length fields
      → i ≢ j
      → atype (field_at fields j) ≡ 0x80
      → IsSlot fields dest i q
      → (pointer_store j st).memory q ≡ st.memory q
  unfolding pointer_store
  pointer_store-keeps j i q st h hi other pointer slot =
      let is = owned j h pointer in
      let at = value_at fields dest j in
      let count = count_at fields dest j in
      let (out, out_count) = is.apart i q hi other slot in
      elim (Bool-cases (htype (field_at fields j) == 0x20)) [
        | inl e ↦
            let array : htype (field_at fields j) ≡ 0x20 = ground arith in
            let counted = with_memory st (write_integer st.memory 4 count 0) in
            let freed = p.free (load_pointer counted.memory at) counted in
            rw e (
              write_integer-Outside freed.memory 8 at 0 q is.word out
              ∙ keeps i q (load_pointer counted.memory at) counted hi slot
              ∙ write_integer-Outside st.memory 4 count 0 q is.count_word (out_count array))
        | inr e ↦
            let freed = p.free (load_pointer st.memory at) st in
            rw e (
              write_integer-Outside freed.memory 8 at 0 q is.word out
              ∙ keeps i q (load_pointer st.memory at) st hi slot)
      ]
