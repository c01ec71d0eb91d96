-- ===== src/Nanopb/Decoder/Extensions.antt =====
-- find_extension_field of nanopb/pb_decode.c on descriptors without extension ranges.
use fantasy_iq.Base.{
  ℕ, zero, suc, ◌<◌, List, length, ◌==◌, false, ◌≡◌, refl, arith, ◌∙◌, ltb, Bool-cases, inl, inr,
  ltb→lt,
}
use fantasy_iq.Nanopb.Field.{Field, ltype}
use fantasy_iq.Nanopb.Field.Ltype
use fantasy_iq.Nanopb.Iterator.{field_at, pb_field_iter_next, find_rounds, pb_field_iter_find}
use fantasy_iq.Nanopb.Iterator.Walk.{IsDescriptor, walk, next-walk, tag_of_entry}
use fantasy_iq.Nanopb.Iterator.Find.{wanted_at, current-walk, pb_field_iter_find-FindsOrReturns}
use fantasy_iq.Nanopb.Decoder.Fields.{extension_rounds, find_extension_field}

-- No entry stands for extensions.
abbrev pub HasNoExtensions : List Field → Type 0
HasNoExtensions fields =
    (i : ℕ) → i < length fields → (ltype (field_at fields i) == Ltype.extension) ≡ false

module _ (fields : List Field) (dest : ℕ) (d : IsDescriptor fields)
    (none : HasNoExtensions fields) where
  -- The step from an entry leads to an entry.
  next_entry :
      (k : ℕ)
      → k < length fields
      → (k' : ℕ) × (k' < length fields)
        × ((pb_field_iter_next (walk fields dest k)).1 ≡ walk fields dest k')
  next_entry k h = elim (Bool-cases (ltb (suc k) (length fields))) [
    | inl more ↦ (suc k, ltb→lt _ _ more, rw (next-walk fields dest k d h, more) refl)
    | inr last ↦ (0, omega arith, rw (next-walk fields dest k d h, last) refl)
  ]

  -- No entry has the tag 0, so that the search for it goes the same way.
  unwanted : (k : ℕ) → k < length fields → wanted_at fields 0 k ≡ false
  unwanted k h = ground (arith, tag_of_entry fields k d h)

  same_rounds :
      (fuel start k : ℕ)
      → k < length fields
      → extension_rounds fuel start (walk fields dest k)
        ≡ find_rounds fuel start 0 (walk fields dest k)
  unfolding extension_rounds find_rounds
  same_rounds zero start k h = refl
  same_rounds (suc fuel) start k h =
      let (k', inside, step) = next_entry k h in
      let rest = same_rounds fuel start k' inside in
      let tagged : ((field_at fields k).tag == 0) ≡ false =
        ground (arith, tag_of_entry fields k d h) in
      rw (current-walk fields dest 0 d k h, none k h, tagged, step, rest) refl

  not_found :
      (k : ℕ)
      → k < length fields
      → pb_field_iter_find (walk fields dest k) 0 ≡ (false, walk fields dest k)
  not_found k h = elim (pb_field_iter_find-FindsOrReturns fields dest 0 d k h) [
    | inl (i, inside, found, e) ↦ absurd (ground (arith, found, unwanted i inside))
    | inr (nowhere, e) ↦ e
  ]

  -- From any entry the search for an extension range returns false, back at that entry.
  pub find_extension_field_none :
      (k : ℕ)
      → k < length fields
      → find_extension_field (walk fields dest k) ≡ (false, walk fields dest k)
  unfolding find_extension_field pb_field_iter_find
  find_extension_field_none k h =
      let iter = walk fields dest k in
      same_rounds (suc (length iter.start)) iter.pos k h ∙ not_found k h
