-- ===== src/Nanopb/Iterator/Walk.antt =====
-- Where the iterator stands after a number of steps from the beginning.
use fantasy_iq.Base.{
  ℕ, zero, suc, ◌+◌, ◌≤◌, ◌<◌, List, [], ◌∷◌, length, ◌==◌, if◌then◌else◌, Bool, true, false, ◌≡◌,
  ◌≢◌, refl, arith, All, ◌∙◌, ap, ltb, Bool-cases, inl, inr, ltb→lt, ltb→ge,
}
use fantasy_iq.Nanopb.Field.{Field, htype}
use fantasy_iq.Nanopb.Field.Htype
use fantasy_iq.Nanopb.Iterator.{Iter, field_at, pb_field_iter_begin, pb_field_iter_next}

-- An array whose entries before the terminator have tags.
abbrev pub IsDescriptor : List Field → Type 0
IsDescriptor fields = All (λ f. f.tag ≢ 0) fields

-- The iterator at entry `k`.
unfoldable pub walk : List Field → ℕ → ℕ → Iter
walk fields dest zero = (pb_field_iter_begin fields dest).1
walk fields dest (suc k) = (pb_field_iter_next (walk fields dest k)).1

-- The number of required fields among the first `k`.
unfoldable pub required_before : List Field → ℕ → ℕ
required_before fields zero = 0
required_before fields (suc k) =
    required_before fields k + (if htype (field_at fields k) == Htype.required then 1 else 0)

pub tag_of_entry :
    (fields : List Field) (i : ℕ)
    → IsDescriptor fields
    → i < length fields
    → (field_at fields i).tag ≢ 0
tag_of_entry [] i d h = absurd (omega arith)
tag_of_entry (f ∷ fields) zero d h = d.0
tag_of_entry (f ∷ fields) (suc i) d h = tag_of_entry fields i d.1 (omega arith)

pub tag_behind : (fields : List Field) (i : ℕ) → length fields ≤ i → (field_at fields i).tag ≡ 0
tag_behind [] i h = refl
tag_behind (f ∷ fields) zero h = absurd (omega arith)
tag_behind (f ∷ fields) (suc i) h = tag_behind fields i (omega arith)

-- One step, away from the end.
pub step_inside :
    (iter : Iter)
    → IsDescriptor iter.start
    → suc iter.pos < length iter.start
    → ((pb_field_iter_next iter).0 ≡ true)
      × ((pb_field_iter_next iter).1.pos ≡ suc iter.pos)
      × ((pb_field_iter_next iter).1.start ≡ iter.start)
      × ((pb_field_iter_next iter).1.dest_struct ≡ iter.dest_struct)
unfolding pb_field_iter_next
step_inside iter d h = ground (
  arith,
  tag_of_entry iter.start iter.pos d (omega arith),
  tag_of_entry iter.start (iter.pos + 1) d (omega arith),
)

-- The counter grows exactly behind a required field.
count_step :
    (iter : Iter)
    → IsDescriptor iter.start
    → suc iter.pos < length iter.start
    → (pb_field_iter_next iter).1.required_field_index
      ≡ iter.required_field_index
        + (if htype (field_at iter.start iter.pos) == Htype.required then 1 else 0)
unfolding pb_field_iter_next
count_step iter d h = ground (
  arith,
  tag_of_entry iter.start iter.pos d (omega arith),
  tag_of_entry iter.start (iter.pos + 1) d (omega arith),
)

-- One step from the last entry starts over.
pub step_at_end :
    (iter : Iter)
    → IsDescriptor iter.start
    → suc iter.pos ≡ length iter.start
    → pb_field_iter_next iter ≡ (false, (pb_field_iter_begin iter.start iter.dest_struct).1)
unfolding pb_field_iter_next
step_at_end iter d h = ground (
  arith,
  tag_of_entry iter.start iter.pos d (omega arith),
  tag_behind iter.start (iter.pos + 1) (omega arith),
)

-- The iterator at entry `k`: it points there, and `required_field_index` is the number of the
-- required fields before.
pub record IsAt (fields : List Field) (dest k : ℕ) (iter : Iter) : Type 0 where
  pub same_start : iter.start ≡ fields
  pub same_dest : iter.dest_struct ≡ dest
  pub same_pos : iter.pos ≡ k
  pub counted : iter.required_field_index ≡ required_before fields k

pub next-IsAt :
    (fields : List Field) (dest k : ℕ) (iter : Iter)
    → IsDescriptor fields
    → suc k < length fields
    → IsAt fields dest k iter
    → IsAt fields dest (suc k) (pb_field_iter_next iter).1
unfolding required_before
next-IsAt fields dest k iter d h before =
    let d' : IsDescriptor iter.start = rw before.same_start d in
    let inside : suc iter.pos < length iter.start = rw (before.same_start, before.same_pos) h in
    let step = step_inside iter d' inside in
    record {
      same_start = step.2 ∙ before.same_start;
      same_dest = step.3 ∙ before.same_dest;
      same_pos = step.1 ∙ ap suc before.same_pos;
      counted = count_step iter d' inside ∙ rw (before.counted, before.same_start, before.same_pos);
    }

-- In an array whose entries have tags, `k` steps of `pb_field_iter_next` from
-- `pb_field_iter_begin` come to entry `k`, with the number of the required fields before it.
pub walk-IsAt :
    (fields : List Field) (dest k : ℕ)
    → IsDescriptor fields
    → k < length fields
    → IsAt fields dest k (walk fields dest k)
unfolding walk pb_field_iter_begin required_before
walk-IsAt fields dest zero d h = record {
  same_start = refl;
  same_dest = refl;
  same_pos = refl;
  counted = refl;
}
walk-IsAt fields dest (suc k) d h =
    next-IsAt fields dest k (walk fields dest k) d h (walk-IsAt fields dest k d (omega arith))

pair_of : (r : Bool × Iter) → r.0 ≡ true → r ≡ (true, r.1)
pair_of r e = λ i. (e i, r.1)

-- From an entry of an array whose entries have tags, `pb_field_iter_next` returns true and comes to
-- the next one; from the last entry it returns false and is back at the beginning.
pub next-walk :
    (fields : List Field) (dest k : ℕ)
    → IsDescriptor fields
    → k < length fields
    → pb_field_iter_next (walk fields dest k) ≡ (
        if ltb (suc k) (length fields)
        then (true, walk fields dest (suc k))
        else (false, walk fields dest 0))
next-walk fields dest k d h =
    let now = walk-IsAt fields dest k d h in
    let d' : IsDescriptor (walk fields dest k).start = rw now.same_start d in
    elim (Bool-cases (ltb (suc k) (length fields))) [
      | inl more ↦
          let inside : suc (walk fields dest k).pos < length (walk fields dest k).start =
            rw (now.same_start, now.same_pos) (ltb→lt _ _ more) in
          rw more (unfold walk in pair_of _ ((step_inside (walk fields dest k) d' inside).0))
      | inr last ↦
          let end : suc (walk fields dest k).pos ≡ length (walk fields dest k).start =
            rw (now.same_start, now.same_pos) (omega (arith, ltb→ge _ _ last)) in
          rw last (
            step_at_end (walk fields dest k) d' end
            ∙ rw (now.same_start, now.same_dest) (unfold walk in refl))
    ]
