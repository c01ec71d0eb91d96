-- ===== src/Nanopb/Iterator/Find.antt =====
-- pb_field_iter_find on the entries of a descriptor array.
use fantasy_iq.Base.{
  ℕ, zero, suc, ◌+◌, ◌-◌, ◌≤◌, ◌<◌, List, length, ◌==◌, if◌then◌else◌, Bool, true, false, ◌≡◌, refl,
  arith, ◌∙◌, ap, ltb, Bool-cases, inl, inr, ltb→lt, ltb→ge, ◌⊎◌, ◌≢◌, leb,
}
use fantasy_iq.Nanopb.Field.{Field}
use fantasy_iq.Nanopb.Iterator.{
  Iter, field_at, current, is_wanted, pb_field_iter_next, find_rounds, pb_field_iter_find,
}
use fantasy_iq.Nanopb.Iterator.Walk.{IsDescriptor, walk, walk-IsAt, next-walk}

-- The entry `t` places behind entry `k`, around the end of `n`.
around : ℕ → ℕ → ℕ → ℕ
around n k t = if ltb (k + t) n then k + t else k + t - n

around-zero : (n k : ℕ) → k < n → around n k 0 ≡ k
unfolding around
around-zero n k h = ground arith

around-lt : (n k t : ℕ) → k < n → t < n → around n k t < n
unfolding around
around-lt n k t hk ht = ground arith

around-suc :
    (n k t : ℕ)
    → k < n
    → t < n
    → around n k (suc t) ≡ (if ltb (suc (around n k t)) n then suc (around n k t) else 0)
unfolding around
around-suc n k t hk ht = ground arith

around_all : (n k : ℕ) → around n k n ≡ k
unfolding around
around_all n k = ground arith

around-ne : (n k t : ℕ) → k < n → 0 < t → t < n → around n k t ≢ k
unfolding around
around-ne n k t hk pos ht = ground arith

-- How far entry `i` is behind entry `k`.
distance : ℕ → ℕ → ℕ → ℕ
distance n k i = if leb k i then i - k else i + n - k

around-distance :
    (n k i : ℕ) → k < n → i < n → (distance n k i < n) × (around n k (distance n k i) ≡ i)
unfolding around distance
around-distance n k i hk hi = ground arith

-- Entry `i` is one that the search is for.
abbrev pub wanted_at : List Field → ℕ → ℕ → Bool
wanted_at fields tag i = is_wanted tag (field_at fields i)

-- Either an entry was found, and the iterator stands there, or there is none, and it stands where
-- it stood.
abbrev pub FindsOrReturns : List Field → ℕ → ℕ → ℕ → Bool × Iter → Type 0
FindsOrReturns fields dest tag k r =
    ((i : ℕ) × (i < length fields)
      × (wanted_at fields tag i ≡ true)
      × (r ≡ (true, walk fields dest i)))
    ⊎ (((i : ℕ) → i < length fields → wanted_at fields tag i ≡ false)
        × (r ≡ (false, walk fields dest k)))

module _ (fields : List Field) (dest tag : ℕ) (d : IsDescriptor fields) where
  next_around :
      (k t : ℕ)
      → k < length fields
      → t < length fields
      → (pb_field_iter_next (walk fields dest (around (length fields) k t))).1
        ≡ walk fields dest (around (length fields) k (suc t))
  next_around k t hk ht =
      let j = around (length fields) k t in
      let inside = around-lt (length fields) k t hk ht in
      rw (next-walk fields dest j d inside, around-suc (length fields) k t hk ht)
        (elim (Bool-cases (ltb (suc j) (length fields))) [
          | inl more ↦ rw more
          | inr last ↦ rw last
        ])

  pub current-walk : (i : ℕ) → i < length fields → current (walk fields dest i) ≡ field_at fields i
  current-walk i h = let now = walk-IsAt fields dest i d h in rw (now.same_start, now.same_pos) refl

  -- One round on an entry that is not wanted.
  round_past :
      (fuel k i i' : ℕ)
      → i < length fields
      → i' < length fields
      → (pb_field_iter_next (walk fields dest i)).1 ≡ walk fields dest i'
      → wanted_at fields tag i ≡ false
      → find_rounds (suc fuel) k tag (walk fields dest i) ≡ (
          if i' == k
          then (false, walk fields dest i')
          else find_rounds fuel k tag (walk fields dest i'))
  unfolding find_rounds
  round_past fuel k i i' hi hi' step other =
      rw (step, current-walk i hi, other, (walk-IsAt fields dest i' d hi').same_pos) refl

  round_found :
      (fuel k i : ℕ)
      → i < length fields
      → wanted_at fields tag i ≡ true
      → find_rounds (suc fuel) k tag (walk fields dest i) ≡ (true, walk fields dest i)
  unfolding find_rounds
  round_found fuel k i hi yes_wanted = rw (current-walk i hi, yes_wanted) refl

  -- Not yet back at the beginning, and back at the beginning.
  go_on :
      (fuel k t : ℕ)
      → k < length fields
      → t < length fields
      → wanted_at fields tag (around (length fields) k t) ≡ false
      → suc t < length fields
      → FindsOrReturns fields dest tag k
          (find_rounds fuel k tag (walk fields dest (around (length fields) k (suc t))))
      → FindsOrReturns fields dest tag k
          (find_rounds (suc fuel) k tag (walk fields dest (around (length fields) k t)))
  go_on fuel k t hk ht other more later =
      let i = around (length fields) k t in
      let i' = around (length fields) k (suc t) in
      let apart : (i' == k) ≡ false =
        ground (arith, around-ne (length fields) k (suc t) hk (omega arith) more) in
      rw
        (
          round_past fuel k i i' (around-lt (length fields) k t hk ht)
              (around-lt (length fields) k (suc t) hk more) (next_around k t hk ht) other,
          apart,
        )
        later

  give_up :
      (fuel k t : ℕ)
      → k < length fields
      → t < length fields
      → wanted_at fields tag (around (length fields) k t) ≡ false
      → suc t ≡ length fields
      → find_rounds (suc fuel) k tag (walk fields dest (around (length fields) k t))
        ≡ (false, walk fields dest k)
  give_up fuel k t hk ht other last =
      let back : around (length fields) k (suc t) ≡ k = rw last (around_all (length fields) k) in
      let step : (pb_field_iter_next (walk fields dest (around (length fields) k t))).1
          ≡ walk fields dest k =
        next_around k t hk ht ∙ ap (walk fields dest) back in
      round_past fuel k (around (length fields) k t) k (around-lt (length fields) k t hk ht) hk step
        other
      ∙ ground arith

  abbrev NotSeen : ℕ → ℕ → Type 0
  NotSeen k t = (u : ℕ) → u < t → wanted_at fields tag (around (length fields) k u) ≡ false

  one_more :
      (k t : ℕ)
      → NotSeen k t
      → wanted_at fields tag (around (length fields) k t) ≡ false
      → NotSeen k (suc t)
  one_more k t seen other u h = elim (Bool-cases (u == t)) [
    | inl same ↦ let e : u ≡ t = ground arith in rw e other
    | inr before ↦ seen u (ground arith)
  ]

  -- Once all entries were passed, none is wanted.
  none_wanted :
      (k : ℕ)
      → k < length fields
      → NotSeen k (length fields)
      → (i : ℕ) → i < length fields
      → wanted_at fields tag i ≡ false
  none_wanted k hk seen i hi =
      let (near, there) = around-distance (length fields) k i hk hi in
      rw there at (seen (distance (length fields) k i) near)

  -- After `t` entries without the wanted one.
  find_rounds-FindsOrReturns :
      (fuel k t : ℕ)
      → k < length fields
      → t < length fields
      → length fields ≤ t + fuel
      → NotSeen k t
      → FindsOrReturns fields dest tag k
          (find_rounds fuel k tag (walk fields dest (around (length fields) k t)))
  find_rounds-FindsOrReturns zero k t hk ht hf seen = absurd (omega arith)
  find_rounds-FindsOrReturns (suc fuel) k t hk ht hf seen =
      elim (Bool-cases (wanted_at fields tag (around (length fields) k t))) [
        | inl found ↦ inl (
          around (length fields) k t,
          around-lt (length fields) k t hk ht,
          found,
          round_found fuel k _ (around-lt (length fields) k t hk ht) found,
        )
        | inr other ↦ elim (Bool-cases (ltb (suc t) (length fields))) [
          | inl more ↦ go_on fuel k t hk ht other (ltb→lt _ _ more) (
              find_rounds-FindsOrReturns fuel k (suc t) hk (ltb→lt _ _ more) (omega arith)
                (one_more k t seen other))
          | inr last ↦ inr (
            (let e : suc t ≡ length fields = omega (arith, ltb→ge _ _ last) in
                none_wanted k hk (rw e at (one_more k t seen other))),
            give_up fuel k t hk ht other (omega (arith, ltb→ge _ _ last)),
          )
        ]
      ]

  find_begins :
      (k : ℕ)
      → k < length fields
      → pb_field_iter_find (walk fields dest k) tag
        ≡ find_rounds (suc (length fields)) k tag (walk fields dest k)
  find_begins k hk =
      let now = walk-IsAt fields dest k d hk in
      let iter = walk fields dest k in
      unfold pb_field_iter_find in
      ap (λ (fs : List Field). find_rounds (suc (length fs)) iter.pos tag iter) now.same_start
      ∙ ap (λ (p : ℕ). find_rounds (suc (length fields)) p tag iter) now.same_pos

  -- From any entry, `pb_field_iter_find` either returns true at an entry that has the tag and is
  -- no extension placeholder, or returns false where no entry has it, back at the entry that it
  -- began at. Either way the iterator is that of a walk from the beginning.
  pub pb_field_iter_find-FindsOrReturns :
      (k : ℕ)
      → k < length fields
      → FindsOrReturns fields dest tag k (pb_field_iter_find (walk fields dest k) tag)
  pb_field_iter_find-FindsOrReturns k hk = rw (find_begins k hk) (
      rw (around-zero (length fields) k hk) at (
        find_rounds-FindsOrReturns (suc (length fields)) k 0 hk (omega arith) (omega arith)
          (λ u h. absurd (omega arith))))
