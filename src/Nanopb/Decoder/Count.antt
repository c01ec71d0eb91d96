-- ===== src/Nanopb/Decoder/Count.antt =====
-- The number of required fields that pb_decode_noinit (nanopb/pb_decode.c) checks.
use fantasy_iq.Base.{
  ℕ, zero, suc, ◌+◌, ◌<◌, ◌≤◌, min, List, length, ltb, ◌≡◌, arith, Bool-cases, inl, inr, ltb→lt,
  ltb→ge, ap, ◌∙◌, sym,
}
use fantasy_iq.Nanopb.Field.{Field, htype}
use fantasy_iq.Nanopb.Iterator.{Iter, field_at, pb_field_iter_begin, pb_field_iter_next}
use fantasy_iq.Nanopb.Iterator.Walk.{
  IsDescriptor, IsAt, required_before, next-IsAt, step_inside, step_at_end, tag_of_entry,
}
use fantasy_iq.Nanopb.Decoder.Required.{seek_end, count_at_end, required_field_count}

module _ (fields : List Field) (dest : ℕ) (d : IsDescriptor fields) where
  at_last :
      (k : ℕ)
      → suc k ≡ length fields
      → count_at_end
          (required_before fields k, htype (field_at fields k), (pb_field_iter_begin fields dest).1)
        ≡ min 64 (required_before fields (length fields))
  unfolding required_before pb_field_iter_begin
  at_last k last = let first = tag_of_entry fields 0 d (omega arith) in rw (sym last) (ground arith)

  seek :
      (n k : ℕ) (iter : Iter)
      → length fields ≤ k + n
      → k < length fields
      → IsAt fields dest k iter
      → count_at_end (seek_end n iter) ≡ min 64 (required_before fields (length fields))
  unfolding seek_end
  seek zero k iter enough inside now = absurd (omega arith)
  seek (suc n) k iter enough inside now =
      let d' : IsDescriptor iter.start = rw now.same_start d in
      elim (Bool-cases (ltb (suc k) (length fields))) [
        | inl more ↦
            let h : suc iter.pos < length iter.start =
              rw (now.same_start, now.same_pos) (ltb→lt _ _ more) in
            rw ((step_inside iter d' h).0) (
              seek n (suc k) (pb_field_iter_next iter).1 (omega arith) (ltb→lt _ _ more)
                (next-IsAt fields dest k iter d (ltb→lt _ _ more) now))
        | inr last ↦
            let end : suc k ≡ length fields = omega (arith, ltb→ge _ _ last) in
            let h : suc iter.pos ≡ length iter.start = rw (now.same_start, now.same_pos) end in
            rw (step_at_end iter d' h, now.same_start, now.same_dest, now.counted, now.same_pos)
              (at_last k end)
      ]

-- At whichever entry the loop over the message ended, the number of required fields that is
-- checked is that of all required entries of the descriptor, or 64 where there are more.
pub required_field_count-IsAt :
    (fields : List Field) (dest k : ℕ) (iter : Iter)
    → IsDescriptor fields
    → k < length fields
    → IsAt fields dest k iter
    → required_field_count iter ≡ min 64 (required_before fields (length fields))
unfolding required_field_count
required_field_count-IsAt fields dest k iter d inside now =
    ap (λ (fs : List Field). count_at_end (seek_end (length fs) iter)) now.same_start
    ∙ (seek fields dest d (length fields) k iter (omega arith) inside now)
