-- ===== src/Nanopb/Decoder/Emptied.antt =====
-- The arrays of a structure that pb_message_set_to_defaults of nanopb/pb_decode.c has reset.
use fantasy_iq.Base.{
  ℕ, zero, suc, ◌+◌, ◌<◌, true, false, not, ◌&&◌, ◌||◌, length, ◌==◌, ◌≡◌, ◌≢◌, arith, inl, inr,
  Bool-cases, ◌∙◌,
}
use fantasy_iq.Nanopb.Field.{ltype, htype}
use fantasy_iq.Nanopb.Field.Htype
use fantasy_iq.Nanopb.Iterator.{field_at}
use fantasy_iq.Nanopb.Iterator.Walk.{walk}
use fantasy_iq.Nanopb.Iterator.Find.{current-walk}
use fantasy_iq.Nanopb.Decoder.Store.{Memory, Platform, write_byte}
use fantasy_iq.Nanopb.Decoder.Memory.{Outside}
use fantasy_iq.Nanopb.Decoder.Words.{load-write_integer}
use fantasy_iq.Nanopb.Decoder.Reset.{pb_field_set_to_default, pb_message_set_to_defaults}
use fantasy_iq.Nanopb.Decoder.Defaults.{
  init_data-Outside, over, each_message-over, default_field-Outside, defaults-Outside,
}
use fantasy_iq.Nanopb.Decoder.Layout.{
  value_size, count_size, IsPlaced, IsOpenField, IsOpen, IsOpenField-other,
}

module _ {H S : Type 0} (p : Platform H S) where
  -- The field itself.
  default_field-IsOpenField :
      (depth message dest size j : ℕ) (memory : Memory)
      → IsPlaced p (suc depth) message dest size
      → j < length (p.descriptors message)
      → ((sub at n : ℕ) (memory' : Memory)
          → IsPlaced p depth sub at n
          → IsOpen p depth sub at (pb_message_set_to_defaults p.descriptors depth sub at memory'))
      → IsOpenField (IsOpen p depth) (p.descriptors message) dest j (
          pb_field_set_to_default p.descriptors
            (suc depth)
            (walk (p.descriptors message) dest j)
            memory)
  unfolding pb_field_set_to_default pb_message_set_to_defaults write_byte
  default_field-IsOpenField depth message dest size j memory (d, word, slots, each) h inner =
      let fields = p.descriptors message in
      let field = field_at fields j in
      let at = each j h in
      let here = current-walk fields dest 0 d j h in
      let (count_low, count_high) = at.count_inside in
      let iter = walk fields dest j in
      let static = at.static in
      let alone = at.alone in
      (
        λ repeated.
            let plain : (ltype field == 8) ≡ false = elim (Bool-cases (ltype field == 7)) [
              | inl e ↦ ground arith
              | inr e ↦ ground (arith, (at.laid (ground arith)).scalar)
            ] in
            let four : count_size fields dest j ≡ 4 = ground arith in
            rw (here, plain, static, repeated)
              (load-write_integer memory 4 iter.p_size 0 (omega (arith, four)) (omega arith)),
        λ message' single.
            let flagged = htype field == Htype.optional && not (iter.p_size == iter.p_data) in
            let uncounted : (htype field == Htype.repeated || htype field == Htype.oneof) ≡ false =
              ground arith in
            rw (here, message', static)
              (elim (Bool-cases flagged) [
                | inl e ↦ rw e (
                    inner field.ptr iter.p_data field.data_size (write_byte memory iter.p_size 0)
                      (at.nested message' single))
                | inr e ↦
                    rw (e, uncounted)
                      (inner field.ptr iter.p_data field.data_size memory
                        (at.nested message' single))
              ]),
        λ optional apart.
            let flagged : (htype field == Htype.optional && not (iter.p_size == iter.p_data))
                ≡ true =
              ground arith in
            let single : htype field ≢ 0x20 = ground arith in
            let plain : (ltype field == 8) ≡ false = elim (Bool-cases (ltype field == 7)) [
              | inl e ↦ ground arith
              | inr e ↦ ground (arith, (at.laid (ground arith)).scalar)
            ] in
            let one : count_size fields dest j ≡ 1 = ground arith in
            let whole : value_size fields dest j ≡ field.data_size = ground arith in
            let own = rw (one, whole) at at.own in
            let (value_low, value_high) = at.value_inside in
            let out : Outside iter.p_data field.data_size iter.p_size = ground arith in
            rw (here, plain, static, flagged)
              (init_data-Outside p.descriptors (pb_field_set_to_default p.descriptors depth) field
                  iter.p_data iter.p_size (write_byte memory iter.p_size 0) (omega arith) out
                  (λ message'.
                    defaults-Outside p depth field.ptr iter.p_data field.data_size iter.p_size
                      (write_byte memory iter.p_size 0) (at.nested message' single) out)
                ∙ ground arith),
      )

  -- The fields before `k` stay as they are.
  over-IsOpenField :
      (depth message dest size n k : ℕ) (memory : Memory)
      → IsPlaced p (suc depth) message dest size
      → k + n ≡ length (p.descriptors message)
      → ((sub at n : ℕ) (memory' : Memory)
          → IsPlaced p depth sub at n
          → IsOpen p depth sub at (pb_message_set_to_defaults p.descriptors depth sub at memory'))
      → ((j : ℕ) → j < k → IsOpenField (IsOpen p depth) (p.descriptors message) dest j memory)
      → (j : ℕ) → j < length (p.descriptors message)
      → IsOpenField (IsOpen p depth) (p.descriptors message) dest j (
          over
            (pb_field_set_to_default p.descriptors (suc depth))
            (p.descriptors message)
            dest
            n
            k
            memory)
  unfolding over
  over-IsOpenField depth message dest size zero k memory placed total inner before =
      λ j h. before j (omega arith)
  over-IsOpenField depth message dest size (suc n) k memory placed total inner before =
      let fields = p.descriptors message in
      let memory' = pb_field_set_to_default p.descriptors (suc depth) (walk fields dest k) memory in
      over-IsOpenField depth message dest size n (suc k) memory' placed (omega arith) inner
        (λ i less. elim (Bool-cases (i == k)) [
          | inl e ↦
              let same : i ≡ k = ground arith in
              rw same (
                default_field-IsOpenField depth message dest size k memory placed (omega arith)
                  inner)
          | inr e ↦
              let other : i ≢ k = ground arith in
              IsOpenField-other p depth message dest size i k memory memory' placed (omega arith)
                (omega arith) other
                (λ q low high out out'.
                  default_field-Outside p depth message dest size k q memory placed (omega arith)
                    out out' (λ sub at m. defaults-Outside p depth sub at m q))
                (before i (ground arith))
        ])

  -- In a structure of static fields that lie inside it and apart from each other, as do those of its
  -- submessages, pb_message_set_to_defaults sets the count of every array to 0 and every has_ flag
  -- to false, also those of the submessages.
  pub defaults-IsOpen :
      (depth message dest size : ℕ) (memory : Memory)
      → IsPlaced p depth message dest size
      → IsOpen p depth message dest
          (pb_message_set_to_defaults p.descriptors depth message dest memory)
  unfolding pb_message_set_to_defaults
  defaults-IsOpen zero message dest size memory placed = tt
  defaults-IsOpen (suc depth) message dest size memory placed =
      let fields = p.descriptors message in
      rw
        (each_message-over (pb_field_set_to_default p.descriptors (suc depth)) fields dest memory
          placed.0)
        (over-IsOpenField depth message dest size (length fields) 0 memory placed (omega arith)
          (λ sub at n memory' inside. defaults-IsOpen depth sub at n memory' inside)
          (λ j less. absurd (omega arith)))
