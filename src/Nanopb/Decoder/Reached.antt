-- ===== src/Nanopb/Decoder/Reached.antt =====
-- What a field of a structure holds behind pb_decode_noinit of nanopb/pb_decode.c: what storing the
-- field left there, which no other field changes.
use fantasy_iq.Base.{
  ℕ, zero, suc, ◌+◌, ◌<◌, ◌≤◌, List, length, ◌==◌, ◌≡◌, ◌≢◌, ◌⊎◌, refl, arith, inl, inr, Bool-cases,
  ◌∙◌, ap, sym,
}
use fantasy_iq.Nanopb.Machine.{Machine}
use fantasy_iq.Nanopb.Message.Encoding.{message_bytes}
use fantasy_iq.Nanopb.Decoder.Store.{Memory, Platform, write_integer}
use fantasy_iq.Nanopb.Decoder.Words.{write_integer-Outside}
use fantasy_iq.Nanopb.Decoder.Layout.{
  value_at, value_size, count_at, count_size, IsPlaced, IsOpenField, IsOpen, IsOpen-ext,
}
use fantasy_iq.Nanopb.Decoder.Chunks.{effect_of}
use fantasy_iq.Nanopb.Decoder.ChunkLists.{effect_of-append}
use fantasy_iq.Nanopb.Decoder.Sent.{entry_chunks, chunks_of}
use fantasy_iq.Nanopb.Decoder.Nested.{moved_message, moved_value, IsTransferable}
use fantasy_iq.Nanopb.Decoder.MessageFrame.{entry-Outside, moved_message-Outside}
use fantasy_iq.Nanopb.Decoder.Sendable.{keeps-IsOpenField}

module _ {H S : Type 0} (p : Platform H (List ℕ)) (m : Machine S)
    (depth message src dest size k : ℕ) (placed : IsPlaced p (suc depth) message dest size)
    (can : IsTransferable p m (suc depth) message src dest)
    (h : k < length (p.descriptors message)) where
  -- Storing entry `j`, and the `n` entries from `j` on.
  abbrev pub stored_entry : ℕ → Memory → Memory
  stored_entry j = effect_of (
      entry_chunks m (message_bytes m depth) (moved_value p m depth) (p.descriptors message) src
        dest j)

  abbrev stored_from : ℕ → ℕ → Memory → Memory
  stored_from n j = effect_of (
      chunks_of m (message_bytes m depth) (moved_value p m depth) (p.descriptors message) src dest n
        j)

  -- A byte of entry `k` or of its count.
  abbrev pub InField : ℕ → Type 0
  InField q =
      (value_at (p.descriptors message) dest k ≤ q)
        × (q < value_at (p.descriptors message) dest k + value_size (p.descriptors message) dest k)
      ⊎ (count_at (p.descriptors message) dest k ≤ q)
        × (q < count_at (p.descriptors message) dest k + count_size (p.descriptors message) dest k)

  other-keeps :
      (j q : ℕ) (memory : Memory)
      → j < length (p.descriptors message)
      → j ≢ k
      → InField q
      → stored_entry j memory q ≡ memory q
  other-keeps j q memory hj other inside =
      let at = placed.3 k h in
      let (value_low, value_high) = at.value_inside in
      let (count_low, count_high) = at.count_inside in
      let values = at.values j hj other in
      let counts = at.counts j hj other in
      let crossed = at.crossed j hj other in
      let back = (placed.3 j hj).crossed k h (λ e. other (sym e)) in
      entry-Outside p m depth message src dest size q (moved_message-Outside p m depth) placed can
        (λ e less. let away = (placed.2 e (omega arith)).1 in ground arith) j memory hj
        (ground arith) (ground arith)

  later-keeps :
      (n j q : ℕ) (memory : Memory)
      → k < j
      → j + n ≤ length (p.descriptors message)
      → InField q
      → stored_from n j memory q ≡ memory q
  unfolding chunks_of
  later-keeps zero j q memory behind total inside = unfold effect_of in refl
  later-keeps (suc n) j q memory behind total inside =
      let sub = message_bytes m depth in
      let move = moved_value p m depth in
      let fields = p.descriptors message in
      ap (λ (t : Memory). t q)
        (effect_of-append (entry_chunks m sub move fields src dest j)
          (chunks_of m sub move fields src dest n (suc j)) memory)
      ∙ later-keeps n (suc j) q (stored_entry j memory) (omega arith) (omega arith) inside
      ∙ other-keeps j q memory (omega arith) (omega arith) inside

  -- Memory when the entry is stored, and that the entry keeps what it then gets.
  abbrev pub IsReached : Memory → Type 0
  IsReached after =
      (memory : Memory) × IsOpenField (IsOpen p depth) (p.descriptors message) dest k memory
      × ((q : ℕ) → InField q → after q ≡ stored_entry k memory q)

  reached :
      (n j : ℕ) (memory : Memory)
      → j ≤ k
      → k < j + n
      → j + n ≤ length (p.descriptors message)
      → IsOpenField (IsOpen p depth) (p.descriptors message) dest k memory
      → IsReached (stored_from n j memory)
  unfolding chunks_of
  reached zero j memory low high total before = absurd (omega arith)
  reached (suc n) j memory low high total before =
      let sub = message_bytes m depth in
      let move = moved_value p m depth in
      let fields = p.descriptors message in
      let split =
        effect_of-append (entry_chunks m sub move fields src dest j)
          (chunks_of m sub move fields src dest n (suc j)) memory in
      elim (Bool-cases (j == k)) [
        | inl e ↦
            let here : j ≡ k = ground arith in
            (
              memory,
              before,
              λ q inside.
                  ap (λ (t : Memory). t q) split
                  ∙ later-keeps n (suc j) q (stored_entry j memory) (omega arith) (omega arith)
                      inside
                  ∙ rw here refl,
            )
        | inr e ↦
            let later : j ≢ k = ground arith in
            rw split (
              reached n (suc j) (stored_entry j memory) (ground arith) (omega arith) (omega arith) (
                keeps-IsOpenField p m depth message src dest size placed can j k memory
                  (omega arith) h (λ e'. later (sym e')) before))
      ]

  -- Behind the whole message.
  pub moved_message-IsReached :
      (memory : Memory)
      → IsOpen p (suc depth) message dest memory
      → IsReached (moved_message p m (suc depth) message src dest memory)
  unfolding moved_message
  moved_message-IsReached memory before =
      let counted = write_integer memory 4 (p.count_slot (suc depth)) 0 in
      let (word, slot) = placed.2 (suc depth) (omega arith) in
      let ready : IsOpen p (suc depth) message dest counted =
        IsOpen-ext p (suc depth) message dest size memory counted placed
          (λ q lo hi.
            sym (write_integer-Outside memory 4 (p.count_slot (suc depth)) 0 q word (ground arith)))
          before in
      reached (length (p.descriptors message)) 0 counted (omega arith) (omega arith) (omega arith)
        (ready k h)
