-- ===== src/Nanopb/Decoder/MessageFrame.antt =====
-- What storing a message leaves alone: pb_decode_noinit of nanopb/pb_decode.c on what pb_encode of
-- nanopb/pb_encode.c writes.
use fantasy_iq.Base.{
  ℕ, zero, suc, ◌+◌, ◌<◌, ◌≤◌, List, length, ◌==◌, ◌≡◌, ◌≢◌, refl, arith, inl, inr, Bool-cases, ◌∙◌,
  ap,
}
use fantasy_iq.Nanopb.Field.{htype}
use fantasy_iq.Nanopb.Field.Htype
use fantasy_iq.Nanopb.Iterator.{field_at}
use fantasy_iq.Nanopb.Iterator.Walk.{walk}
use fantasy_iq.Nanopb.Machine.{Machine}
use fantasy_iq.Nanopb.Message.Encoding.{message_bytes}
use fantasy_iq.Nanopb.Decoder.Store.{Memory, Platform, write_byte, write_integer}
use fantasy_iq.Nanopb.Decoder.Memory.{Outside}
use fantasy_iq.Nanopb.Decoder.Words.{write_integer-Outside}
use fantasy_iq.Nanopb.Decoder.Layout.{value_at, value_size, count_at, count_size, IsPlaced}
use fantasy_iq.Nanopb.Decoder.Chunks.{effect_of, chunk_effect}
use fantasy_iq.Nanopb.Decoder.ChunkLists.{effect_of-append}
use fantasy_iq.Nanopb.Decoder.Sent.{is_sent, entry_chunks, chunks_of}
use fantasy_iq.Nanopb.Decoder.Nested.{moved_message, moved_value, IsTransferable}
use fantasy_iq.Nanopb.Decoder.Moves.{OutsideSlots, StoresInside, value-Outside, array-Outside}

module _ {H S : Type 0} (p : Platform H (List ℕ)) (m : Machine S) where
  module _ (depth message src dest size q : ℕ) (inner : StoresInside p m depth)
      (placed : IsPlaced p (suc depth) message dest size)
      (can : IsTransferable p m (suc depth) message src dest)
      (slots : OutsideSlots p m depth q) where
    -- A field is stored inside the field and its count.
    pub entry-Outside :
        (k : ℕ) (memory : Memory)
        → k < length (p.descriptors message)
        → Outside
            (value_at (p.descriptors message) dest k)
            (value_size (p.descriptors message) dest k)
            q
        → Outside
            (count_at (p.descriptors message) dest k)
            (count_size (p.descriptors message) dest k)
            q
        → effect_of
            (entry_chunks m
              (message_bytes m depth)
              (moved_value p m depth)
              (p.descriptors message)
              src
              dest
              k)
            memory
            q
          ≡ memory q
    unfolding effect_of chunk_effect write_byte
    entry-Outside k memory h out out_count =
        let fields = p.descriptors message in
        let field = field_at fields k in
        let from = (walk fields src k).p_data in
        let is = can.3 k h in
        let sub = message_bytes m depth in
        let value =
          value-Outside p m depth message src dest size k q inner placed can h slots from in
        elim (Bool-cases (htype field == Htype.repeated)) [
          | inl array ↦
              array-Outside p m depth message src dest size k q inner placed can h slots memory
                (ground arith) out out_count
          | inr e ↦
              let single : htype field ≢ 0x20 = ground arith in
              unfold entry_chunks in
              rw e (elim (Bool-cases (is_sent m sub (moved_value p m depth) fields src dest k)) [
                | inl written ↦ rw written (elim (Bool-cases (htype field == Htype.required)) [
                  | inl required ↦ rw required (value memory single (is.carried single) out)
                  | inr optional ↦
                      let one : count_size fields dest k ≡ 1 = ground (arith, is.rule) in
                      rw optional (
                        value (write_byte memory (count_at fields dest k) 1) single
                          (is.carried single) out
                        ∙ ground arith)
                ])
                | inr away ↦ rw away refl
              ])
        ]

    chunks_of-Outside :
        (n k : ℕ) (memory : Memory)
        → n + k ≤ length (p.descriptors message)
        → Outside dest size q
        → effect_of
            (chunks_of m
              (message_bytes m depth)
              (moved_value p m depth)
              (p.descriptors message)
              src
              dest
              n
              k)
            memory
            q
          ≡ memory q
    unfolding chunks_of
    chunks_of-Outside zero k memory total out = unfold effect_of in refl
    chunks_of-Outside (suc n) k memory total out =
        let fields = p.descriptors message in
        let sub = message_bytes m depth in
        let move = moved_value p m depth in
        let cs = entry_chunks m sub move fields src dest k in
        let at = placed.3 k (omega arith) in
        let (low, high) = at.value_inside in
        let (count_low, count_high) = at.count_inside in
        ap (λ (memory' : Memory). memory' q)
          (effect_of-append cs (chunks_of m sub move fields src dest n (suc k)) memory)
        ∙ chunks_of-Outside n (suc k) (effect_of cs memory) (omega arith) out
        ∙ entry-Outside k memory (omega arith) (ground arith) (ground arith)

  -- A message is stored inside its structure, but for the local variables `fixed_count_size`.
  pub moved_message-Outside : (depth : ℕ) → StoresInside p m depth
  unfolding moved_message
  moved_message-Outside zero message src dest size q memory placed can out slots = refl
  moved_message-Outside (suc depth) message src dest size q memory placed can out slots =
      let (word, own) = placed.2 (suc depth) (omega arith) in
      chunks_of-Outside depth message src dest size q (moved_message-Outside depth) placed can
        (λ e less. slots e (omega arith)) (length (p.descriptors message)) 0
        (write_integer memory 4 (p.count_slot (suc depth)) 0) (omega arith) out
      ∙ write_integer-Outside memory 4 (p.count_slot (suc depth)) 0 q word
          (slots (suc depth) (omega arith))
