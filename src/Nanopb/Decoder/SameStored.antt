-- ===== src/Nanopb/Decoder/SameStored.antt =====
-- That pb_decode_noinit of nanopb/pb_decode.c stores the message that pb_encode of
-- nanopb/pb_encode.c wrote.
use fantasy_iq.Base.{
  ℕ, zero, suc, ◌<◌, true, false, List, length, ◌==◌, ◌≡◌, ◌≢◌, ◌⊎◌, arith, inl, inr, Bool-cases,
  sym,
}
use fantasy_iq.Nanopb.Field.{ltype, htype}
use fantasy_iq.Nanopb.Field.Htype
use fantasy_iq.Nanopb.Iterator.{field_at}
use fantasy_iq.Nanopb.Machine.{Machine}
use fantasy_iq.Nanopb.Message.Encoding.{message_bytes}
use fantasy_iq.Nanopb.Decoder.Store.{Memory, Platform, write_byte}
use fantasy_iq.Nanopb.Decoder.Layout.{value_at, count_at, IsPlaced, IsOpenField, IsOpen}
use fantasy_iq.Nanopb.Decoder.Chunks.{effect_of, chunk_effect}
use fantasy_iq.Nanopb.Decoder.Sent.{is_sent, entry_chunks}
use fantasy_iq.Nanopb.Decoder.Nested.{moved_message, moved_value, IsTransferable}
use fantasy_iq.Nanopb.Decoder.Sendable.{flagged-IsOpen}
use fantasy_iq.Nanopb.Decoder.Reached.{stored_entry, moved_message-IsReached}
use fantasy_iq.Nanopb.Decoder.SameMessage.{
  flag_of, IsSameField, IsSame, deep_of, IsSameField-ext, IsSame-ext,
}
use fantasy_iq.Nanopb.Decoder.SameFields.{entry_flag, entry_count, entry_entries, entry_number}

module _ {H S : Type 0} (p : Platform H (List ℕ)) (m : Machine S) where
  -- Messages nested less than `depth` deep are stored as they are.
  abbrev StoresSame : ℕ → Type 0
  StoresSame depth =
      (message src dest size : ℕ) (memory : Memory)
      → IsPlaced p depth message dest size
      → IsTransferable p m depth message src dest
      → IsOpen p depth message dest memory
      → IsSame p m depth message src dest (moved_message p m depth message src dest memory)

  module _ (depth message src dest size k : ℕ) (inner : StoresSame depth)
      (placed : IsPlaced p (suc depth) message dest size)
      (can : IsTransferable p m (suc depth) message src dest)
      (h : k < length (p.descriptors message)) (memory : Memory)
      (before : IsOpenField (IsOpen p depth) (p.descriptors message) dest k memory) where
    there-is_sent :
        (htype (field_at (p.descriptors message) k) ≡ 0x00)
          ⊎ (htype (field_at (p.descriptors message) k) ≡ 0x10)
            × (flag_of m
                  (field_at (p.descriptors message) k)
                  (value_at (p.descriptors message) src k)
                ≢ 0)
        → is_sent m
            (message_bytes m depth)
            (moved_value p m depth)
            (p.descriptors message)
            src
            dest
            k
          ≡ true
    there-is_sent there = ground arith

    entry_message :
        ltype (field_at (p.descriptors message) k) ≡ 7
        → (htype (field_at (p.descriptors message) k) ≡ 0x00)
          ⊎ (htype (field_at (p.descriptors message) k) ≡ 0x10)
            × (flag_of m
                  (field_at (p.descriptors message) k)
                  (value_at (p.descriptors message) src k)
                ≢ 0)
        → IsSame p m depth
            (field_at (p.descriptors message) k).ptr
            (value_at (p.descriptors message) src k)
            (value_at (p.descriptors message) dest k)
            (stored_entry p m depth message src dest size k placed can h k memory)
    unfolding entry_chunks effect_of chunk_effect
    entry_message kind there =
        let fields = p.descriptors message in
        let field = field_at fields k in
        let from = value_at fields src k in
        let to = value_at fields dest k in
        let single : htype field ≢ 0x20 = ground arith in
        let no_array : (htype field == 0x20) ≡ false = ground arith in
        let is = can.3 k h in
        let deep =
          deep_of p m depth (message_bytes m depth) field from to kind (is.carried single) in
        let nested = (placed.3 k h).nested kind single in
        let ready = before.1 kind single in
        let written = there-is_sent there in
        rw (no_array, written, kind)
          (elim (Bool-cases (htype field == Htype.required)) [
            | inl required ↦
                rw required (inner field.ptr from to field.data_size memory nested deep ready)
            | inr other ↦
                let optional : htype field ≡ 0x10 = ground (arith, is.rule) in
                let apart : count_at fields dest k ≢ to = ground (arith, is.rule) in
                rw other (
                  inner field.ptr from to field.data_size
                    (write_byte memory (count_at fields dest k) 1) nested deep
                    (flagged-IsOpen p m depth message src dest size placed can k memory h optional
                      apart kind ready))
          ])

    stored_entry-IsSameField :
        IsSameField m
          (IsSame p m depth)
          (p.descriptors message)
          src
          dest
          k
          (stored_entry p m depth message src dest size k placed can h k memory)
    stored_entry-IsSameField =
        let fields = p.descriptors message in
        let is = can.3 k h in
        record {
          flag = λ optional.
              let apart : count_at fields dest k ≢ value_at fields dest k =
                ground (arith, is.rule) in
              entry_flag p m depth message src dest size k placed can h memory optional
                (before.2 optional apart);
          count = λ array.
              entry_count p m depth message src dest size k placed can h memory array
                (before.0 array);
          entries = entry_entries p m depth message src dest size k placed can h memory;
          number = λ number there.
              entry_number p m depth message src dest size k placed can h memory (ground arith)
                (there-is_sent there) number;
          message = entry_message;
        }

  -- The structure holds the message that was sent.
  pub moved_message-IsSame : (depth : ℕ) → StoresSame depth
  moved_message-IsSame zero message src dest size memory placed can before = tt
  moved_message-IsSame (suc depth) message src dest size memory placed can before = λ k h.
      let (memory', ready, holds) =
        moved_message-IsReached p m depth message src dest size k placed can h memory before in
      let stored = stored_entry p m depth message src dest size k placed can h k memory' in
      let after = moved_message p m (suc depth) message src dest memory in
      IsSameField-ext p m depth message src dest size k stored after placed can h
        (λ q lo hi. sym (holds q (inl (lo, hi)))) (λ q lo hi. sym (holds q (inr (lo, hi))))
        (λ sub from to n. IsSame-ext p m depth sub from to n stored after)
        (stored_entry-IsSameField depth message src dest size k (moved_message-IsSame depth) placed
          can h memory' ready)
