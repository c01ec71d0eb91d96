-- ===== src/Nanopb/Decoder/Sendable.antt =====
-- That the values of a message can be sent from pb_encode of nanopb/pb_encode.c to pb_decode_noinit
-- of nanopb/pb_decode.c.
use fantasy_iq.Base.{ℕ, suc, ◌*◌, ◌<◌, true, false, List, length, ◌==◌, ◌≡◌, ◌≢◌, arith, inl, inr}
use fantasy_iq.Nanopb.Field.{Field, ltype, htype}
use fantasy_iq.Nanopb.Iterator.{field_at}
use fantasy_iq.Nanopb.Iterator.Walk.{walk}
use fantasy_iq.Nanopb.Machine.{Machine}
use fantasy_iq.Nanopb.Message.Encoding.{value_bytes, message_bytes}
use fantasy_iq.Nanopb.Decoder.Store.{Memory, Platform, write_byte}
use fantasy_iq.Nanopb.Decoder.Message.{decode_with, pb_decode_noinit}
use fantasy_iq.Nanopb.Decoder.Copies.{Reads, ReadsAt, Reads-ReadsAt}
use fantasy_iq.Nanopb.Decoder.Stored.{IsHeld, decoder-copied}
use fantasy_iq.Nanopb.Decoder.Submessages.{Consumes, submessage-Reads}
use fantasy_iq.Nanopb.Decoder.Complete.{decoders_of}
use fantasy_iq.Nanopb.Decoder.Static.{item_address}
use fantasy_iq.Nanopb.Decoder.Items.{IsCounted}
use fantasy_iq.Nanopb.Decoder.ArrayFrame.{item-Outside}
use fantasy_iq.Nanopb.Decoder.Layout.{
  value_at, value_size, count_at, count_size, IsPlaced, IsOpen, IsOpen-ext, IsOpenField,
  IsOpenField-other,
}
use fantasy_iq.Nanopb.Decoder.Sent.{IsSentArray, entry_chunks}
use fantasy_iq.Nanopb.Decoder.Chunks.{effect_of}
use fantasy_iq.Nanopb.Decoder.SentChunks.{IsSendable}
use fantasy_iq.Nanopb.Decoder.Nested.{moved_message, moved_value, IsNested, IsTransferable}
use fantasy_iq.Nanopb.Decoder.Moves.{copied-Outside, IsNested-IsHeld}
use fantasy_iq.Nanopb.Decoder.MessageFrame.{entry-Outside, moved_message-Outside}

module _ {H S : Type 0} (p : Platform H (List ℕ)) (m : Machine S) where
  -- Messages nested less than `depth` deep are read completely into structures that are empty.
  abbrev pub ReadsMessages : ℕ → Type 0
  ReadsMessages depth =
      (message src dest size : ℕ) (memory : Memory)
      → IsPlaced p depth message dest size
      → IsTransferable p m depth message src dest
      → IsOpen p depth message dest memory
      → Consumes memory (pb_decode_noinit p depth message dest) (message_bytes m depth message src)
          (moved_message p m depth message src dest)

  pub items-Reads :
      (depth : ℕ) (field : Field) (from to : ℕ)
      → IsNested p m (IsTransferable p m depth) (message_bytes m depth) field from to
      → ltype field ≢ 7
      → Reads
          (decoders_of p depth field to)
          (value_bytes m (message_bytes m depth) field from)
          (moved_value p m depth field from to)
  unfolding value_bytes
  items-Reads depth field from to carried kind =
      let scalar : (ltype field == 7) ≡ false = ground arith in
      rw scalar (
        decoder-copied p (decode_with p depth (pb_decode_noinit p depth)) (pb_decode_noinit p depth)
          m field from to
          (IsNested-IsHeld p m (IsTransferable p m depth) (message_bytes m depth) field from to kind
            carried))

  module _ (depth message src dest size : ℕ) (placed : IsPlaced p (suc depth) message dest size)
      (can : IsTransferable p m (suc depth) message src dest) where
    pub entries-IsCounted :
        (k : ℕ)
        → k < length (p.descriptors message)
        → htype (field_at (p.descriptors message) k) ≡ 0x20
        → IsSentArray m
            (message_bytes m depth)
            (IsNested p m (IsTransferable p m depth) (message_bytes m depth))
            (p.descriptors message)
            src
            dest
            k
        → IsCounted
            (field_at (p.descriptors message) k)
            (value_at (p.descriptors message) dest k)
            (count_at (p.descriptors message) dest k)
            (moved_value p m depth (field_at (p.descriptors message) k))
            (IsHeld m (field_at (p.descriptors message) k))
    entries-IsCounted k h array its =
        let fields = p.descriptors message in
        let field = field_at fields k in
        let to = value_at fields dest k in
        let at = placed.3 k h in
        let (low, high) = at.value_inside in
        let (count_low, count_high) = at.count_inside in
        let below = placed.1 in
        let whole : value_size fields dest k ≡ field.data_size * field.array_size = ground arith in
        let four : count_size fields dest k ≡ 4 = ground arith in
        let own = rw (whole, four) at at.own in
        let scalar : (ltype field == 7) ≡ false = ground (arith, its.single) in
        record {
          word = omega arith;
          short = its.short;
          apart = λ i from q memory less held lo hi.
              let (away, word) =
                item-Outside field to i q less (rw whole at at.small) (omega arith)
                  (ground arith) in
              rw scalar (
                copied-Outside m field from (item_address to field.data_size i) q memory held
                  (at.laid its.single) word away);
        }

    -- The bytes of another field stay as they are.
    pub keeps-IsOpenField :
        (k j : ℕ) (memory : Memory)
        → k < length (p.descriptors message)
        → j < length (p.descriptors message)
        → j ≢ k
        → IsOpenField (IsOpen p depth) (p.descriptors message) dest j memory
        → IsOpenField (IsOpen p depth) (p.descriptors message) dest j (
            effect_of
              (entry_chunks m
                (message_bytes m depth)
                (moved_value p m depth)
                (p.descriptors message)
                src
                dest
                k)
              memory)
    keeps-IsOpenField k j memory hk hj other =
        let sub = message_bytes m depth in
        let move = moved_value p m depth in
        let fields = p.descriptors message in
        IsOpenField-other p depth message dest size j k memory
          (effect_of (entry_chunks m sub move fields src dest k) memory) placed hj hk other
          (λ q low high out out_count.
            entry-Outside p m depth message src dest size q (moved_message-Outside p m depth) placed
              can (λ e less. let away = (placed.2 e (omega arith)).1 in ground arith) k memory hk
              out out_count)

    pub flagged-IsOpen :
        (k : ℕ) (memory : Memory)
        → k < length (p.descriptors message)
        → htype (field_at (p.descriptors message) k) ≡ 0x10
        → count_at (p.descriptors message) dest k ≢ value_at (p.descriptors message) dest k
        → ltype (field_at (p.descriptors message) k) ≡ 7
        → IsOpen p depth
            (field_at (p.descriptors message) k).ptr
            (value_at (p.descriptors message) dest k)
            memory
        → IsOpen p depth
            (field_at (p.descriptors message) k).ptr
            (value_at (p.descriptors message) dest k)
            (write_byte memory (count_at (p.descriptors message) dest k) 1)
    unfolding write_byte
    flagged-IsOpen k memory h optional apart kind before =
        let fields = p.descriptors message in
        let field = field_at fields k in
        let at = placed.3 k h in
        let one : count_size fields dest k ≡ 1 = ground arith in
        let whole : value_size fields dest k ≡ field.data_size = ground arith in
        let own = rw (one, whole) at at.own in
        let single : htype field ≢ 0x20 = omega (arith, optional) in
        IsOpen-ext p depth field.ptr (value_at fields dest k) field.data_size memory
          (write_byte memory (count_at fields dest k) 1) (at.nested kind single)
          (λ q lo hi. ground arith) before

  module _ (depth message src dest size : ℕ) (consumes : ReadsMessages depth)
      (placed : IsPlaced p (suc depth) message dest size)
      (can : IsTransferable p m (suc depth) message src dest) where
    values-ReadsAt :
        (k : ℕ) (memory : Memory)
        → k < length (p.descriptors message)
        → htype (field_at (p.descriptors message) k) ≢ 0x20
        → IsNested p m
            (IsTransferable p m depth)
            (message_bytes m depth)
            (field_at (p.descriptors message) k)
            (walk (p.descriptors message) src k).p_data
            (value_at (p.descriptors message) dest k)
        → (ltype (field_at (p.descriptors message) k) ≡ 7
            → IsOpen p depth
                (field_at (p.descriptors message) k).ptr
                (value_at (p.descriptors message) dest k)
                memory)
        → ReadsAt memory
            (decoders_of p depth
              (field_at (p.descriptors message) k)
              (value_at (p.descriptors message) dest k))
            (value_bytes m
              (message_bytes m depth)
              (field_at (p.descriptors message) k)
              (walk (p.descriptors message) src k).p_data)
            (moved_value p m depth
              (field_at (p.descriptors message) k)
              (walk (p.descriptors message) src k).p_data
              (value_at (p.descriptors message) dest k))
    values-ReadsAt k memory h single carried ready =
        let fields = p.descriptors message in
        let field = field_at fields k in
        let from = (walk fields src k).p_data in
        let to = value_at fields dest k in
        let sub = message_bytes m depth in
        elim carried [
          | inl (kind, held) ↦
              Reads-ReadsAt (decoders_of p depth field to) (value_bytes m sub field from)
                (moved_value p m depth field from to) memory
                (items-Reads depth field from to (inl (kind, held)) kind)
          | inr (kind, there, word, deep) ↦
              let message' : (ltype field == 7) ≡ true = ground arith in
              unfold value_bytes in
              rw message' (
                submessage-Reads p (decode_with p depth (pb_decode_noinit p depth))
                  (pb_decode_noinit p depth) field to (sub field.ptr from)
                  (moved_message p m depth field.ptr from to) memory kind single there word
                  (consumes field.ptr from to field.data_size memory
                    ((placed.3 k h).nested kind single) deep (ready kind)))
        ]

    pub fields-IsSendable :
        IsSendable m
          (message_bytes m depth)
          (moved_value p m depth)
          (IsNested p m (IsTransferable p m depth) (message_bytes m depth))
          (IsHeld m)
          (IsOpen p depth)
          (p.descriptors message)
          src
          dest
          (decoders_of p depth)
    fields-IsSendable = record {
      reads = values-ReadsAt;
      items = items-Reads depth;
      fit = λ field from to carried kind.
          IsNested-IsHeld p m (IsTransferable p m depth) (message_bytes m depth) field from to kind
            carried;
      counted = entries-IsCounted depth message src dest size placed can;
      keeps = keeps-IsOpenField depth message src dest size placed can;
      flagged = flagged-IsOpen depth message src dest size placed can;
    }
