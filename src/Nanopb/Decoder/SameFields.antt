-- ===== src/Nanopb/Decoder/SameFields.antt =====
-- What storing a field leaves in it: pb_decode_noinit of nanopb/pb_decode.c on what pb_encode of
-- nanopb/pb_encode.c writes.
use fantasy_iq.Base.{
  ℕ, leb, ◌*◌, suc, ◌+◌, ◌^◌, ◌<◌, ◌≤◌, true, false, List, length, ◌==◌, if◌then◌else◌, ◌≡◌, ◌≢◌,
  arith, inl, inr, Bool-cases, ◌∙◌,
}
use fantasy_iq.Nanopb.Field.{ltype, htype}
use fantasy_iq.Nanopb.Field.Htype
use fantasy_iq.Nanopb.Field.Ltype
use fantasy_iq.Nanopb.Iterator.{field_at, add_signed}
use fantasy_iq.Nanopb.Iterator.Walk.{walk}
use fantasy_iq.Nanopb.Machine.{Machine, load, load_size}
use fantasy_iq.Nanopb.Arrays.Packed.{entry_address}
use fantasy_iq.Nanopb.Message.Encoding.{value_bytes, count_of, message_bytes}
use fantasy_iq.Nanopb.Decoder.Store.{Memory, Platform, write_byte}
use fantasy_iq.Nanopb.Decoder.Static.{item_address}
use fantasy_iq.Nanopb.Decoder.StaticFrame.{item_inside}
use fantasy_iq.Nanopb.Decoder.Stored.{IsHeld}
use fantasy_iq.Nanopb.Decoder.ArrayValues.{item-apart, array_chunks-value}
use fantasy_iq.Nanopb.Decoder.Moves.{copied-Outside}
use fantasy_iq.Nanopb.Decoder.Numbers.{load-copy, copied-copy}
use fantasy_iq.Nanopb.Decoder.Layout.{value_at, value_size, count_at, count_size, IsPlaced}
use fantasy_iq.Nanopb.Decoder.Chunks.{effect_of, chunk_effect}
use fantasy_iq.Nanopb.Decoder.ArrayCount.{array_chunks-count}
use fantasy_iq.Nanopb.Decoder.Sent.{is_sent, entry_chunks}
use fantasy_iq.Nanopb.Decoder.Moves.{value-Outside, IsNested-IsHeld}
use fantasy_iq.Nanopb.Decoder.MessageFrame.{moved_message-Outside}
use fantasy_iq.Nanopb.Decoder.Nested.{moved_value, IsTransferable}
use fantasy_iq.Nanopb.Decoder.Sendable.{entries-IsCounted}
use fantasy_iq.Nanopb.Decoder.Reached.{stored_entry}

module _ {H S : Type 0} (p : Platform H (List ℕ)) (m : Machine S)
    (depth message src dest size k : ℕ) (placed : IsPlaced p (suc depth) message dest size)
    (can : IsTransferable p m (suc depth) message src dest) (h : k < length (p.descriptors message))
    (memory : Memory) where
  -- The has_ flag that storing the field leaves.
  pub entry_flag :
      htype (field_at (p.descriptors message) k) ≡ 0x10
      → memory (count_at (p.descriptors message) dest k) ≡ 0
      → stored_entry p m depth message src dest size k placed can h k memory
          (count_at (p.descriptors message) dest k)
        ≡ (let field = field_at (p.descriptors message) k in
            if load m.memory 1
                (add_signed (walk (p.descriptors message) src k).p_data field.size_offset)
              == 0
            then 0
            else 1)
  unfolding entry_chunks effect_of chunk_effect write_byte
  entry_flag optional before =
      let fields = p.descriptors message in
      let field = field_at fields k in
      let from = (walk fields src k).p_data in
      let at = placed.3 k h in
      let is = can.3 k h in
      let single : htype field ≢ 0x20 = omega (arith, optional) in
      let one : count_size fields dest k ≡ 1 = ground (arith, is.rule) in
      let own = rw one at at.own in
      let q = count_at fields dest k in
      let (count_low, count_high) = at.count_inside in
      let value =
        value-Outside p m depth message src dest size k q (moved_message-Outside p m depth) placed
          can h (λ e less. let away = (placed.2 e (omega arith)).1 in ground arith) from
          (write_byte memory q 1) single (is.carried single) (ground arith) in
      elim (Bool-cases (load m.memory 1 (add_signed from field.size_offset) == 0)) [
        | inl absent ↦ rw (optional, absent) before
        | inr there ↦ rw (optional, there) (rw optional (value ∙ ground arith))
      ]

  -- The count.
  pub entry_count :
      htype (field_at (p.descriptors message) k) ≡ 0x20
      → load_size memory (count_at (p.descriptors message) dest k) ≡ 0
      → load_size
          (stored_entry p m depth message src dest size k placed can h k memory)
          (count_at (p.descriptors message) dest k)
        ≡ count_of m
            (field_at (p.descriptors message) k)
            (walk (p.descriptors message) src k).p_data
  unfolding entry_chunks
  entry_count array before =
      let fields = p.descriptors message in
      let field = field_at fields k in
      let from = (walk fields src k).p_data in
      let sub = message_bytes m depth in
      let its = (can.3 k h).array array in
      let n = count_of m field from in
      let zero_plus : 0 + n ≡ n = omega arith in
      rw array (
        array_chunks-count fields dest k (value_bytes m sub field) (moved_value p m depth field)
          (IsHeld m field)
          (entries-IsCounted p m depth message src dest size placed can k h array its) n 0 from
          memory (omega (arith, its.room))
          (λ j less.
            IsNested-IsHeld p m (IsTransferable p m depth) sub field
              (entry_address field.data_size from j)
              (item_address (value_at fields dest k) field.data_size j) its.single
              (its.entries j less))
          before
        ∙ zero_plus)

  -- The number.
  pub entry_number :
      htype (field_at (p.descriptors message) k) ≢ 0x20
      → is_sent m (message_bytes m depth) (moved_value p m depth) (p.descriptors message) src dest k
        ≡ true
      → ltype (field_at (p.descriptors message) k) ≤ 4
      → load
          (stored_entry p m depth message src dest size k placed can h k memory)
          (field_at (p.descriptors message) k).data_size
          (value_at (p.descriptors message) dest k)
        ≡ load m.memory
            (field_at (p.descriptors message) k).data_size
            (walk (p.descriptors message) src k).p_data
  unfolding entry_chunks effect_of chunk_effect
  entry_number single written number =
      let fields = p.descriptors message in
      let field = field_at fields k in
      let from = (walk fields src k).p_data in
      let to = value_at fields dest k in
      let at = placed.3 k h in
      let laid = at.laid (omega arith) in
      let (low, high) = at.value_inside in
      let below = placed.1 in
      let whole : value_size fields dest k ≡ field.data_size = ground arith in
      let scalar : (ltype field == 7) ≡ false = ground arith in
      let no_array : (htype field == 0x20) ≡ false = ground arith in
      let flagged : Memory =
        if htype field == Htype.required
        then memory
        else write_byte memory (count_at fields dest k) 1 in
      rw
        (
          no_array,
          written,
          scalar,
          copied-copy m.memory field from to flagged number laid.four laid.eight,
        )
        (load-copy m.memory field.data_size from to flagged (omega arith))

  -- The numbers of an array.
  pub entry_entries :
      htype (field_at (p.descriptors message) k) ≡ 0x20
      → ltype (field_at (p.descriptors message) k) ≤ 4
      → (i : ℕ)
      → i
        < count_of m
            (field_at (p.descriptors message) k)
            (walk (p.descriptors message) src k).p_data
      → load
          (stored_entry p m depth message src dest size k placed can h k memory)
          (field_at (p.descriptors message) k).data_size
          (item_address
            (value_at (p.descriptors message) dest k)
            (field_at (p.descriptors message) k).data_size
            i)
        ≡ load m.memory (field_at (p.descriptors message) k).data_size (
            entry_address
              (field_at (p.descriptors message) k).data_size
              (walk (p.descriptors message) src k).p_data
              i)
  unfolding entry_chunks
  entry_entries array number i less =
      let fields = p.descriptors message in
      let field = field_at fields k in
      let from = (walk fields src k).p_data in
      let to = value_at fields dest k in
      let sub = message_bytes m depth in
      let at = placed.3 k h in
      let its = (can.3 k h).array array in
      let laid = at.laid its.single in
      let (low, high) = at.value_inside in
      let (count_low, count_high) = at.count_inside in
      let below = placed.1 in
      let whole : value_size fields dest k ≡ field.data_size * field.array_size = ground arith in
      let four : count_size fields dest k ≡ 4 = ground arith in
      let own = rw (whole, four) at at.own in
      let product = rw whole at at.small in
      let end : to + field.data_size * field.array_size ≤ 2 ^ 64 = omega arith in
      let scalar : (ltype field == 7) ≡ false = ground (arith, its.single) in
      let numbers : leb (ltype field) Ltype.last_packable ≡ true = ground arith in
      let ends : (j : ℕ)
          → j < field.array_size
          → item_address to field.data_size j + field.data_size ≤ 2 ^ 64 =
        λ j lt. let within = item_inside field.data_size j field.array_size lt in omega arith in
      let zero_plus : 0 + i ≡ i = omega arith in
      rw array (
        rw zero_plus at (
          array_chunks-value fields dest k (value_bytes m sub field) (moved_value p m depth field)
            (IsHeld m field) (load m.memory field.data_size) (omega arith) ends
            (λ j q lt lo up.
              let within = item_inside field.data_size j field.array_size lt in ground arith)
            (λ j l from' q memory' before' lt held lo up. rw scalar (
              copied-Outside m field from' (item_address to field.data_size l) q memory' held laid
                (ends l lt)
                (item-apart field to j l q (omega arith) lt (omega arith) product end lo up)))
            (λ j from' memory' lt held.
              rw
                (
                  scalar,
                  copied-copy m.memory field from' (item_address to field.data_size j) memory'
                      number laid.four laid.eight,
                )
                (load-copy m.memory field.data_size from' (item_address to field.data_size j)
                  memory' (ends j lt)))
            (count_of m field from) 0 from i memory numbers (omega (arith, its.room))
            (λ j lt.
              IsNested-IsHeld p m (IsTransferable p m depth) sub field
                (entry_address field.data_size from j) (item_address to field.data_size j)
                its.single (its.entries j lt))
            less))
