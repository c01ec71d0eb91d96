-- ===== src/Nanopb/Decoder/Moves.antt =====
-- Where the values of a message are stored that pb_decode_noinit of nanopb/pb_decode.c reads.
use fantasy_iq.Base.{
  ℕ, suc, ◌+◌, ◌*◌, ◌^◌, ◌<◌, ◌≤◌, false, none, List, [], ◌++◌, length, ◌==◌, ◌≡◌, ◌≢◌, arith, inl,
  inr,
}
use fantasy_iq.Nanopb.Field.{Field, ltype, htype}
use fantasy_iq.Nanopb.Iterator.{field_at}
use fantasy_iq.Nanopb.Iterator.Walk.{walk}
use fantasy_iq.Nanopb.Input.Buffer.{source}
use fantasy_iq.Nanopb.Machine.{Machine}
use fantasy_iq.Nanopb.Arrays.Packed.{entry_address}
use fantasy_iq.Nanopb.FieldEncoders.Values.{scalar_bytes}
use fantasy_iq.Nanopb.Message.Encoding.{value_bytes, count_of, message_bytes}
use fantasy_iq.Nanopb.Decoder.Store.{Memory, Store, Platform, done}
use fantasy_iq.Nanopb.Decoder.Memory.{Outside}
use fantasy_iq.Nanopb.Decoder.Stored.{copied, IsHeld, decoder-copied}
use fantasy_iq.Nanopb.Decoder.Frame.{IsLaid, decoder-Elsewhere}
use fantasy_iq.Nanopb.Decoder.Static.{item_address}
use fantasy_iq.Nanopb.Decoder.Layout.{value_at, value_size, count_at, count_size, IsPlaced}
use fantasy_iq.Nanopb.Decoder.Chunks.{effect_of}
use fantasy_iq.Nanopb.Decoder.ArrayFrame.{item-Outside, array_chunks-Outside}
use fantasy_iq.Nanopb.Decoder.Sent.{entry_chunks}
use fantasy_iq.Nanopb.Decoder.Nested.{moved_message, moved_value, IsNested, IsTransferable}

-- A platform that does nothing.
abbrev bare : Platform (Unit {0}) (List ℕ)
bare = record {
  descriptors = λ d. [];
  realloc = λ ptr size st. (0, st);
  free = λ ptr st. st;
  call_decode = λ funcs field arg. done;
  call_decode_scalar = λ funcs field arg. done;
  call_extension = λ function extension tag wire_type. done;
  count_slot = λ depth. 0;
  undefined = done;
}

-- A scalar is stored inside its field.
pub copied-Outside :
    {S : Type 0} (m : Machine S) (field : Field) (from to q : ℕ) (memory : Memory)
    → IsHeld m field from
    → IsLaid field
    → to + field.data_size ≤ 2 ^ 64
    → Outside to field.data_size q
    → copied m.memory field from to memory q ≡ memory q
copied-Outside m field from to q memory held laid word out =
    let bs = scalar_bytes m field from in
    let st : Store (Unit {0}) = record { memory = memory; heap = tt } in
    let decode = λ (message dest : ℕ). done {H = Unit {0}} {S = List ℕ} in
    let n = length bs in
    let total : n ≡ n + 0 = omega arith in
    let reads = decoder-copied bare decode decode m field from to held st [] n 0 none total in
    let keeps =
      decoder-Elsewhere bare decode decode field to laid word st (source (bs ++ []) n none) q out in
    rw reads at keeps

module _ {H S : Type 0} (p : Platform H (List ℕ)) (m : Machine S) where
  -- An address outside the local variables `fixed_count_size`.
  abbrev pub OutsideSlots : ℕ → ℕ → Type 0
  OutsideSlots depth q = (e : ℕ) → e ≤ depth → Outside (p.count_slot e) 4 q

  pub IsNested-IsHeld :
      (IsSub : ℕ → ℕ → ℕ → Type 0) (sub : ℕ → ℕ → List ℕ) (field : Field) (from to : ℕ)
      → ltype field ≢ 7
      → IsNested p m IsSub sub field from to
      → IsHeld m field from
  IsNested-IsHeld IsSub sub field from to scalar (inl (kind, held)) = held
  IsNested-IsHeld IsSub sub field from to scalar (inr (kind, there, word, deep)) =
      absurd (scalar kind)

  -- Messages nested less than `depth` deep are stored inside their structures.
  abbrev pub StoresInside : ℕ → Type 0
  StoresInside depth =
      (message src dest size q : ℕ) (memory : Memory)
      → IsPlaced p depth message dest size
      → IsTransferable p m depth message src dest
      → Outside dest size q
      → OutsideSlots depth q
      → moved_message p m depth message src dest memory q ≡ memory q

  module _ (depth message src dest size k q : ℕ) (inner : StoresInside depth)
      (placed : IsPlaced p (suc depth) message dest size)
      (can : IsTransferable p m (suc depth) message src dest)
      (h : k < length (p.descriptors message)) (slots : OutsideSlots depth q) where
    pub value-Outside :
        (from : ℕ) (memory : Memory)
        → htype (field_at (p.descriptors message) k) ≢ 0x20
        → IsNested p m
            (IsTransferable p m depth)
            (message_bytes m depth)
            (field_at (p.descriptors message) k)
            from
            (value_at (p.descriptors message) dest k)
        → Outside
            (value_at (p.descriptors message) dest k)
            (value_size (p.descriptors message) dest k)
            q
        → moved_value p m depth
            (field_at (p.descriptors message) k)
            from
            (value_at (p.descriptors message) dest k)
            memory
            q
          ≡ memory q
    value-Outside from memory single carried out =
        let fields = p.descriptors message in
        let field = field_at fields k in
        let to = value_at fields dest k in
        let at = placed.3 k h in
        let (low, high) = at.value_inside in
        let below = placed.1 in
        let whole : value_size fields dest k ≡ field.data_size = ground arith in
        elim carried [
          | inl (kind, held) ↦
              let scalar : (ltype field == 7) ≡ false = ground arith in
              rw scalar (
                copied-Outside m field from to q memory held (at.laid kind) (omega arith)
                  (rw whole at out))
          | inr (kind, there, word, deep) ↦ rw kind (
              inner field.ptr from to field.data_size q memory (at.nested kind single) deep
                (rw whole at out) slots)
        ]

    pub array-Outside :
        (memory : Memory)
        → htype (field_at (p.descriptors message) k) ≡ 0x20
        → Outside
            (value_at (p.descriptors message) dest k)
            (value_size (p.descriptors message) dest k)
            q
        → Outside
            (count_at (p.descriptors message) dest k)
            (count_size (p.descriptors message) dest k)
            q
        → effect_of
            (entry_chunks m
              (message_bytes m depth)
              (moved_value p m depth)
              (p.descriptors message)
              src
              dest
              k)
            memory
            q
          ≡ memory q
    unfolding entry_chunks
    array-Outside memory array out out_count =
        let fields = p.descriptors message in
        let field = field_at fields k in
        let from = (walk fields src k).p_data in
        let to = value_at fields dest k in
        let move = moved_value p m depth field in
        let at = placed.3 k h in
        let (low, high) = at.value_inside in
        let (count_low, count_high) = at.count_inside in
        let below = placed.1 in
        let whole : value_size fields dest k ≡ field.data_size * field.array_size = ground arith in
        let four : count_size fields dest k ≡ 4 = ground arith in
        let its = (can.3 k h).array array in
        let scalar : (ltype field == 7) ≡ false = ground (arith, its.single) in
        rw array (
          array_chunks-Outside fields dest k (value_bytes m (message_bytes m depth) field) move
            (IsHeld m field) q 0 (omega arith) (rw four at out_count)
            (λ i src' memory' start less held.
              let (away, word) =
                item-Outside field to i q less (rw whole at at.small) (omega arith)
                  (rw whole at out) in
              rw scalar (
                copied-Outside m field src' (item_address to field.data_size i) q memory' held
                  (at.laid its.single) word away))
            (count_of m field from) 0 from memory (omega arith) (omega (arith, its.room))
            (λ j less.
              IsNested-IsHeld (IsTransferable p m depth) (message_bytes m depth) field
                (entry_address field.data_size from j) (item_address to field.data_size j)
                its.single (its.entries j less)))
