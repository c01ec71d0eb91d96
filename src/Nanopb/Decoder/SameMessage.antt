-- ===== src/Nanopb/Decoder/SameMessage.antt =====
-- What it means that two structures hold the same message, for pb_encode of nanopb/pb_encode.c and
-- pb_decode of nanopb/pb_decode.c.
use fantasy_iq.Base.{
  ℕ, zero, suc, ◌*◌, ◌<◌, ◌≤◌, List, length, ◌==◌, if◌then◌else◌, ◌≡◌, ◌≢◌, ◌⊎◌, arith, sym, ◌∙◌,
  inl, inr,
}
use fantasy_iq.Nanopb.Field.{Field, ltype, htype}
use fantasy_iq.Nanopb.Iterator.{field_at, add_signed}
use fantasy_iq.Nanopb.Machine.{Machine, load, load_size}
use fantasy_iq.Nanopb.Arrays.Packed.{entry_address}
use fantasy_iq.Nanopb.Message.Encoding.{count_of, message_bytes}
use fantasy_iq.Nanopb.Decoder.Store.{Memory, Platform}
use fantasy_iq.Nanopb.Decoder.Static.{item_address}
use fantasy_iq.Nanopb.Decoder.StaticFrame.{item_inside}
use fantasy_iq.Nanopb.Decoder.Words.{load-ext}
use fantasy_iq.Nanopb.Decoder.Layout.{AgreeOn, value_at, value_size, count_at, count_size, IsPlaced}
use fantasy_iq.Nanopb.Decoder.Nested.{IsNested, IsTransferable}

-- The has_ flag of an optional field at an address.
abbrev pub flag_of : {S : Type 0} → Machine S → Field → ℕ → ℕ
flag_of m field src = load m.memory 1 (add_signed src field.size_offset)

-- The field holds in the structure at `dest`, in the memory `after`, what it holds in the structure
-- at `src`: a has_ flag, the count and the numbers of an array, and, where it is present, a number or
-- a submessage, of which `IsSub` says when it is the same.
pub record IsSameField {S : Type 0} (m : Machine S) (IsSub : ℕ → ℕ → ℕ → Memory → Type 0)
    (fields : List Field) (src dest k : ℕ) (after : Memory) : Type 0 where
  pub flag :
      htype (field_at fields k) ≡ 0x10
      → after (count_at fields dest k)
        ≡ (if flag_of m (field_at fields k) (value_at fields src k) == 0 then 0 else 1)
  pub count :
      htype (field_at fields k) ≡ 0x20
      → load_size after (count_at fields dest k)
        ≡ count_of m (field_at fields k) (value_at fields src k)
  pub entries :
      htype (field_at fields k) ≡ 0x20
      → ltype (field_at fields k) ≤ 4
      → (i : ℕ) → i < count_of m (field_at fields k) (value_at fields src k)
      → load after
          (field_at fields k).data_size
          (item_address (value_at fields dest k) (field_at fields k).data_size i)
        ≡ load m.memory
            (field_at fields k).data_size
            (entry_address (field_at fields k).data_size (value_at fields src k) i)
  pub number :
      ltype (field_at fields k) ≤ 4
      → (htype (field_at fields k) ≡ 0x00)
        ⊎ (htype (field_at fields k) ≡ 0x10)
          × (flag_of m (field_at fields k) (value_at fields src k) ≢ 0)
      → load after (field_at fields k).data_size (value_at fields dest k)
        ≡ load m.memory (field_at fields k).data_size (value_at fields src k)
  pub message :
      ltype (field_at fields k) ≡ 7
      → (htype (field_at fields k) ≡ 0x00)
        ⊎ (htype (field_at fields k) ≡ 0x10)
          × (flag_of m (field_at fields k) (value_at fields src k) ≢ 0)
      → IsSub (field_at fields k).ptr (value_at fields src k) (value_at fields dest k) after

module _ {H S : Type 0} (p : Platform H (List ℕ)) (m : Machine S) where
  -- All fields do, down to `depth` levels of submessages.
  abbrev pub IsSame : ℕ → ℕ → ℕ → ℕ → Memory → Type 0
  IsSame zero message src dest after = Unit
  IsSame (suc depth) message src dest after =
      (k : ℕ)
      → k < length (p.descriptors message)
      → IsSameField m (IsSame depth) (p.descriptors message) src dest k after

  pub deep_of :
      (depth : ℕ) (sub : ℕ → ℕ → List ℕ) (field : Field) (from to : ℕ)
      → ltype field ≡ 7
      → IsNested p m (IsTransferable p m depth) sub field from to
      → IsTransferable p m depth field.ptr from to
  deep_of depth sub field from to message' (inl (kind, held)) = absurd (kind message')
  deep_of depth sub field from to message' (inr (kind, there, word, deep)) = deep

  -- What a field holds depends only on the bytes of the field and of its count.
  pub IsSameField-ext :
      (depth message src dest size k : ℕ) (after after' : Memory)
      → IsPlaced p (suc depth) message dest size
      → IsTransferable p m (suc depth) message src dest
      → k < length (p.descriptors message)
      → AgreeOn
          (value_at (p.descriptors message) dest k)
          (value_size (p.descriptors message) dest k)
          after
          after'
      → AgreeOn
          (count_at (p.descriptors message) dest k)
          (count_size (p.descriptors message) dest k)
          after
          after'
      → ((sub from to n : ℕ)
          → IsPlaced p depth sub to n
          → IsTransferable p m depth sub from to
          → AgreeOn to n after after'
          → IsSame depth sub from to after
          → IsSame depth sub from to after')
      → IsSameField m (IsSame depth) (p.descriptors message) src dest k after
      → IsSameField m (IsSame depth) (p.descriptors message) src dest k after'
  IsSameField-ext depth message src dest size k after after' placed can h values counts inner now =
      let fields = p.descriptors message in
      let field = field_at fields k in
      let at = placed.3 k h in
      let is = can.3 k h in
      let (low, high) = at.value_inside in
      let (count_low, count_high) = at.count_inside in
      let below = placed.1 in
      let to = value_at fields dest k in
      record {
        flag = λ optional.
            let one : count_size fields dest k ≡ 1 = ground (arith, is.rule) in
            sym (counts (count_at fields dest k) (omega arith) (omega arith)) ∙ now.flag optional;
        count = λ array.
            let four : count_size fields dest k ≡ 4 = ground arith in
            sym (
              load-ext 4 after after' (count_at fields dest k) (omega arith)
                (λ q lo hi. counts q lo (omega arith)))
            ∙ now.count array;
        entries = λ array number i less.
            let whole : value_size fields dest k ≡ field.data_size * field.array_size =
              ground arith in
            let room = (is.array array).room in
            let inside = item_inside field.data_size i field.array_size (omega arith) in
            let small = at.small in
            sym (
              load-ext field.data_size after after' (item_address to field.data_size i)
                (omega arith) (λ q lo hi. values q (omega arith) (omega arith)))
            ∙ now.entries array number i less;
        number = λ number there.
            let single : htype field ≢ 0x20 = ground arith in
            let whole : value_size fields dest k ≡ field.data_size = ground arith in
            sym (
              load-ext field.data_size after after' to (omega arith)
                (λ q lo hi. values q lo (omega arith)))
            ∙ now.number number there;
        message = λ message' there.
            let single : htype field ≢ 0x20 = ground arith in
            let whole : value_size fields dest k ≡ field.data_size = ground arith in
            inner field.ptr (value_at fields src k) to field.data_size (at.nested message' single)
              (deep_of depth (message_bytes m depth) field (value_at fields src k) to message'
                (is.carried single))
              (λ q lo hi. values q lo (omega arith)) (now.message message' there);
      }

  -- What a structure holds depends only on its bytes.
  pub IsSame-ext :
      (depth message src dest size : ℕ) (after after' : Memory)
      → IsPlaced p depth message dest size
      → IsTransferable p m depth message src dest
      → AgreeOn dest size after after'
      → IsSame depth message src dest after
      → IsSame depth message src dest after'
  IsSame-ext zero message src dest size after after' placed can agree before = tt
  IsSame-ext (suc depth) message src dest size after after' placed can agree before = λ k h.
      let at = placed.3 k h in
      let (low, high) = at.value_inside in
      let (count_low, count_high) = at.count_inside in
      IsSameField-ext depth message src dest size k after after' placed can h
        (λ q lo hi. agree q (omega arith) (omega arith))
        (λ q lo hi. agree q (omega arith) (omega arith))
        (λ sub from to n. IsSame-ext depth sub from to n after after') (before k h)
