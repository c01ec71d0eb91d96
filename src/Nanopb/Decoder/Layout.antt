-- ===== src/Nanopb/Decoder/Layout.antt =====
-- Where the fields of a structure lie that nanopb/pb_decode.c fills, and what memory holds there
-- before a message is read.
use fantasy_iq.Base.{
  ℕ, zero, suc, ◌+◌, ◌^◌, ◌<◌, ◌≤◌, List, length, ◌==◌, if◌then◌else◌, ◌≡◌, ◌≢◌, ◌⊎◌, arith, sym,
  ◌∙◌,
}
use fantasy_iq.Nanopb.Field.{Field, ltype, htype, atype}
use fantasy_iq.Nanopb.Field.Htype
use fantasy_iq.Nanopb.Iterator.{Iter, field_at}
use fantasy_iq.Nanopb.Iterator.Walk.{IsDescriptor, walk}
use fantasy_iq.Nanopb.Machine.{load_size}
use fantasy_iq.Nanopb.Decoder.Store.{Memory, Platform}
use fantasy_iq.Nanopb.Decoder.Frame.{IsLaid}
use fantasy_iq.Nanopb.Decoder.StaticFrame.{extent}
use fantasy_iq.Nanopb.Decoder.Memory.{Outside}
use fantasy_iq.Nanopb.Decoder.Words.{load-ext}

-- Two ranges of bytes without a byte in common.
abbrev pub Apart : ℕ → ℕ → ℕ → ℕ → Type 0
Apart p n q m = (p + n ≤ q) ⊎ (q + m ≤ p)

-- The same bytes in a range.
abbrev pub AgreeOn : ℕ → ℕ → Memory → Memory → Type 0
AgreeOn p n memory memory' = (q : ℕ) → p ≤ q → q < p + n → memory q ≡ memory' q

-- The size of the count, the which_ tag or the has_ flag of a field.
abbrev pub count_width : Field → Iter → ℕ
count_width field iter =
    if htype field == Htype.required
    then 0
    else if htype field == Htype.optional
    then (if iter.p_size == iter.p_data then 0 else 1)
    else 4

module _ (fields : List Field) (dest j : ℕ) where
  abbrev pub value_at : ℕ
  value_at = (walk fields dest j).p_data

  abbrev pub count_at : ℕ
  count_at = (walk fields dest j).p_size

  abbrev pub value_size : ℕ
  value_size = extent (field_at fields j)

  abbrev pub count_size : ℕ
  count_size = count_width (field_at fields j) (walk fields dest j)

-- A static field, of no union, in a structure of `size` bytes at `dest`, apart from its count and the other
-- fields; `IsSub` says where the fields of a submessage lie.
pub record IsPlacedField (IsSub : ℕ → ℕ → ℕ → Type 0) (fields : List Field) (dest size j : ℕ)
    : Type 0 where
  pub static : atype (field_at fields j) ≡ 0x00
  pub alone : htype (field_at fields j) ≢ 0x30
  pub laid : ltype (field_at fields j) ≢ 7 → IsLaid (field_at fields j)
  pub value_inside :
      (dest ≤ value_at fields dest j)
      × (value_at fields dest j + value_size fields dest j ≤ dest + size)
  pub count_inside :
      (dest ≤ count_at fields dest j)
      × (count_at fields dest j + count_size fields dest j ≤ dest + size)
  pub small : value_size fields dest j < 2 ^ 32
  pub own :
      Apart
        (value_at fields dest j)
        (value_size fields dest j)
        (count_at fields dest j)
        (count_size fields dest j)
  pub values :
      (i : ℕ)
      → i < length fields
      → i ≢ j
      → Apart
          (value_at fields dest j)
          (value_size fields dest j)
          (value_at fields dest i)
          (value_size fields dest i)
  pub counts :
      (i : ℕ)
      → i < length fields
      → i ≢ j
      → Apart
          (count_at fields dest j)
          (count_size fields dest j)
          (count_at fields dest i)
          (count_size fields dest i)
  pub crossed :
      (i : ℕ)
      → i < length fields
      → i ≢ j
      → Apart
          (value_at fields dest j)
          (value_size fields dest j)
          (count_at fields dest i)
          (count_size fields dest i)
  pub nested :
      ltype (field_at fields j) ≡ 7
      → htype (field_at fields j) ≢ 0x20
      → IsSub (field_at fields j).ptr (value_at fields dest j) (field_at fields j).data_size

-- What a field holds before its message is read: no entries, if it is an array, a has_ flag that
-- is false, if it has one, and a submessage of such fields.
abbrev pub IsOpenField : (ℕ → ℕ → Memory → Type 0) → List Field → ℕ → ℕ → Memory → Type 0
IsOpenField IsSub fields dest j memory =
    (htype (field_at fields j) ≡ 0x20 → load_size memory (count_at fields dest j) ≡ 0)
    × (ltype (field_at fields j) ≡ 7
        → htype (field_at fields j) ≢ 0x20
        → IsSub (field_at fields j).ptr (value_at fields dest j) memory)
    × (htype (field_at fields j) ≡ 0x10
        → count_at fields dest j ≢ value_at fields dest j
        → memory (count_at fields dest j) ≡ 0)

module _ {H S : Type 0} (p : Platform H S) where
  -- A structure below the end of the address space whose fields lie inside it and apart from each
  -- other, as do the fields of its submessages, and outside which the local variables
  -- `fixed_count_size` of pb_decode_noinit lie.
  abbrev pub IsPlaced : ℕ → ℕ → ℕ → ℕ → Type 0
  IsPlaced zero message dest size = Unit
  IsPlaced (suc depth) message dest size =
      IsDescriptor (p.descriptors message)
      × (dest + size ≤ 2 ^ 64)
      × ((e : ℕ)
          → e ≤ suc depth
          → (p.count_slot e + 4 ≤ 2 ^ 64) × Apart (p.count_slot e) 4 dest size)
      × ((j : ℕ)
          → j < length (p.descriptors message)
          → IsPlacedField (IsPlaced depth) (p.descriptors message) dest size j)

  -- Every array of the structure and of its submessages is empty, and every has_ flag false.
  abbrev pub IsOpen : ℕ → ℕ → ℕ → Memory → Type 0
  IsOpen zero message dest memory = Unit
  IsOpen (suc depth) message dest memory =
      (j : ℕ)
      → j < length (p.descriptors message)
      → IsOpenField (IsOpen depth) (p.descriptors message) dest j memory

  -- That depends only on the bytes of the structure.
  pub IsOpen-ext :
      (depth message dest size : ℕ) (memory memory' : Memory)
      → IsPlaced depth message dest size
      → AgreeOn dest size memory memory'
      → IsOpen depth message dest memory
      → IsOpen depth message dest memory'
  IsOpen-ext zero message dest size memory memory' placed same before = tt
  IsOpen-ext (suc depth) message dest size memory memory' (d, word, slots, each) same before =
      λ j h.
        let fields = p.descriptors message in
        let at = each j h in
        let (value_low, value_high) = at.value_inside in
        let (count_low, count_high) = at.count_inside in
        (
          λ repeated.
              let four : count_size fields dest j ≡ 4 = ground arith in
              sym (
                load-ext 4 memory memory' (count_at fields dest j) (omega arith)
                  (λ q lo hi. same q (omega arith) (omega arith)))
              ∙ (before j h).0 repeated,
          λ message' single.
              let whole : value_size fields dest j ≡ (field_at fields j).data_size = ground arith in
              IsOpen-ext depth (field_at fields j).ptr (value_at fields dest j)
                (field_at fields j).data_size memory memory' (at.nested message' single)
                (λ q lo hi. same q (omega arith) (omega arith)) ((before j h).1 message' single),
          λ optional apart.
              let one : count_size fields dest j ≡ 1 = ground arith in
              sym (same (count_at fields dest j) (omega arith) (omega arith))
              ∙ (before j h).2 optional apart,
        )

  -- What a field holds depends only on the bytes of the field and of its count.
  pub IsOpenField-ext :
      (depth message dest size j : ℕ) (memory memory' : Memory)
      → IsPlaced (suc depth) message dest size
      → j < length (p.descriptors message)
      → AgreeOn
          (value_at (p.descriptors message) dest j)
          (value_size (p.descriptors message) dest j)
          memory
          memory'
      → AgreeOn
          (count_at (p.descriptors message) dest j)
          (count_size (p.descriptors message) dest j)
          memory
          memory'
      → IsOpenField (IsOpen depth) (p.descriptors message) dest j memory
      → IsOpenField (IsOpen depth) (p.descriptors message) dest j memory'
  IsOpenField-ext depth message dest size j memory memory' (d, word, slots, each) h same_value
        same_count before =
      let fields = p.descriptors message in
      let at = each j h in
      let (count_low, count_high) = at.count_inside in
      (
        λ repeated.
            let four : count_size fields dest j ≡ 4 = ground arith in
            sym (
              load-ext 4 memory memory' (count_at fields dest j) (omega arith)
                (λ q lo hi. same_count q lo (omega arith)))
            ∙ before.0 repeated,
        λ message' single.
            let whole : value_size fields dest j ≡ (field_at fields j).data_size = ground arith in
            IsOpen-ext depth (field_at fields j).ptr (value_at fields dest j)
              (field_at fields j).data_size memory memory' (at.nested message' single)
              (λ q lo hi. same_value q lo (omega arith)) (before.1 message' single),
        λ optional apart.
            let one : count_size fields dest j ≡ 1 = ground arith in
            sym (same_count (count_at fields dest j) (omega arith) (omega arith))
            ∙ before.2 optional apart,
      )

  -- Nor does a write inside another field and its count change it.
  pub IsOpenField-other :
      (depth message dest size i k : ℕ) (memory memory' : Memory)
      → IsPlaced (suc depth) message dest size
      → i < length (p.descriptors message)
      → k < length (p.descriptors message)
      → i ≢ k
      → ((q : ℕ)
          → dest ≤ q
          → q < dest + size
          → Outside
              (value_at (p.descriptors message) dest k)
              (value_size (p.descriptors message) dest k)
              q
          → Outside
              (count_at (p.descriptors message) dest k)
              (count_size (p.descriptors message) dest k)
              q
          → memory' q ≡ memory q)
      → IsOpenField (IsOpen depth) (p.descriptors message) dest i memory
      → IsOpenField (IsOpen depth) (p.descriptors message) dest i memory'
  IsOpenField-other depth message dest size i k memory memory' placed hi hk other same =
      let at = placed.3 k hk in
      let values = at.values i hi other in
      let counts = at.counts i hi other in
      let crossed = at.crossed i hi other in
      let (value_low, value_high) = (placed.3 i hi).value_inside in
      let (count_low, count_high) = (placed.3 i hi).count_inside in
      let back = (placed.3 i hi).crossed k hk (λ e. other (sym e)) in
      IsOpenField-ext depth message dest size i memory memory' placed hi
        (λ q lo up. sym (same q (omega arith) (omega arith) (ground arith) (ground arith)))
        (λ q lo up. sym (same q (omega arith) (omega arith) (ground arith) (ground arith)))
