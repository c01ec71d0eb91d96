-- ===== src/Nanopb/Decoder/Defaults.antt =====
-- What pb_message_set_to_defaults of nanopb/pb_decode.c leaves in a structure.
use fantasy_iq.Base.{
  ℕ, zero, suc, ◌+◌, ◌^◌, ◌<◌, ◌≤◌, true, false, not, ◌&&◌, ◌||◌, List, length, ltb, ◌==◌, ◌≡◌, ◌≢◌,
  refl, arith, inl, inr, Bool-cases, ◌∙◌, ap, replicate, length-replicate,
}
use fantasy_iq.Nanopb.Field.{Field, ltype, htype}
use fantasy_iq.Nanopb.Field.Ltype
use fantasy_iq.Nanopb.Field.Htype
use fantasy_iq.Nanopb.Iterator.{Iter, field_at, pb_field_iter_begin, pb_field_iter_next}
use fantasy_iq.Nanopb.Iterator.Walk.{IsDescriptor, walk, next-walk, tag_of_entry, tag_behind}
use fantasy_iq.Nanopb.Iterator.Find.{current-walk}
use fantasy_iq.Nanopb.Machine.{load_bytes}
use fantasy_iq.Nanopb.FieldEncoders.Values.{length-load_bytes}
use fantasy_iq.Nanopb.Decoder.Store.{Memory, Platform, write_byte}
use fantasy_iq.Nanopb.Decoder.Memory.{Outside, write_bytes-Outside, clear-eq-write_bytes}
use fantasy_iq.Nanopb.Decoder.Words.{write_integer-Outside}
use fantasy_iq.Nanopb.Decoder.Reset.{
  each_field, each_message, init_data, pb_field_set_to_default, pb_message_set_to_defaults,
}
use fantasy_iq.Nanopb.Decoder.Layout.{value_at, value_size, count_at, count_size, IsPlaced}

-- A loop over the fields visits each entry once, in order.
module _ {A : Type 0} (f : Iter → A → A) (fields : List Field) (dest : ℕ) where
  unfoldable pub over : ℕ → ℕ → A → A
  over zero k a = a
  over (suc n) k a = over n (suc k) (f (walk fields dest k) a)

  each_field-over :
      (n k : ℕ) (a : A)
      → IsDescriptor fields
      → k + n ≡ length fields
      → 0 < n
      → each_field f n (walk fields dest k) a ≡ over n k a
  unfolding each_field over
  each_field-over zero k a d total some = absurd (omega arith)
  each_field-over (suc n) k a d total some =
      let step = next-walk fields dest k d (omega arith) in
      elim (Bool-cases (ltb (suc k) (length fields))) [
        | inl more ↦
            rw (step, more)
              (each_field-over n (suc k) (f (walk fields dest k) a) d (omega arith) (ground arith))
        | inr last ↦ let none_left : n ≡ 0 = ground arith in rw (step, last, none_left) refl
      ]

  pub each_message-over :
      (a : A) → IsDescriptor fields → each_message f fields dest a ≡ over (length fields) 0 a
  unfolding each_message pb_field_iter_begin walk over
  each_message-over a d = elim (Bool-cases (length fields == 0)) [
    | inl e ↦
        let empty : length fields ≡ 0 = ground arith in
        let no_entry : not ((field_at fields 0).tag == 0) ≡ false =
          ground (arith, tag_behind fields 0 (omega (arith, empty))) in
        rw (no_entry, empty) refl
    | inr e ↦
        let entry : not ((field_at fields 0).tag == 0) ≡ true =
          ground (arith, tag_of_entry fields 0 d (ground arith)) in
        rw entry (each_field-over (length fields) 0 a d (omega arith) (ground arith))
  ]

module _ {A : Type 0} (f : Iter → A → A) (same : (iter : Iter) (a : A) → f iter a ≡ a) where
  each_field-same : (n : ℕ) (iter : Iter) (a : A) → each_field f n iter a ≡ a
  unfolding each_field
  each_field-same zero iter a = refl
  each_field-same (suc n) iter a = elim (Bool-cases (pb_field_iter_next iter).0) [
    | inl e ↦ rw (e, same iter a, each_field-same n (pb_field_iter_next iter).1 a) refl
    | inr e ↦ rw (e, same iter a) refl
  ]

  each_message-same : (fields : List Field) (dest : ℕ) (a : A) → each_message f fields dest a ≡ a
  unfolding each_message
  each_message-same fields dest a =
      let start = pb_field_iter_begin fields dest in
      elim (Bool-cases start.0) [
        | inl e ↦ rw (e, each_field-same (length fields) start.1 a) refl
        | inr e ↦ rw e refl
      ]

pub init_data-Outside :
    (descriptors : ℕ → List Field) (reset : Iter → Memory → Memory) (field : Field) (at q : ℕ)
    (memory : Memory)
    → at + field.data_size ≤ 2 ^ 64
    → Outside at field.data_size q
    → (ltype field ≡ 7 → each_message reset (descriptors field.ptr) at memory q ≡ memory q)
    → init_data descriptors reset field at memory q ≡ memory q
init_data-Outside descriptors reset field at q memory word out inner =
    let n = field.data_size in
    let zeros = length-replicate {A = ℕ} n 0 in
    elim (Bool-cases (ltype field == Ltype.submessage)) [
      | inl e ↦ rw e (inner (ground arith))
      | inr e ↦ rw e (elim (Bool-cases (not (field.ptr == 0))) [
        | inl some ↦
            let size = length-load_bytes memory n field.ptr in
            rw some (
              write_bytes-Outside (load_bytes memory n field.ptr) memory at q
                (omega (arith, size, word)) (rw size out))
        | inr none_there ↦
            rw (none_there, clear-eq-write_bytes n memory at)
              (write_bytes-Outside (replicate n 0) memory at q (omega (arith, zeros, word))
                (rw zeros out))
      ])
    ]

module _ {H S : Type 0} (p : Platform H S) where
  -- A field is set to its default value inside the field and its count.
  pub default_field-Outside :
      (depth message dest size j q : ℕ) (memory : Memory)
      → IsPlaced p (suc depth) message dest size
      → j < length (p.descriptors message)
      → Outside
          (value_at (p.descriptors message) dest j)
          (value_size (p.descriptors message) dest j)
          q
      → Outside
          (count_at (p.descriptors message) dest j)
          (count_size (p.descriptors message) dest j)
          q
      → ((sub at n : ℕ) (memory' : Memory)
          → IsPlaced p depth sub at n
          → Outside at n q
          → pb_message_set_to_defaults p.descriptors depth sub at memory' q ≡ memory' q)
      → pb_field_set_to_default p.descriptors
          (suc depth)
          (walk (p.descriptors message) dest j)
          memory
          q
        ≡ memory q
  unfolding pb_field_set_to_default pb_message_set_to_defaults write_byte
  default_field-Outside depth message dest size j q memory (d, word, slots, each) h out_value
        out_count inner =
      let fields = p.descriptors message in
      let field = field_at fields j in
      let at = each j h in
      let here = current-walk fields dest 0 d j h in
      let (value_low, value_high) = at.value_inside in
      let (count_low, count_high) = at.count_inside in
      let iter = walk fields dest j in
      let static = at.static in
      let reset = pb_field_set_to_default p.descriptors depth in
      let plain : (ltype field == 8) ≡ false = elim (Bool-cases (ltype field == 7)) [
        | inl e ↦ ground arith
        | inr e ↦ ground (arith, (at.laid (ground arith)).scalar)
      ] in
      let init : (memory' : Memory)
          → htype field ≢ 0x20
          → init_data p.descriptors reset field iter.p_data memory' q ≡ memory' q =
        λ memory' single.
          let whole : value_size fields dest j ≡ field.data_size = ground arith in
          init_data-Outside p.descriptors reset field iter.p_data q memory' (omega arith)
            (rw whole at out_value)
            (λ message'.
              inner field.ptr iter.p_data field.data_size memory' (at.nested message' single)
                (rw whole at out_value)) in
      rw (here, plain, static)
        (elim (Bool-cases (htype field == Htype.optional && not (iter.p_size == iter.p_data))) [
          | inl flagged ↦
              let single : htype field ≢ 0x20 = ground arith in
              let one : count_size fields dest j ≡ 1 = ground arith in
              rw flagged (init (write_byte memory iter.p_size 0) single ∙ ground arith)
          | inr unflagged ↦
              rw unflagged
                (elim (Bool-cases (htype field == Htype.repeated || htype field == Htype.oneof)) [
                  | inl counted ↦
                      let four : count_size fields dest j ≡ 4 = ground arith in
                      rw counted (
                        write_integer-Outside memory 4 iter.p_size 0 q (omega arith)
                          (rw four at out_count))
                  | inr single ↦ rw single (init memory (ground arith))
                ])
        ])

  over-Outside :
      (depth message dest size n k q : ℕ) (memory : Memory)
      → IsPlaced p (suc depth) message dest size
      → k + n ≤ length (p.descriptors message)
      → Outside dest size q
      → ((sub at n : ℕ) (memory' : Memory)
          → IsPlaced p depth sub at n
          → Outside at n q
          → pb_message_set_to_defaults p.descriptors depth sub at memory' q ≡ memory' q)
      → over
          (pb_field_set_to_default p.descriptors (suc depth))
          (p.descriptors message)
          dest
          n
          k
          memory
          q
        ≡ memory q
  unfolding over
  over-Outside depth message dest size zero k q memory placed total out inner = refl
  over-Outside depth message dest size (suc n) k q memory placed total out inner =
      let fields = p.descriptors message in
      let at = placed.3 k (omega arith) in
      let (value_low, value_high) = at.value_inside in
      let (count_low, count_high) = at.count_inside in
      over-Outside depth message dest size n (suc k) q
        (pb_field_set_to_default p.descriptors (suc depth) (walk fields dest k) memory) placed
        (omega arith) out inner
      ∙ default_field-Outside depth message dest size k q memory placed (omega arith) (ground arith)
          (ground arith) inner

  -- In a structure of static fields that lie inside it and apart from each other, as do those of its
  -- submessages, pb_message_set_to_defaults writes nothing outside the structure.
  pub defaults-Outside :
      (depth message dest size q : ℕ) (memory : Memory)
      → IsPlaced p depth message dest size
      → Outside dest size q
      → pb_message_set_to_defaults p.descriptors depth message dest memory q ≡ memory q
  unfolding pb_message_set_to_defaults
  defaults-Outside zero message dest size q memory placed out =
      unfold pb_field_set_to_default in
      ap (λ (m : Memory). m q)
        (each_message-same (pb_field_set_to_default p.descriptors 0) (λ iter a. refl)
          (p.descriptors message) dest memory)
  defaults-Outside (suc depth) message dest size q memory placed out =
      ap (λ (m : Memory). m q)
        (each_message-over (pb_field_set_to_default p.descriptors (suc depth))
          (p.descriptors message) dest memory placed.0)
      ∙ over-Outside depth message dest size (length (p.descriptors message)) 0 q memory placed
          (omega arith) out
          (λ sub at n memory' inside out'. defaults-Outside depth sub at n q memory' inside out')
