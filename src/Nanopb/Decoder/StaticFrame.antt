-- ===== src/Nanopb/Decoder/StaticFrame.antt =====
-- Where decode_static_field writes, whatever the bytes that it reads.
use fantasy_iq.Base.{
  ℕ, zero, suc, ◌+◌, ◌*◌, ◌%◌, ◌^◌, ◌<◌, ◌≤◌, Bool, true, false, not, ◌&&◌, Option, none, some,
  List, ltb, leb, ◌==◌, if◌then◌else◌, ◌≡◌, ◌≢◌, ◌∙◌, refl, arith, inl, inr, Bool-cases,
}
use fantasy_iq.Nanopb.Error.{array_overflow}
use fantasy_iq.Nanopb.Field.{Field, ltype, htype}
use fantasy_iq.Nanopb.Field.Ltype
use fantasy_iq.Nanopb.Field.Htype
use fantasy_iq.Nanopb.Wire.{little_endian, length-little_endian}
use fantasy_iq.Nanopb.Wire.WireType
use fantasy_iq.Nanopb.Iterator.{Iter, current}
use fantasy_iq.Nanopb.Input.{IStream}
use fantasy_iq.Nanopb.Machine.{load_size}
use fantasy_iq.Nanopb.Decode.{pb_close_string_substream, pb_make_string_substream}
use fantasy_iq.Nanopb.Decoder.Store.{
  Memory, Decode, Outcome, Platform, write_byte, write_integer, put, fail, continue, ◌>>◌,
}
use fantasy_iq.Nanopb.Decoder.Memory.{Outside}
use fantasy_iq.Nanopb.Decoder.Values.{decoder, close_after}
use fantasy_iq.Nanopb.Decoder.Keeps.{
  Keeps, Keeps-fail, Keeps-write, Keeps-then, Keeps-bind, Keeps-if,
}
use fantasy_iq.Nanopb.Decoder.Frame.{IsLaid, decoder-Elsewhere}
use fantasy_iq.Nanopb.Decoder.Safety.{Elsewhere}
use fantasy_iq.Nanopb.Decoder.Static.{
  item_address, bump_count, packed_items, check_packed, decode_packed_array, decode_item,
  decode_static_field,
}

pub item_inside : (size i n : ℕ) → i < n → size * i + size ≤ size * n
item_inside size i zero h = absurd (omega arith)
item_inside size i (suc n) h = elim (Bool-cases (i == n)) [
  | inl e ↦ ground arith
  | inr e ↦ ground (arith, item_inside size i n (ground arith))
]

-- What a static field takes at `p_data`.
abbrev pub extent : Field → ℕ
extent field = if htype field == 0x20 then field.data_size * field.array_size else field.data_size

-- What goes with it at `p_size`: nothing for a required field, a bool or nothing for an optional one,
-- and a pb_size_t for the count of an array and the tag of a oneof.
unfoldable pub member : Iter → ℕ
member iter =
    if htype (current iter) == 0x00
    then 0
    else if htype (current iter) == 0x10
    then (if iter.p_size == iter.p_data then 0 else 1)
    else 4

member_flag :
    (iter : Iter)
    → htype (current iter) ≡ 0x10
    → (iter.p_size == iter.p_data) ≡ false
    → member iter ≡ 1
unfolding member
member_flag iter optional apart = ground arith

member_size :
    (iter : Iter) → htype (current iter) ≢ 0x00 → htype (current iter) ≢ 0x10 → member iter ≡ 4
unfolding member
member_size iter required optional = ground arith

-- The addresses outside a field and its count, its tag of a oneof or its has_ flag.
abbrev pub OutsideField : Iter → ℕ → Type 0
OutsideField iter q =
    Outside iter.p_data (extent (current iter)) q × Outside iter.p_size (member iter) q

module _ {H S : Type 0} (iter : Iter) (whole : member iter ≡ 4)
    (size_word : iter.p_size + 4 ≤ 2 ^ 64) where
  bump_count-Keeps : Keeps {H = H} {S = S} (OutsideField iter) (bump_count iter.p_size)
  bump_count-Keeps =
      let bs : Memory → List ℕ = λ m. little_endian 4 ((load_size m iter.p_size + 1) % 2 ^ 32) in
      Keeps-write (OutsideField iter) iter.p_size bs 4
        (λ m. omega (arith, length-little_endian 4 ((load_size m iter.p_size + 1) % 2 ^ 32)))
        size_word (λ q out. rw whole at (out.1))

  close_after-memory :
      (s : IStream S) (o : Outcome H S) (q : ℕ) → (close_after s o).1.0.memory q ≡ o.1.0.memory q
  close_after-memory s (status, (st, substream)) q = go (pb_close_string_substream substream s)
    where
      go :
          (r : Option (Unit {0}) × IStream S)
          → (continue st r (λ closed st' s'. (status, (st', s')))).1.0.memory q ≡ st.memory q
      go (none, s') = refl
      go (some closed, s') = refl

  check_packed-memory :
      (s : IStream S) (o : Outcome H S) (q : ℕ) → (check_packed s o).1.0.memory q ≡ o.1.0.memory q
  check_packed-memory s (status, (st, substream)) q =
      elim (Bool-cases (substream.bytes_left == 0)) [
        | inl e ↦ rw e (close_after-memory s (status, (st, substream)) q)
        | inr e ↦ rw e refl
      ]

-- An array of entries inside the address space, whose product of sizes is a uint32_t.
module _ {H S : Type 0} (iter : Iter) (func : ℕ → Decode H S) (size_word : iter.p_size + 4 ≤ 2 ^ 64)
    (array : htype (current iter) ≡ 0x20) (counts : member iter ≡ 4)
    (product : (current iter).data_size * (current iter).array_size < 2 ^ 32)
    (word : iter.p_data + (current iter).data_size * (current iter).array_size ≤ 2 ^ 64)
    (inner : (at : ℕ)
      → at + (current iter).data_size ≤ 2 ^ 64
      → Keeps (Elsewhere (current iter) at) (func at)) where
  item-Keeps :
      (i : ℕ)
      → i < (current iter).array_size
      → Keeps (OutsideField iter) (func (item_address iter.p_data (current iter).data_size i))
  item-Keeps i small st s q out =
      let size = (current iter).data_size in
      let n = (current iter).array_size in
      let inside = item_inside size i n small in
      let whole : extent (current iter) ≡ size * n = ground arith in
      let away : Outside iter.p_data (size * n) q = ground arith in
      let at : item_address iter.p_data size i + size ≤ 2 ^ 64 = omega arith in
      inner (item_address iter.p_data size i) at st s q (ground arith)

  items-Keeps :
      (fuel : ℕ)
      → Keeps (OutsideField iter) (packed_items func (current iter) iter.p_data iter.p_size fuel)
  unfolding packed_items
  items-Keeps zero st s q out = refl
  items-Keeps (suc fuel) st s q out =
      let Q = OutsideField iter in
      let size = load_size st.memory iter.p_size in
      let item = func (item_address iter.p_data (current iter).data_size size) in
      let bump : Decode H S = bump_count iter.p_size in
      let next = packed_items func (current iter) iter.p_data iter.p_size fuel in
      elim (Bool-cases (not (s.bytes_left == 0) && ltb size (current iter).array_size)) [
        | inl e ↦ rw e (
            Keeps-then Q (item >> bump) next
              (Keeps-then Q item bump (item-Keeps size (ground arith))
                (bump_count-Keeps iter counts size_word))
              (items-Keeps fuel) st s q out)
        | inr e ↦ rw e refl
      ]

  packed-Keeps :
      Keeps (OutsideField iter) (decode_packed_array func (current iter) iter.p_data iter.p_size)
  unfolding decode_packed_array
  packed-Keeps =
      let items = packed_items func (current iter) iter.p_data iter.p_size in
      Keeps-bind (OutsideField iter) pb_make_string_substream
        (λ substream st s. check_packed s (items substream.bytes_left st substream))
        (λ substream st s q out.
          check_packed-memory iter counts size_word s (items substream.bytes_left st substream) q
          ∙ items-Keeps substream.bytes_left st substream q out)

  one-Keeps : Keeps (OutsideField iter) (decode_item func (current iter) iter.p_data iter.p_size)
  unfolding decode_item
  one-Keeps st s q out =
      let Q = OutsideField iter in
      let size = load_size st.memory iter.p_size in
      let item = func (item_address iter.p_data (current iter).data_size size) in
      let bump : Decode H S = bump_count iter.p_size in
      let room = ltb size (current iter).array_size in
      Keeps-then Q bump (if room then item else fail array_overflow)
        (bump_count-Keeps iter counts size_word)
        (Keeps-if Q room item (fail array_overflow) (λ e. item-Keeps size (ground arith))
          (λ e. Keeps-fail Q array_overflow))
        st s q out

  repeated-Keeps :
      (packed : Bool)
      → Keeps (OutsideField iter) (
          if packed
          then decode_packed_array func (current iter) iter.p_data iter.p_size
          else decode_item func (current iter) iter.p_data iter.p_size)
  repeated-Keeps true = packed-Keeps
  repeated-Keeps false = one-Keeps

flag-Keeps :
    {H S : Type 0} (iter : Iter)
    → member iter ≡ 1
    → Keeps {H = H} {S = S} (OutsideField iter) (put (λ m. write_byte m iter.p_size 1))
unfolding write_byte
flag-Keeps iter flag st s q out =
    let away : Outside iter.p_size 1 q = rw flag at (out.1) in ground arith

tag-Keeps :
    {H S : Type 0} (iter : Iter)
    → member iter ≡ 4
    → iter.p_size + 4 ≤ 2 ^ 64
    → Keeps {H = H} {S = S}
        (OutsideField iter)
        (put (λ m. write_integer m 4 iter.p_size (current iter).tag))
tag-Keeps iter which word =
    Keeps-write (OutsideField iter) iter.p_size (λ m. little_endian 4 (current iter).tag) 4
      (λ m. omega (arith, length-little_endian 4 (current iter).tag)) word
      (λ q out. rw which at (out.1))

-- A scalar field of a structure, which is of static allocation, whose fixed words have their size,
-- whose array is smaller than 2 ^ 32 bytes and which lies, like its count, below the end of the
-- address space: whatever bytes decode_static_field reads, with whatever wire type, and whether it
-- succeeds or fails, it writes only inside the field's own array or value and inside the four bytes
-- of the count or the which_ tag, or the one byte of the has_ flag. For a required field, and an
-- optional one without a flag, it writes only inside the value.
pub decode_static_field-OutsideField :
    {H S : Type 0} (p : Platform H S) (fuel : ℕ) (decode noinit : ℕ → ℕ → Decode H S)
    (wire_type : ℕ) (iter : Iter)
    → IsLaid (current iter)
    → iter.p_size + member iter ≤ 2 ^ 64
    → iter.p_data + extent (current iter) ≤ 2 ^ 64
    → extent (current iter) < 2 ^ 32
    → Keeps
        (OutsideField iter)
        (decode_static_field p fuel (decoder p decode noinit) wire_type iter)
unfolding decode_static_field
decode_static_field-OutsideField {H} {S} p fuel decode noinit wire_type iter laid size_word word
      small =
    let Q = OutsideField iter in
    let field = current iter in
    let func = decoder p decode noinit field in
    let inner : (at : ℕ) → at + field.data_size ≤ 2 ^ 64 → Keeps (Elsewhere field at) (func at) =
      λ at h. decoder-Elsewhere p decode noinit field at laid h in
    let no_message : (ltype field == Ltype.submessage) ≡ false = ground (arith, laid.scalar) in
    let has : Decode H S = put (λ m. write_byte m iter.p_size 1) in
    let which : Decode H S = put (λ m. write_integer m 4 iter.p_size field.tag) in
    let single : htype field ≢ 0x20 → Keeps Q (func iter.p_data) = λ other st s q out.
      let same : extent field ≡ field.data_size = ground arith in
      inner iter.p_data (omega (arith, same, word)) st s q (let away = out.0 in ground arith) in
    let packed = wire_type == WireType.string && leb (ltype field) Ltype.last_packable in
    let at_size : Decode H S =
      if iter.p_size == iter.p_data then func iter.p_data else has >> func iter.p_data in
    let of_array : Decode H S =
      if packed
      then decode_packed_array func field iter.p_data iter.p_size
      else decode_item func field iter.p_data iter.p_size in
    let rest : Decode H S =
      if htype field == Htype.repeated then of_array else which >> func iter.p_data in
    let optional_rest : Decode H S = if htype field == Htype.optional then at_size else rest in
    rw no_message (
      Keeps-if Q (htype field == Htype.required) (func iter.p_data) optional_rest
        (λ e. single (ground arith))
        (λ required.
          Keeps-if Q (htype field == Htype.optional) at_size rest
            (λ optional.
              let value = single (ground arith) in
              Keeps-if Q (iter.p_size == iter.p_data) (func iter.p_data) (has >> func iter.p_data)
                (λ e. value)
                (λ apart.
                  Keeps-then Q has (func iter.p_data)
                    (flag-Keeps iter (member_flag iter (ground (arith, optional)) apart)) value))
            (λ optional.
              let counts = member_size iter (ground (arith, required)) (ground (arith, optional)) in
              let size_word = rw counts at size_word in
              Keeps-if Q (htype field == Htype.repeated) of_array (which >> func iter.p_data)
                (λ e.
                  let kind : htype field ≡ 0x20 = ground arith in
                  let whole : extent field ≡ field.data_size * field.array_size = ground arith in
                  repeated-Keeps iter func size_word kind counts (rw whole at small)
                    (rw whole at word) inner packed)
                (λ e.
                  Keeps-then Q which (func iter.p_data) (tag-Keeps iter counts size_word)
                    (single (ground arith))))))
