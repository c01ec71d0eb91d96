-- ===== src/Nanopb/Encode/Scalars.antt =====
-- What pb_encode_svarint, pb_encode_fixed32, pb_encode_fixed64, pb_encode_tag,
-- pb_encode_tag_for_field and pb_encode_string write.
use fantasy_iq.Base.{
  ℕ, ◌+◌, ◌-◌, ◌*◌, ◌/◌, ◌%◌, ◌^◌, ◌<◌, bit_and, bit_or, List, [], ◌∷◌, ◌++◌, length, leb, ◌==◌,
  if◌then◌else◌, ◌≡◌, refl, arith, ◌||◌, ◌≢◌,
}
use fantasy_iq.Base.Bits.{mask_remainder, or_shifted, bit_or_comm}
use fantasy_iq.Nanopb.Field.{Field, ltype}
use fantasy_iq.Nanopb.Wire.{varint, key, little_endian, zigzag, IsU64, IsU32}
use fantasy_iq.Nanopb.Wire.WireType
use fantasy_iq.Nanopb.Encode.{
  pb_encode_svarint, pb_encode_fixed32, pb_encode_fixed64, pb_encode_tag, pb_encode_tag_for_field,
  pb_encode_string,
}
use fantasy_iq.Nanopb.Encode.Varint.{pb_encode_varint-Emits}
use fantasy_iq.Nanopb.Output.Emits.{Sink, Emits, Emits-pb_write, Emits-append}

low_byte : (v : ℕ) → bit_and v 0xFF % 256 ≡ v % 256
low_byte v = omega (arith, mask_remainder 8 v)

shifted_word :
    (v : ℕ)
    → little_endian 4 v
      ≡ (v % 256) ∷ (v / 2 ^ 8 % 256) ∷ (v / 2 ^ 16 % 256) ∷ (v / 2 ^ 24 % 256) ∷ []
unfolding little_endian
shifted_word v = ground arith

shifted_long :
    (v : ℕ)
    → little_endian 8 v
      ≡ (v % 256)
        ∷ (v / 2 ^ 8 % 256)
        ∷ (v / 2 ^ 16 % 256)
        ∷ (v / 2 ^ 24 % 256)
        ∷ (v / 2 ^ 32 % 256)
        ∷ (v / 2 ^ 40 % 256)
        ∷ (v / 2 ^ 48 % 256)
        ∷ (v / 2 ^ 56 % 256)
        ∷ []
unfolding little_endian
shifted_long v = ground arith

tag_word :
    (tag wire_type : ℕ)
    → IsU32 tag
    → wire_type < 8
    → bit_or (tag * 2 ^ 3 % 2 ^ 64) wire_type ≡ tag * 8 + wire_type
tag_word tag wire_type ht hw =
    let e : tag * 2 ^ 3 % 2 ^ 64 ≡ tag * 2 ^ 3 = omega arith in
    rw (e, bit_or_comm (tag * 2 ^ 3) (tag * 2 ^ 3) wire_type (omega arith))
      (omega (arith, or_shifted 3 wire_type tag hw))

-- The wire type that belongs to a scalar kind; 8 stands for none.
unfoldable pub wire_type_of : ℕ → ℕ
wire_type_of t =
    if leb t 2
    then WireType.varint
    else if t == 3
    then WireType.bits32
    else if t == 4
    then WireType.bits64
    else if t == 5 || t == 6 || t == 7 || t == 9
    then WireType.string
    else 8

pub wire_type_of-lt : (t : ℕ) → wire_type_of t ≢ 8 → wire_type_of t < 8
unfolding wire_type_of
wire_type_of-lt t h = ground arith

module _ {S : Type 0} (k : Sink S) where
  -- `pb_encode_fixed32` writes the four bytes of a word, the lowest first.
  pub pb_encode_fixed32-Emits : (v : ℕ) → Emits k (pb_encode_fixed32 v) (little_endian 4 v)
  unfolding pb_encode_fixed32
  pb_encode_fixed32-Emits v = rw (shifted_word v) (simp low_byte (Emits-pb_write k _ 4 refl))

  -- `pb_encode_fixed64` writes the eight bytes of a long word, the lowest first.
  pub pb_encode_fixed64-Emits : (v : ℕ) → Emits k (pb_encode_fixed64 v) (little_endian 8 v)
  unfolding pb_encode_fixed64
  pb_encode_fixed64-Emits v = rw (shifted_long v) (simp low_byte (Emits-pb_write k _ 8 refl))

  -- `pb_encode_svarint` writes the varint of the zigzag number of a 64-bit pattern.
  pub pb_encode_svarint-Emits :
      (v : ℕ) → IsU64 v → Emits k (pb_encode_svarint v) (varint (zigzag v))
  unfolding pb_encode_svarint
  pb_encode_svarint-Emits v h =
      let e : (if leb (2 ^ 63) v then 2 ^ 64 - 1 - v * 2 % 2 ^ 64 else v * 2 % 2 ^ 64) ≡ zigzag v =
        ground arith in
      rw e (pb_encode_varint-Emits k (zigzag v) (ground arith))

  -- `pb_encode_tag` writes the key of a 32-bit tag and a wire type below 8.
  pub pb_encode_tag-Emits :
      (wire_type tag : ℕ)
      → IsU32 tag
      → wire_type < 8
      → Emits k (pb_encode_tag wire_type tag) (key wire_type tag)
  unfolding pb_encode_tag
  pb_encode_tag-Emits wire_type tag ht hw =
      rw (tag_word tag wire_type ht hw) (pb_encode_varint-Emits k _ (omega arith))

  tag_for_field-eq-tag :
      (field : Field)
      → wire_type_of (ltype field) ≢ 8
      → pb_encode_tag_for_field {S = S} field ≡ pb_encode_tag (wire_type_of (ltype field)) field.tag
  unfolding pb_encode_tag_for_field wire_type_of
  tag_for_field-eq-tag field hw = ground arith

  -- For every scalar kind that has a wire type, `pb_encode_tag_for_field` writes the key of the
  -- field's 32-bit tag with that wire type.
  pub pb_encode_tag_for_field-Emits :
      (field : Field)
      → IsU32 field.tag
      → wire_type_of (ltype field) ≢ 8
      → Emits k (pb_encode_tag_for_field field) (key (wire_type_of (ltype field)) field.tag)
  pb_encode_tag_for_field-Emits field ht hw = rw (tag_for_field-eq-tag field hw) (
      pb_encode_tag-Emits (wire_type_of (ltype field)) field.tag ht
        (wire_type_of-lt (ltype field) hw))

  -- `pb_encode_string` writes the varint of the length and then the bytes.
  pub pb_encode_string-Emits :
      (bs : List ℕ) (n : ℕ)
      → n ≡ length bs
      → IsU64 n
      → Emits k (pb_encode_string bs n) (varint n ++ bs)
  unfolding pb_encode_string
  pb_encode_string-Emits bs n e h =
      Emits-append k (pb_encode_varint-Emits k n h) (Emits-pb_write k bs n e)
