-- ===== src/Nanopb/Decoder/RepeatedFields.antt =====
-- decode_field of nanopb/pb_decode.c on arrays inside a structure.
use fantasy_iq.Base.{ℕ, true, false, List, ◌≤◌, ◌++◌, leb, ◌&&◌, ◌==◌, ◌≡◌, refl, arith, ◌∙◌, ap}
use fantasy_iq.Nanopb.Field.{Field, ltype, htype, atype}
use fantasy_iq.Nanopb.Field.Ltype
use fantasy_iq.Nanopb.Wire.WireType
use fantasy_iq.Nanopb.Iterator.{Iter, current}
use fantasy_iq.Nanopb.Input.Buffer.{source}
use fantasy_iq.Nanopb.Decoder.Store.{Memory, Decode, Platform}
use fantasy_iq.Nanopb.Decoder.Static.{decode_static_field, decode_packed_array, decode_item}
use fantasy_iq.Nanopb.Decoder.Fields.{decode_field}
use fantasy_iq.Nanopb.Decoder.Copies.{ReadsAt}
use fantasy_iq.Nanopb.Decoder.SingleFields.{goes_static}

module _ {H : Type 0} (p : Platform H (List ℕ)) (fuel : ℕ) (func : Field → ℕ → Decode H (List ℕ))
    (wire_type : ℕ) (iter : Iter) where
  goes_packed :
      htype (current iter) ≡ 0x20
      → ltype (current iter) ≤ 4
      → wire_type ≡ 2
      → decode_static_field p fuel func wire_type iter
        ≡ decode_packed_array (func (current iter)) (current iter) iter.p_data iter.p_size
  unfolding decode_static_field
  goes_packed repeated number wire =
      let packed : (wire_type == WireType.string && leb (ltype (current iter)) Ltype.last_packable)
          ≡ true =
        ground arith in
      rw (repeated, packed) refl

  goes_item :
      htype (current iter) ≡ 0x20
      → (wire_type == WireType.string && leb (ltype (current iter)) Ltype.last_packable) ≡ false
      → decode_static_field p fuel func wire_type iter
        ≡ decode_item (func (current iter)) (current iter) iter.p_data iter.p_size
  unfolding decode_static_field
  goes_item repeated single = rw (repeated, single) refl

module _ {H : Type 0} (p : Platform H (List ℕ)) (fuel : ℕ) (func : Field → ℕ → Decode H (List ℕ))
    (wire_type : ℕ) (iter : Iter) (payload : List ℕ) (effect : Memory → Memory) (memory : Memory)
    (repeated : htype (current iter) ≡ 0x20) (static : atype (current iter) ≡ 0x00) where
  -- An array of numbers in one field.
  pub decode_field_packed :
      ltype (current iter) ≤ 4
      → wire_type ≡ 2
      → ReadsAt memory
          (decode_packed_array (func (current iter)) (current iter) iter.p_data iter.p_size)
          payload
          effect
      → ReadsAt memory (decode_field p fuel func wire_type iter) payload effect
  decode_field_packed number wire reads st rest a b e at size =
      let s = source (payload ++ rest) a e in
      goes_static p fuel func wire_type iter st s (omega (arith, repeated)) static
      ∙ ap (λ (f : Decode H (List ℕ)). f st s)
          (goes_packed p fuel func wire_type iter repeated number wire)
      ∙ reads st rest a b e at size

  -- One entry of an array.
  pub decode_field_item :
      (wire_type == WireType.string && leb (ltype (current iter)) Ltype.last_packable) ≡ false
      → ReadsAt memory
          (decode_item (func (current iter)) (current iter) iter.p_data iter.p_size)
          payload
          effect
      → ReadsAt memory (decode_field p fuel func wire_type iter) payload effect
  decode_field_item single reads st rest a b e at size =
      let s = source (payload ++ rest) a e in
      goes_static p fuel func wire_type iter st s (omega (arith, repeated)) static
      ∙ ap (λ (f : Decode H (List ℕ)). f st s)
          (goes_item p fuel func wire_type iter repeated single)
      ∙ reads st rest a b e at size
