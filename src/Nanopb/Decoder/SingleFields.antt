-- ===== src/Nanopb/Decoder/SingleFields.antt =====
-- decode_field of nanopb/pb_decode.c on required and optional fields of a structure.
use fantasy_iq.Base.{ℕ, true, false, List, ◌++◌, ◌==◌, ◌≡◌, ◌≢◌, refl, arith, ◌∙◌, ap}
use fantasy_iq.Nanopb.Field.{Field, htype, atype}
use fantasy_iq.Nanopb.Iterator.{Iter, current}
use fantasy_iq.Nanopb.Decoder.Store.{Memory, Store, Decode, Platform, write_byte, put, ◌>>◌}
use fantasy_iq.Nanopb.Input.{IStream}
use fantasy_iq.Nanopb.Input.Buffer.{source}
use fantasy_iq.Nanopb.Decoder.Static.{decode_static_field}
use fantasy_iq.Nanopb.Decoder.Fields.{decode_field}
use fantasy_iq.Nanopb.Decoder.Copies.{ReadsAt, ReadsAt-after}

module _ {H : Type 0} (p : Platform H (List ℕ)) (fuel : ℕ) (func : Field → ℕ → Decode H (List ℕ))
    (wire_type : ℕ) (iter : Iter) where
  pub goes_static :
      (st : Store H) (s : IStream (List ℕ))
      → htype (current iter) ≢ 0x30
      → atype (current iter) ≡ 0x00
      → decode_field p fuel func wire_type iter st s
        ≡ decode_static_field p fuel func wire_type iter st s
  unfolding decode_field
  goes_static st s single static =
      let h : (htype (current iter) == 0x30) ≡ false = ground arith in
      let a : (atype (current iter) == 0x00) ≡ true = ground arith in rw (h, a) refl

  goes_required :
      htype (current iter) ≡ 0x00
      → decode_static_field p fuel func wire_type iter ≡ func (current iter) iter.p_data
  unfolding decode_static_field
  goes_required required = let h : (htype (current iter) == 0x00) ≡ true = ground arith in rw h refl

  goes_optional :
      htype (current iter) ≡ 0x10
      → iter.p_size ≢ iter.p_data
      → decode_static_field p fuel func wire_type iter
        ≡ put (λ memory. write_byte memory iter.p_size 1) >> func (current iter) iter.p_data
  unfolding decode_static_field
  goes_optional optional apart =
      let h : (htype (current iter) == 0x00) ≡ false = ground arith in
      let h' : (htype (current iter) == 0x10) ≡ true = ground arith in
      let flagged : (iter.p_size == iter.p_data) ≡ false = ground arith in rw (h, h', flagged) refl

module _ {H : Type 0} (p : Platform H (List ℕ)) (fuel : ℕ) (func : Field → ℕ → Decode H (List ℕ))
    (wire_type : ℕ) (iter : Iter) (payload : List ℕ) (effect : Memory → Memory)
    (memory : Memory) where
  -- A required field takes what the function of its type takes.
  pub decode_field_required :
      htype (current iter) ≡ 0x00
      → atype (current iter) ≡ 0x00
      → ReadsAt memory (func (current iter) iter.p_data) payload effect
      → ReadsAt memory (decode_field p fuel func wire_type iter) payload effect
  decode_field_required required static reads st rest a b e at size =
      let s = source (payload ++ rest) a e in
      goes_static p fuel func wire_type iter st s (omega (arith, required)) static
      ∙ ap (λ (f : Decode H (List ℕ)). f st s) (goes_required p fuel func wire_type iter required)
      ∙ reads st rest a b e at size

  -- An optional field also sets its has_ flag.
  pub decode_field_optional :
      htype (current iter) ≡ 0x10
      → iter.p_size ≢ iter.p_data
      → atype (current iter) ≡ 0x00
      → ReadsAt (write_byte memory iter.p_size 1) (func (current iter) iter.p_data) payload effect
      → ReadsAt memory
          (decode_field p fuel func wire_type iter)
          payload
          (λ memory'. effect (write_byte memory' iter.p_size 1))
  decode_field_optional optional apart static reads st rest a b e at size =
      let s = source (payload ++ rest) a e in
      goes_static p fuel func wire_type iter st s (omega (arith, optional)) static
      ∙ ap (λ (f : Decode H (List ℕ)). f st s)
          (goes_optional p fuel func wire_type iter optional apart)
      ∙ ReadsAt-after (λ memory'. write_byte memory' iter.p_size 1)
          (func (current iter) iter.p_data) payload effect memory reads st rest a b e at size
