-- ===== src/Nanopb/Decoder/Kinds.antt =====
-- What is known of a value by the kind of its field (nanopb/pb_encode.c).
use fantasy_iq.Base.{
  ℕ, ◌<◌, ◌≤◌, true, false, List, length, ◌==◌, ◌≡◌, ◌≢◌, arith, inl, inr, Bool-cases,
}
use fantasy_iq.Nanopb.Field.{Field, ltype}
use fantasy_iq.Nanopb.Wire.{zigzag, length-groups, length-little_endian}
use fantasy_iq.Nanopb.Machine.{Machine, load}
use fantasy_iq.Nanopb.FieldEncoders.Values.{scalar_bytes, as_long}
use fantasy_iq.Nanopb.Message.Encoding.{value_bytes}
use fantasy_iq.Nanopb.Encode.Scalars.{wire_type_of}

-- The extension kind has no wire type.
pub no_extension : (t : ℕ) → wire_type_of t ≢ 8 → (t == 8) ≡ false
unfolding wire_type_of
no_extension t h = ground arith

-- A number has a byte at least.
pub number-long :
    {S : Type 0} (m : Machine S) (sub : ℕ → ℕ → List ℕ) (field : Field) (src : ℕ)
    → ltype field ≤ 4
    → 0 < length (value_bytes m sub field src)
unfolding value_bytes scalar_bytes
number-long m sub field src number =
    let v = load m.memory field.data_size src in
    let scalar : (ltype field == 7) ≡ false = ground arith in
    rw scalar (elim (Bool-cases (ltype field == 0)) [
      | inl e ↦ rw e (omega (arith, length-groups 9 (as_long field.data_size v)))
      | inr n₀ ↦ rw n₀ (elim (Bool-cases (ltype field == 1)) [
        | inl e ↦ rw e (omega (arith, length-groups 9 v))
        | inr n₁ ↦ rw n₁ (elim (Bool-cases (ltype field == 2)) [
          | inl e ↦ rw e (omega (arith, length-groups 9 (zigzag (as_long field.data_size v))))
          | inr n₂ ↦ rw n₂ (elim (Bool-cases (ltype field == 3)) [
            | inl e ↦ rw e (omega (arith, length-little_endian 4 (load m.memory 4 src)))
            | inr n₃ ↦
                let last : (ltype field == 4) ≡ true = ground arith in
                rw (n₃, last) (omega (arith, length-little_endian 8 (load m.memory 8 src)))
          ])
        ])
      ])
    ])
