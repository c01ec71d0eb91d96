-- ===== src/Nanopb/Decoder/Frame.antt =====
-- Where the functions in PB_DECODERS write, whatever the bytes that they read.
use fantasy_iq.Base.{ℕ, ◌+◌, ◌^◌, ◌≤◌, ◌≡◌, inl, inr}
use fantasy_iq.Nanopb.Field.{Field, ltype, atype}
use fantasy_iq.Nanopb.Decoder.Store.{Decode, Platform}
use fantasy_iq.Nanopb.Decoder.Values.{decoder}
use fantasy_iq.Nanopb.Decoder.Copies.{IsScalar}
use fantasy_iq.Nanopb.Decoder.Keeps.{Keeps}
use fantasy_iq.Nanopb.Decoder.Safety.{
  Elsewhere, varint-Keeps, uvarint-Keeps, svarint-Keeps, fixed32-Keeps, fixed64-Keeps, bytes-Keeps,
  string-Keeps, fixed_length_bytes-Keeps,
}

-- A scalar field inside a structure, whose fixed words have their size.
pub record IsLaid (field : Field) : Type 0 where
  pub static : atype field ≡ 0
  pub scalar : IsScalar (ltype field)
  pub four : ltype field ≡ 3 → field.data_size ≡ 4
  pub eight : ltype field ≡ 4 → field.data_size ≡ 8

-- A scalar field of static allocation that lies below the end of the address space, a fixed word
-- having 4 or 8 bytes as its kind says: whatever the bytes that it reads and whether it succeeds or
-- fails, the field's function in PB_DECODERS writes only inside the field.
pub decoder-Elsewhere :
    {H S : Type 0} (p : Platform H S) (decode noinit : ℕ → ℕ → Decode H S) (field : Field)
    (dest : ℕ)
    → IsLaid field
    → dest + field.data_size ≤ 2 ^ 64
    → Keeps (Elsewhere field dest) (decoder p decode noinit field dest)
unfolding decoder
decoder-Elsewhere {H} {S} p decode noinit field dest laid word = go laid.scalar
  where
    go : IsScalar (ltype field) → Keeps (Elsewhere field dest) (decoder p decode noinit field dest)
    go (inl e) = rw e (varint-Keeps field dest word)
    go (inr (inl e)) = rw e (uvarint-Keeps field dest word)
    go (inr (inr (inl e))) = rw e (svarint-Keeps field dest word)
    go (inr (inr (inr (inl e)))) = rw e (fixed32-Keeps field dest word (laid.four e))
    go (inr (inr (inr (inr (inl e))))) = rw e (fixed64-Keeps field dest word (laid.eight e))
    go (inr (inr (inr (inr (inr (inl e)))))) = rw e (bytes-Keeps field dest word p laid.static)
    go (inr (inr (inr (inr (inr (inr (inl e))))))) =
        rw e (string-Keeps field dest word p laid.static)
    go (inr (inr (inr (inr (inr (inr (inr e))))))) = rw e (fixed_length_bytes-Keeps field dest word)
