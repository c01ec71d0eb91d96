-- ===== src/Nanopb/Arrays/Packed.antt =====
-- What encode_array writes: packed and unpacked arrays.
use fantasy_iq.Base.{
  ℕ, zero, suc, ◌+◌, ◌*◌, ◌%◌, ◌<◌, List, [], ◌++◌, length, ◌==◌, ◌≡◌, refl, arith, ap, ◌∙◌,
  length-append, Bool-cases, inl, inr,
}
use fantasy_iq.Nanopb.Field.{Field, ltype}
use fantasy_iq.Nanopb.Wire.{varint, IsU64}
use fantasy_iq.Nanopb.Iterator.{add_address}
use fantasy_iq.Nanopb.Output.{OStream, Encode, size_mod, ◌>>◌, pb_write, sizing}
use fantasy_iq.Nanopb.Output.Emits.{Sink, Emits, Emits-append, Emits-nil}
use fantasy_iq.Nanopb.Encode.{pb_encode_varint}
use fantasy_iq.Nanopb.Encode.Varint.{pb_encode_varint-Emits}
use fantasy_iq.Nanopb.FieldEncoders.Submessage.{Emits-ext}
use fantasy_iq.Nanopb.Arrays.{encode_entries, packed_data, size_packed, packed_array}

-- The address of an entry of an array.
unfoldable pub entry_address : ℕ → ℕ → ℕ → ℕ
entry_address data_size p zero = p
entry_address data_size p (suc i) = entry_address data_size (add_address p data_size) i

-- The entries' bytes one behind the other.
unfoldable pub entries_bytes : (ℕ → List ℕ) → ℕ → ℕ → ℕ → List ℕ
entries_bytes f data_size zero p = []
entries_bytes f data_size (suc count) p =
    f p ++ entries_bytes f data_size count (add_address p data_size)

pub length-entries_bytes :
    (f : ℕ → List ℕ) (data_size n count p : ℕ)
    → ((i : ℕ) → i < count → length (f (entry_address data_size p i)) ≡ n)
    → length (entries_bytes f data_size count p) ≡ n * count
unfolding entries_bytes entry_address
length-entries_bytes f data_size n zero p h = omega arith
length-entries_bytes f data_size n (suc count) p h = omega (
  arith,
  h 0 (omega arith),
  length-append (f p) (entries_bytes f data_size count (add_address p data_size)),
  length-entries_bytes f data_size n count (add_address p data_size)
      (λ i less. h (suc i) (omega arith)),
)

module _ {S : Type 0} (k : Sink S) where
  pub encode_entries-Emits :
      (func : ℕ → Encode S) (f : ℕ → List ℕ) (data_size count p : ℕ)
      → ((i : ℕ)
          → i < count
          → Emits k (func (entry_address data_size p i)) (f (entry_address data_size p i)))
      → Emits k (encode_entries func data_size count p) (entries_bytes f data_size count p)
  unfolding encode_entries entries_bytes entry_address
  encode_entries-Emits func f data_size zero p h = Emits-nil k
  encode_entries-Emits func f data_size (suc count) p h = Emits-append k (h 0 (omega arith)) (
      encode_entries-Emits func f data_size count (add_address p data_size)
        (λ i less. h (suc i) (omega arith)))

  packed_data-Emits :
      (entries : Encode S) (bs : List ℕ)
      → Emits k entries bs
      → Emits k (packed_data entries (length bs)) bs
  unfolding pb_write
  packed_data-Emits entries bs p = record {
    counts = λ s c. ground arith;
    writes = λ s c. ground (arith, p.writes s c);
    refuses = λ s c. ground (arith, p.refuses s c);
  }

  with_size :
      (entries : Encode S) (bs : List ℕ)
      → Emits k entries bs
      → IsU64 (length bs)
      → Emits k
          (pb_encode_varint (length bs) >> packed_data entries (length bs))
          (varint (length bs) ++ bs)
  with_size entries bs p h =
      Emits-append k (pb_encode_varint-Emits k (length bs) h) (packed_data-Emits entries bs p)

  size_counted :
      (entries : Encode S) (bs : List ℕ) (s : OStream S)
      → Emits k entries bs
      → IsU64 (length bs)
      → size_packed entries s (entries (sizing s.state))
        ≡ (pb_encode_varint (length bs) >> packed_data entries (length bs)) s
  size_counted entries bs s p h =
      let from_zero : 0 + length bs ≡ length bs = omega arith in
      ap (size_packed entries s) (p.counts (sizing s.state) (refl, omega arith, refl))
      ∙ rw from_zero

  -- However the size is found, it is that of the entries' bytes.
  pub packed_array-Emits :
      (field : Field) (count : ℕ) (entries : Encode S) (bs : List ℕ)
      → Emits k entries bs
      → IsU64 (length bs)
      → (ltype field ≡ 3 → length bs ≡ 4 * count)
      → (ltype field ≡ 4 → length bs ≡ 8 * count)
      → Emits k (packed_array field count entries) (varint (length bs) ++ bs)
  packed_array-Emits field count entries bs p h four eight =
      Emits-ext k (λ s. sized s) (with_size entries bs p h)
    where
      sized :
          (s : OStream S)
          → packed_array field count entries s
            ≡ (pb_encode_varint (length bs) >> packed_data entries (length bs)) s
      sized s = elim (Bool-cases (ltype field == 3)) [
        | inl e ↦ let same : 4 * count % size_mod ≡ length bs = ground arith in rw (e, same) refl
        | inr other ↦ rw other (elim (Bool-cases (ltype field == 4)) [
          | inl e ↦ let same : 8 * count % size_mod ≡ length bs = ground arith in rw (e, same) refl
          | inr any ↦ rw any (size_counted entries bs s p h)
        ])
      ]
