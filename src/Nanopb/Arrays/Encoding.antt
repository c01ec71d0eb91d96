-- ===== src/Nanopb/Arrays/Encoding.antt =====
-- The bytes of an array by the wire format, and encode_array.
use fantasy_iq.Base.{
  ℕ, ◌≤◌, ◌<◌, true, false, not, ◌&&◌, List, [], ◌++◌, length, ltb, leb, ◌==◌, if◌then◌else◌, ◌≡◌,
  ◌≢◌, arith, Bool-cases, inl, inr, ◌⊎◌,
}
use fantasy_iq.Nanopb.Field.{Field, ltype, atype}
use fantasy_iq.Nanopb.Field.Ltype
use fantasy_iq.Nanopb.Field.Atype
use fantasy_iq.Nanopb.Wire.{varint, key, IsU64, IsU32}
use fantasy_iq.Nanopb.Wire.WireType
use fantasy_iq.Nanopb.Output.{Encode}
use fantasy_iq.Nanopb.Output.Emits.{Sink, Emits, Emits-append, Emits-nil}
use fantasy_iq.Nanopb.Encode.Scalars.{
  wire_type_of, pb_encode_tag-Emits, pb_encode_tag_for_field-Emits,
}
use fantasy_iq.Nanopb.Machine.{Machine}
use fantasy_iq.Nanopb.Arrays.{entry, entry_target, encode_array}
use fantasy_iq.Nanopb.Arrays.Packed.{
  entry_address, entries_bytes, length-entries_bytes, encode_entries-Emits, packed_array-Emits,
}

-- A field with its key in front.
abbrev pub keyed : Field → List ℕ → List ℕ
keyed field bs = key (wire_type_of (ltype field)) field.tag ++ bs

-- The bytes of an array of `count` entries from address `p`, where `f` gives those of an entry.
unfoldable pub array_bytes : {S : Type 0} → Machine S → Field → (ℕ → List ℕ) → ℕ → ℕ → List ℕ
array_bytes m field f p count =
    let packed = entries_bytes f field.data_size count p in
    if count == 0
    then []
    else if leb (ltype field) Ltype.last_packable
    then key WireType.string field.tag ++ (varint (length packed) ++ packed)
    else entries_bytes (λ q. keyed field (f (entry_target m field q))) field.data_size count p

-- A static array is not longer than its field allows, its packed size is a 64-bit number, and
-- the entries of fixed size have that size.
pub record IsArray {S : Type 0} (m : Machine S) (field : Field) (f : ℕ → List ℕ) (p count : ℕ)
    : Type 0 where
  pub inside : (atype field ≡ 0x80) ⊎ (count ≤ field.array_size)
  pub total : IsU64 (length (entries_bytes f field.data_size count p))
  pub four : ltype field ≡ 3 → (q : ℕ) → length (f q) ≡ 4
  pub eight : ltype field ≡ 4 → (q : ℕ) → length (f q) ≡ 8

module _ {S : Type 0} (k : Sink S) (m : Machine S) (field : Field) where
  -- If `func` writes the bytes `f` of every entry, `encode_array` writes the array's: nothing for
  -- an empty one, one field with the packed entries for a numeric kind, and a field per entry for
  -- another kind. The array is well-formed, and the tag a 32-bit number.
  pub encode_array-array_bytes :
      (func : ℕ → Encode S) (f : ℕ → List ℕ) (p count : ℕ)
      → IsU32 field.tag
      → wire_type_of (ltype field) ≢ 8
      → IsArray m field f p count
      → ((i : ℕ)
          → i < count
          → let q = entry_target m field (entry_address field.data_size p i) in
            Emits k (func q) (f q))
      → Emits k (encode_array m field p count func) (array_bytes m field f p count)
  unfolding encode_array array_bytes
  encode_array-array_bytes func f p count tag kind array each = elim (Bool-cases (count == 0)) [
    | inl empty ↦ rw empty (Emits-nil k)
    | inr some_entries ↦
        let fits : (not (atype field == Atype.pointer) && ltb field.array_size count) ≡ false =
          ground (arith, array.inside) in
        rw (some_entries, fits)
          (elim (Bool-cases (leb (ltype field) Ltype.last_packable)) [
            | inl numeric ↦ rw numeric (
                Emits-append k (pb_encode_tag-Emits k WireType.string field.tag tag (omega arith)) (
                  packed_array-Emits k field count _ _
                    (encode_entries-Emits k func f field.data_size count p (λ i less.
                      rw (direct numeric (entry_address field.data_size p i)) at (each i less)))
                    array.total
                    (λ e.
                      length-entries_bytes f field.data_size 4 count p
                        (λ i less. array.four e (entry_address field.data_size p i)))
                    (λ e.
                      length-entries_bytes f field.data_size 8 count p
                        (λ i less. array.eight e (entry_address field.data_size p i)))))
            | inr other ↦ rw other (
                encode_entries-Emits k (entry m field func)
                  (λ q. keyed field (f (entry_target m field q))) field.data_size count p
                  (λ i less.
                    Emits-append k (pb_encode_tag_for_field-Emits k field tag kind) (each i less)))
          ])
  ]
    where
      direct : leb (ltype field) Ltype.last_packable ≡ true → (q : ℕ) → entry_target m field q ≡ q
      direct numeric q = ground arith
