-- ===== src/Nanopb/Message/Same.antt =====
-- The bytes of a field with more fuel, where its submessages have the same bytes.
use fantasy_iq.Base.{
  ℕ, zero, suc, ◌+◌, ◌<◌, Bool, false, List, length, ◌==◌, ◌≡◌, ◌≢◌, arith, Bool-cases, inl, inr,
  refl, ap, sym, ◌∙◌,
}
use fantasy_iq.Nanopb.Field.{Field, ltype, htype, atype}
use fantasy_iq.Nanopb.Iterator.{add_address, field_at}
use fantasy_iq.Nanopb.Iterator.Walk.{walk}
use fantasy_iq.Nanopb.Machine.{Machine}
use fantasy_iq.Nanopb.Defaults.{pb_check_proto3_default_value}
use fantasy_iq.Nanopb.Arrays.{entry_target}
use fantasy_iq.Nanopb.Arrays.Packed.{entry_address, entries_bytes}
use fantasy_iq.Nanopb.Arrays.Encoding.{keyed, array_bytes, IsArray}
use fantasy_iq.Nanopb.Message.Encoding.{
  value_bytes, target_of, is_present, count_of, stored_bytes, field_bytes, fields_bytes, IsValue,
  IsStored, IsField, stored, no_callback, no_extension,
}

entries_bytes-ext :
    (f g : ℕ → List ℕ) (data_size count p : ℕ)
    → ((i : ℕ) → i < count → f (entry_address data_size p i) ≡ g (entry_address data_size p i))
    → entries_bytes f data_size count p ≡ entries_bytes g data_size count p
unfolding entries_bytes entry_address
entries_bytes-ext f g data_size zero p h = refl
entries_bytes-ext f g data_size (suc count) p h = rw (
  h 0 (omega arith),
  entries_bytes-ext f g data_size count (add_address p data_size)
      (λ i less. h (suc i) (omega arith)),
)

module _ {S : Type 0} (m : Machine S) (sub sub' : ℕ → ℕ → List ℕ) (IsSub IsSub' : ℕ → ℕ → Type 0)
    (same : (d src : ℕ) → IsSub d src → sub' d src ≡ sub d src)
    (still : (d src : ℕ) → IsSub d src → IsSub' d src) (field : Field) where
  scalar-same :
      (src : ℕ) → ltype field ≢ 7 → value_bytes m sub' field src ≡ value_bytes m sub field src
  unfolding value_bytes
  scalar-same src h = let other : (ltype field == 7) ≡ false = ground arith in rw other

  value-same :
      (src : ℕ)
      → IsValue m IsSub sub field src
      → value_bytes m sub' field src ≡ value_bytes m sub field src
  unfolding value_bytes
  value-same src v = elim (Bool-cases (ltype field == 7)) [
    | inl e ↦ rw (e, same field.ptr src ((v.message (ground arith)).2))
    | inr other ↦ rw other
  ]

  IsValue-still : (src : ℕ) → IsValue m IsSub sub field src → IsValue m IsSub' sub' field src
  IsValue-still src v = record {
    scalar = v.scalar;
    message = λ e.
        let (there, small, ok) = v.message e in
        (there, rw (same field.ptr src ok) small, still field.ptr src ok);
  }

  module _ (p count : ℕ)
      (each : (i : ℕ)
        → i < count
        → IsValue m IsSub sub field
            (entry_target m field (entry_address field.data_size p i))) where
    entry-same :
        (i : ℕ)
        → i < count
        → value_bytes m sub' field (entry_address field.data_size p i)
          ≡ value_bytes m sub field (entry_address field.data_size p i)
    entry-same i less = elim (Bool-cases (ltype field == 7)) [
      | inl e ↦
          let q = entry_address field.data_size p i in
          let direct : entry_target m field q ≡ q = ground arith in
          rw direct at (value-same (entry_target m field q) (each i less))
      | inr other ↦ scalar-same _ (ground arith)
    ]

    packed-same :
        entries_bytes (value_bytes m sub' field) field.data_size count p
        ≡ entries_bytes (value_bytes m sub field) field.data_size count p
    packed-same = entries_bytes-ext _ _ field.data_size count p entry-same

    array-same :
        array_bytes m field (value_bytes m sub' field) p count
        ≡ array_bytes m field (value_bytes m sub field) p count
    unfolding array_bytes
    array-same = rw (
      packed-same,
      entries_bytes-ext (λ q. keyed field (value_bytes m sub' field (entry_target m field q)))
          (λ q. keyed field (value_bytes m sub field (entry_target m field q))) field.data_size
          count p (λ i less. rw (value-same _ (each i less))),
    )

    IsArray-still :
        IsArray m field (value_bytes m sub field) p count
        → IsArray m field (value_bytes m sub' field) p count
    IsArray-still a = record {
      inside = a.inside;
      total = rw packed-same a.total;
      four = λ e q. rw (scalar-same q (omega arith)) (a.four e q);
      eight = λ e q. rw (scalar-same q (omega arith)) (a.eight e q);
    }

  module _ (fuel p_data : ℕ) (st : IsStored m fuel IsSub sub field p_data) where
    settled-still :
        htype field ≡ 0x10
        → field.size_offset ≡ 0
        → atype field ≡ 0x00
        → (more : ℕ)
        → pb_check_proto3_default_value m (suc fuel + more) field p_data
          ≡ pb_check_proto3_default_value m (suc fuel) field p_data
    settled-still e o a more =
        let check : ℕ → Bool = λ n. pb_check_proto3_default_value m n field p_data in
        let left : suc fuel + more ≡ fuel + suc more = omega arith in
        let right : fuel + 1 ≡ suc fuel = omega arith in
        ap check left ∙ st.settled e o a (suc more) ∙ sym (st.settled e o a 1) ∙ ap check right

    present-same :
        htype field ≡ 0x10 → is_present m (suc fuel) field p_data ≡ is_present m fuel field p_data
    present-same e =
        let check : ℕ → Bool = λ n. pb_check_proto3_default_value m n field p_data in
        let next : suc fuel ≡ fuel + 1 = omega arith in
        let now : field.size_offset ≡ 0
            → atype field ≡ 0x00
            → pb_check_proto3_default_value m (suc fuel) field p_data
              ≡ pb_check_proto3_default_value m fuel field p_data =
          λ o a. ap check next ∙ st.settled e o a 1 in
        ground (arith, st.allocation, now)

    stored-same : stored_bytes m (suc fuel) sub' field p_data ≡ stored_bytes m fuel sub field p_data
    unfolding stored_bytes
    stored-same =
        let target = target_of m field p_data in
        elim (Bool-cases (htype field == 0x00)) [
          | inl e ↦ rw (e, value-same target (st.value (ground arith)))
          | inr n₀ ↦ rw n₀ (elim (Bool-cases (htype field == 0x10)) [
            | inl e ↦
                rw (e, value-same target (st.value (ground arith)), present-same (ground arith))
            | inr n₁ ↦ rw n₁ (elim (Bool-cases (htype field == 0x20)) [
              | inl e ↦
                  rw (e, array-same target (count_of m field p_data) (st.entries (ground arith)))
              | inr n₂ ↦ rw (n₂, value-same target (st.value (ground arith)))
            ])
          ])
        ]

    IsStored-still : IsStored m (suc fuel) IsSub' sub' field p_data
    IsStored-still = record {
      tag = st.tag;
      kind = st.kind;
      allocation = st.allocation;
      settled = settled-still;
      required = st.required;
      oneof = st.oneof;
      value = λ e. IsValue-still _ (st.value e);
      array = λ e. IsArray-still _ _ (st.entries e) (st.array e);
      entries = λ e i less. IsValue-still _ (st.entries e i less);
    }

  pub field-same :
      (fuel p_data : ℕ)
      → IsField m fuel IsSub sub field p_data
      → field_bytes m (suc fuel) sub' field p_data ≡ field_bytes m fuel sub field p_data
  unfolding field_bytes
  field-same fuel p_data (stored st) = rw (stored-same fuel p_data st)
  field-same fuel p_data (no_callback h a f) = ground arith
  field-same fuel p_data (no_extension h p) = ground arith

  pub IsField-still :
      (fuel p_data : ℕ)
      → IsField m fuel IsSub sub field p_data
      → IsField m (suc fuel) IsSub' sub' field p_data
  IsField-still fuel p_data (stored st) = stored (IsStored-still fuel p_data st)
  IsField-still fuel p_data (no_callback h a f) = no_callback h a f
  IsField-still fuel p_data (no_extension h p) = no_extension h p

pub fields-same :
    {S : Type 0} (m : Machine S) (one other : Field → ℕ → List ℕ) (fields : List Field)
    (src n k : ℕ)
    → k + n ≡ length fields
    → ((i : ℕ)
        → i < length fields
        → one (field_at fields i) (walk fields src i).p_data
          ≡ other (field_at fields i) (walk fields src i).p_data)
    → fields_bytes m one fields src n k ≡ fields_bytes m other fields src n k
unfolding fields_bytes
fields-same m one other fields src zero k e h = refl
fields-same m one other fields src (suc n) k e h =
    rw (h k (omega arith), fields-same m one other fields src n (suc k) (omega arith) h)
