-- ===== src/Nanopb/FieldEncoders/Values.antt =====
-- What the pb_enc_ functions write for a value in memory.
use fantasy_iq.Base.{
  ℕ, zero, suc, ◌+◌, ◌-◌, ◌*◌, ◌^◌, ◌≤◌, ◌<◌, true, false, ◌&&◌, some, List, [], ◌++◌, length, ltb,
  ◌==◌, if◌then◌else◌, ◌≡◌, ◌≢◌, refl, arith, sym, Bool-cases, inl, inr, ◌⊎◌,
}
use native.Mathlib.Nat.{pow-suc}
use fantasy_iq.Nanopb.Field.{Field, ltype, atype}
use fantasy_iq.Nanopb.Field.Atype
use fantasy_iq.Nanopb.Wire.{varint, zigzag, little_endian, IsU64, IsU32}
use fantasy_iq.Nanopb.Iterator.{add_address}
use fantasy_iq.Nanopb.Output.{Encode}
use fantasy_iq.Nanopb.Output.Emits.{Sink, Emits}
use fantasy_iq.Nanopb.Encode.{pb_encode_string}
use fantasy_iq.Nanopb.Encode.Varint.{pb_encode_varint-Emits}
use fantasy_iq.Nanopb.Encode.Scalars.{
  pb_encode_fixed32-Emits, pb_encode_fixed64-Emits, pb_encode_svarint-Emits, pb_encode_string-Emits,
}
use fantasy_iq.Nanopb.Machine.{Machine, load, load_bytes, sign_extended}
use fantasy_iq.Nanopb.FieldEncoders.{
  signed_value, unsigned_value, string_size, encoder, pb_enc_varint, pb_enc_uvarint, pb_enc_svarint,
  pb_enc_fixed32, pb_enc_fixed64, pb_enc_bytes, pb_enc_string, pb_enc_fixed_length_bytes,
}

pub load-lt : (memory : ℕ → ℕ) (n p : ℕ) → load memory n p < 256 ^ n
unfolding load
load-lt memory zero p = omega arith
load-lt memory (suc n) p = omega (arith, load-lt memory n (add_address p 1), pow-suc 256 n)

pub length-load_bytes : (memory : ℕ → ℕ) (n p : ℕ) → length (load_bytes memory n p) ≡ n
unfolding load_bytes
length-load_bytes memory zero p = refl
length-load_bytes memory (suc n) p = omega (arith, length-load_bytes memory n (add_address p 1))

pub string_size-le : (memory : ℕ → ℕ) (left p : ℕ) → string_size memory left p ≤ left
unfolding string_size
string_size-le memory zero p = omega arith
string_size-le memory (suc left) p = ground (arith, string_size-le memory left (add_address p 1))

-- The sizes that the C integer types have.
abbrev pub IsWidth : ℕ → Type 0
IsWidth n = (n ≡ 1) ⊎ (n ≡ 2) ⊎ (n ≡ 4) ⊎ (n ≡ 8)

-- A two's complement number of `n` bytes as a 64-bit pattern.
abbrev pub as_long : ℕ → ℕ → ℕ
as_long n v = if ltb (v * 2) (256 ^ n) then v else v + 2 ^ 64 - 256 ^ n

-- The bytes of a field of a scalar kind, by the wire format. A string ends at its NUL or at the
-- end of its array, and the address 0 stands for an empty one.
unfoldable pub scalar_bytes : {S : Type 0} → Machine S → Field → ℕ → List ℕ
scalar_bytes m field src =
    let t = ltype field in
    let n = field.data_size in
    let size = if src == 0 then 0 else load m.memory 4 src in
    let max_size = if atype field == Atype.pointer then 2 ^ 64 - 1 else n in
    let characters = if src == 0 then 0 else string_size m.memory max_size src in
    if t == 0
    then varint (as_long n (load m.memory n src))
    else if t == 1
    then varint (load m.memory n src)
    else if t == 2
    then varint (zigzag (as_long n (load m.memory n src)))
    else if t == 3
    then little_endian 4 (load m.memory 4 src)
    else if t == 4
    then little_endian 8 (load m.memory 8 src)
    else if t == 5
    then varint size ++ load_bytes m.memory size (add_address src 4)
    else if t == 6
    then varint characters ++ load_bytes m.memory characters src
    else varint n ++ load_bytes m.memory n src

-- Integers have the size of a C type, and a static byte array is not longer than its field.
pub record IsSized {S : Type 0} (m : Machine S) (field : Field) (src : ℕ) : Type 0 where
  pub width : ltype field ≤ 2 → IsWidth field.data_size
  pub word : IsU32 field.data_size
  pub array :
      ltype field ≡ 5 → atype field ≡ 0 → src ≢ 0 → load m.memory 4 src + 4 ≤ field.data_size

signed_value-as_long :
    {S : Type 0} (m : Machine S) (field : Field) (src : ℕ)
    → IsWidth field.data_size
    → (signed_value m field src
        ≡ some (as_long field.data_size (load m.memory field.data_size src)))
      × IsU64 (as_long field.data_size (load m.memory field.data_size src))
unfolding signed_value sign_extended
signed_value-as_long m field src w = ground (arith, load-lt m.memory field.data_size src)

unsigned_value-load :
    {S : Type 0} (m : Machine S) (field : Field) (src : ℕ)
    → IsWidth field.data_size
    → (unsigned_value m field src ≡ some (load m.memory field.data_size src))
      × IsU64 (load m.memory field.data_size src)
unfolding unsigned_value
unsigned_value-load m field src w = ground (arith, load-lt m.memory field.data_size src)

module _ {S : Type 0} (k : Sink S) (m : Machine S) (field : Field) (src : ℕ) where
  varint-Emits :
      IsWidth field.data_size
      → Emits k
          (pb_enc_varint m field src)
          (varint (as_long field.data_size (load m.memory field.data_size src)))
  unfolding pb_enc_varint
  varint-Emits w =
      let (e, h) = signed_value-as_long m field src w in rw e (pb_encode_varint-Emits k _ h)

  uvarint-Emits :
      IsWidth field.data_size
      → Emits k (pb_enc_uvarint m field src) (varint (load m.memory field.data_size src))
  unfolding pb_enc_uvarint
  uvarint-Emits w =
      let (e, h) = unsigned_value-load m field src w in rw e (pb_encode_varint-Emits k _ h)

  svarint-Emits :
      IsWidth field.data_size
      → Emits k
          (pb_enc_svarint m field src)
          (varint (zigzag (as_long field.data_size (load m.memory field.data_size src))))
  unfolding pb_enc_svarint
  svarint-Emits w =
      let (e, h) = signed_value-as_long m field src w in rw e (pb_encode_svarint-Emits k _ h)

  bytes_of :
      (n p : ℕ)
      → IsU64 n
      → Emits k (pb_encode_string (load_bytes m.memory n p) n) (varint n ++ load_bytes m.memory n p)
  bytes_of n p h =
      pb_encode_string-Emits k (load_bytes m.memory n p) n (sym (length-load_bytes m.memory n p)) h

  bytes-Emits :
      (atype field ≡ 0 → src ≢ 0 → load m.memory 4 src + 4 ≤ field.data_size)
      → let size = if src == 0 then 0 else load m.memory 4 src in
        Emits k
          (pb_enc_bytes m field src)
          (varint size ++ load_bytes m.memory size (add_address src 4))
  unfolding pb_enc_bytes
  bytes-Emits fits = elim (Bool-cases (src == 0)) [
    | inl null ↦ rw null (unfold load_bytes in pb_encode_string-Emits k [] 0 refl (omega arith))
    | inr there ↦
        let small : (atype field == Atype.static && ltb field.data_size (load m.memory 4 src + 4))
            ≡ false =
          ground arith in
        rw (there, small)
          (bytes_of (load m.memory 4 src) (add_address src 4)
            (omega (arith, load-lt m.memory 4 src)))
  ]

  string-Emits :
      IsU32 field.data_size
      → let max_size = if atype field == Atype.pointer then 2 ^ 64 - 1 else field.data_size in
        let n = if src == 0 then 0 else string_size m.memory max_size src in
        Emits k (pb_enc_string m field src) (varint n ++ load_bytes m.memory n src)
  unfolding pb_enc_string
  string-Emits h =
      let max_size = if atype field == Atype.pointer then 2 ^ 64 - 1 else field.data_size in
      bytes_of (if src == 0 then 0 else string_size m.memory max_size src) src
        (ground (arith, string_size-le m.memory max_size src))

  -- For every scalar kind, an integer of one of the sizes of C types, a byte array that is not
  -- longer than its field, a string or a fixed word, the function in PB_ENCODERS writes the bytes
  -- that the wire format gives to the value in memory.
  pub encoder-scalar_bytes :
      (encode : ℕ → ℕ → Encode S)
      → IsSized m field src
      → ltype field ≤ 9
      → ltype field ≢ 7
      → ltype field ≢ 8
      → Emits k (encoder m encode field src) (scalar_bytes m field src)
  unfolding encoder scalar_bytes pb_enc_fixed32 pb_enc_fixed64 pb_enc_fixed_length_bytes
  encoder-scalar_bytes encode sized small not_message not_extension =
      elim (Bool-cases (ltype field == 0)) [
        | inl e ↦ rw e (varint-Emits (sized.width (ground arith)))
        | inr n₀ ↦ rw n₀ (elim (Bool-cases (ltype field == 1)) [
          | inl e ↦ rw e (uvarint-Emits (sized.width (ground arith)))
          | inr n₁ ↦ rw n₁ (elim (Bool-cases (ltype field == 2)) [
            | inl e ↦ rw e (svarint-Emits (sized.width (ground arith)))
            | inr n₂ ↦ rw n₂ (elim (Bool-cases (ltype field == 3)) [
              | inl e ↦ rw e (pb_encode_fixed32-Emits k (load m.memory 4 src))
              | inr n₃ ↦ rw n₃ (elim (Bool-cases (ltype field == 4)) [
                | inl e ↦ rw e (pb_encode_fixed64-Emits k (load m.memory 8 src))
                | inr n₄ ↦ rw n₄ (elim (Bool-cases (ltype field == 5)) [
                  | inl e ↦ rw e (bytes-Emits (sized.array (ground arith)))
                  | inr n₅ ↦ rw n₅ (elim (Bool-cases (ltype field == 6)) [
                    | inl e ↦ rw e (string-Emits sized.word)
                    | inr n₆ ↦
                        let n₇ : (ltype field == 7) ≡ false = ground arith in
                        let last : (ltype field == 9) ≡ true = ground arith in
                        rw (n₆, n₇, last) (bytes_of field.data_size src (omega (arith, sized.word)))
                  ])
                ])
              ])
            ])
          ])
        ])
      ]
