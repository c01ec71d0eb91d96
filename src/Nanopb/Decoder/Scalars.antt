-- ===== src/Nanopb/Decoder/Scalars.antt =====
-- What the pb_dec_ functions store for the bytes that the pb_enc_ functions write.
use fantasy_iq.Base.{
  ℕ, zero, suc, ◌+◌, ◌%◌, ◌^◌, ◌≤◌, ◌<◌, true, false, List, ◌++◌, ltb, ◌==◌, if◌then◌else◌, ◌≡◌,
  ◌≢◌, refl, sym, ap, not, ◌∙◌, arith, Bool-cases, inl, inr,
}
use fantasy_iq.Nanopb.Field.{Field, atype, pb_size_max}
use fantasy_iq.Nanopb.Error.{
  bytes_overflow, size_too_large, string_overflow, incorrect_fixed_length_bytes_size,
}
use fantasy_iq.Nanopb.Wire.{varint, zigzag, little_endian, IsU32}
use fantasy_iq.Nanopb.Iterator.{add_address}
use fantasy_iq.Nanopb.Input.{Read}
use fantasy_iq.Nanopb.Decode.{
  pb_decode_varint, pb_decode_varint32, pb_decode_svarint, pb_decode_fixed32, pb_decode_fixed64,
}
use fantasy_iq.Nanopb.Input.Buffer.{Takes}
use fantasy_iq.Nanopb.Decode.Varint.{pb_decode_varint-varint}
use fantasy_iq.Nanopb.Decode.Varint32.{pb_decode_varint32-varint}
use fantasy_iq.Nanopb.Decode.Scalars.{
  pb_decode_svarint-zigzag, pb_decode_fixed32-little_endian, pb_decode_fixed64-little_endian,
}
use fantasy_iq.Nanopb.Machine.{load, load_bytes, sign_extended}
use fantasy_iq.Nanopb.FieldEncoders.Values.{IsWidth, as_long, load-lt, length-load_bytes}
use fantasy_iq.Nanopb.Decoder.Store.{
  Memory, Decode, Platform, write_byte, write_bytes, write_integer, put, clear, ◌>>=◌, fail,
}
use fantasy_iq.Nanopb.Decoder.Values.{
  pb_dec_varint, pb_dec_uvarint, pb_dec_svarint, pb_dec_fixed32, pb_dec_fixed64, pb_dec_bytes,
  pb_dec_string, pb_dec_fixed_length_bytes, read_into, read_string, read_array, store_integer,
  placed,
}
use fantasy_iq.Nanopb.Decoder.Copies.{
  Reads, Reads-value, Reads-after, Reads-put, Reads-terminated, Reads-bind, read_into-Reads,
  little_endian-load, store_integer-signed, store_integer-unsigned,
}

-- The `n` bytes at `src` of `source` at `dest` of `memory`.
abbrev pub copy : Memory → ℕ → ℕ → ℕ → Memory → Memory
copy source n src dest memory = write_bytes memory dest (load_bytes source n src)

-- Below 64 bits the value passes through an int32_t.
through_int :
    (n v : ℕ)
    → IsWidth n
    → v < 256 ^ n
    → (if n == 8 then as_long n v else sign_extended 32 (as_long n v % 2 ^ 32)) ≡ as_long n v
unfolding sign_extended
through_int n v w h = ground arith

module _ {H : Type 0} (source : Memory) (field : Field) (src dest : ℕ) where
  copy-Reads :
      {A : Type 0} (f : Read (List ℕ) A) (g : A → Decode H (List ℕ)) (xs : List ℕ) (a : A) (n : ℕ)
      → Takes f xs a
      → g a ≡ put (λ m. write_integer m n dest (load source n src))
      → Reads (f >>= g) xs (copy source n src dest)
  copy-Reads f g xs a n p q =
      Reads-value f g xs a (copy source n src dest) p
        (q ∙ ap (λ (t : List ℕ). put (λ m. write_bytes m dest t)) (little_endian-load source n src))

  into-Reads :
      (n p q : ℕ) → Reads {H = H} (read_into q n) (load_bytes source n p) (copy source n p q)
  into-Reads n p q =
      read_into-Reads q n (load_bytes source n p) (sym (length-load_bytes source n p))

  empty-Reads :
      (n p q : ℕ)
      → n ≡ 0
      → Reads {H = H} (put (λ m. clear m q n)) (load_bytes source n p) (copy source n p q)
  unfolding clear load_bytes write_bytes
  empty-Reads zero p q e = Reads-put (λ m. m)
  empty-Reads (suc n) p q e = absurd (omega arith)

  pub uvarint-Reads :
      IsWidth field.data_size
      → Reads {H = H}
          (pb_dec_uvarint field dest)
          (varint (load source field.data_size src))
          (copy source field.data_size src dest)
  unfolding pb_dec_uvarint
  uvarint-Reads w =
      let v = load source field.data_size src in
      let h = load-lt source field.data_size src in
      copy-Reads pb_decode_varint (store_integer false field dest) (varint v) v field.data_size
        (pb_decode_varint-varint v (ground (arith, h))) (store_integer-unsigned field dest v w h)

  pub svarint-Reads :
      IsWidth field.data_size
      → Reads {H = H}
          (pb_dec_svarint field dest)
          (varint (zigzag (as_long field.data_size (load source field.data_size src))))
          (copy source field.data_size src dest)
  unfolding pb_dec_svarint
  svarint-Reads w =
      let v = load source field.data_size src in
      let long = as_long field.data_size v in
      let h = load-lt source field.data_size src in
      copy-Reads pb_decode_svarint (store_integer true field dest) (varint (zigzag long)) long
        field.data_size (pb_decode_svarint-zigzag long (ground (arith, h)))
        (store_integer-signed field dest v w h)

  pub varint-Reads :
      IsWidth field.data_size
      → Reads {H = H}
          (pb_dec_varint field dest)
          (varint (as_long field.data_size (load source field.data_size src)))
          (copy source field.data_size src dest)
  unfolding pb_dec_varint
  varint-Reads w =
      let v = load source field.data_size src in
      let long = as_long field.data_size v in
      let h = load-lt source field.data_size src in
      copy-Reads pb_decode_varint
        (λ value.
          store_integer true field dest
            (if field.data_size == 8 then value else sign_extended 32 (value % 2 ^ 32)))
        (varint long) long field.data_size (pb_decode_varint-varint long (ground (arith, h)))
        (rw (through_int field.data_size v w h) (store_integer-signed field dest v w h))

  pub fixed32-Reads :
      Reads {H = H}
        (pb_dec_fixed32 field dest)
        (little_endian 4 (load source 4 src))
        (copy source 4 src dest)
  unfolding pb_dec_fixed32
  fixed32-Reads =
      let v = load source 4 src in
      copy-Reads pb_decode_fixed32 (λ v. put (λ m. write_integer m 4 dest v)) (little_endian 4 v) v
        4 (pb_decode_fixed32-little_endian v (load-lt source 4 src)) refl

  pub fixed64-Reads :
      Reads {H = H}
        (pb_dec_fixed64 field dest)
        (little_endian 8 (load source 8 src))
        (copy source 8 src dest)
  unfolding pb_dec_fixed64
  fixed64-Reads =
      let v = load source 8 src in
      copy-Reads pb_decode_fixed64 (λ v. put (λ m. write_integer m 8 dest v)) (little_endian 8 v) v
        8 (pb_decode_fixed64-little_endian v (load-lt source 8 src)) refl

  pub fixed_length_bytes-Reads :
      IsU32 field.data_size
      → Reads {H = H}
          (pb_dec_fixed_length_bytes field dest)
          (varint field.data_size ++ load_bytes source field.data_size src)
          (copy source field.data_size src dest)
  unfolding pb_dec_fixed_length_bytes
  fixed_length_bytes-Reads word =
      let n = field.data_size in
      let step : ℕ → Decode H (List ℕ) = λ size.
        if ltb pb_size_max size
        then fail bytes_overflow
        else if size == 0
        then put (λ m. clear m dest field.data_size)
        else if not (size == field.data_size)
        then fail incorrect_fixed_length_bytes_size
        else read_into dest field.data_size in
      Reads-bind pb_decode_varint32 step (varint n) (load_bytes source n src) n
        (copy source n src dest) (pb_decode_varint32-varint n word)
        (elim (Bool-cases (n == 0)) [
          | inl empty ↦
              let taken : step n ≡ put (λ m. clear m dest n) = ground arith in
              rw taken (empty-Reads n src dest (ground arith))
          | inr more ↦
              let taken : step n ≡ read_into dest n = ground arith in
              rw taken (into-Reads n src dest)
        ])

  pub bytes-Reads :
      (p : Platform H (List ℕ))
      → atype field ≢ 0x80
      → let size = load source 4 src in
        size + 4 ≤ field.data_size
        → IsU32 field.data_size
        → Reads {H = H}
            (pb_dec_bytes p field dest)
            (varint size ++ load_bytes source size (add_address src 4))
            (λ m.
              copy source size (add_address src 4) (add_address dest 4) (copy source 4 src dest m))
  unfolding pb_dec_bytes read_array
  bytes-Reads p static fits word =
      let size = load source 4 src in
      let step : ℕ → Decode H (List ℕ) = λ size.
        let alloc_size = (size + 4) % 2 ^ 64 in
        if ltb pb_size_max size
        then fail bytes_overflow
        else if ltb alloc_size size
        then fail size_too_large
        else placed p field dest alloc_size bytes_overflow (λ bdest. read_array bdest size) in
      let taken : step size ≡ read_array dest size = ground arith in
      Reads-bind pb_decode_varint32 step (varint size) (load_bytes source size (add_address src 4))
        size
        (λ m. copy source size (add_address src 4) (add_address dest 4) (copy source 4 src dest m))
        (pb_decode_varint32-varint size (load-lt source 4 src))
        (rw (taken, sym (little_endian-load source 4 src))
          (Reads-after (λ m. write_integer m 4 dest size) (read_into (add_address dest 4) size)
            (load_bytes source size (add_address src 4))
            (copy source size (add_address src 4) (add_address dest 4))
            (into-Reads size (add_address src 4) (add_address dest 4))))

  pub string-Reads :
      (p : Platform H (List ℕ)) (size : ℕ)
      → atype field ≢ 0x80
      → size < field.data_size
      → IsU32 field.data_size
      → Reads {H = H}
          (pb_dec_string p field dest)
          (varint size ++ load_bytes source size src)
          (λ m. write_byte (copy source size src dest m) (add_address dest size) 0)
  unfolding pb_dec_string read_string
  string-Reads p size static fits word =
      let step : ℕ → Decode H (List ℕ) = λ size.
        let alloc_size = (size + 1) % 2 ^ 32 in
        if ltb alloc_size size
        then fail size_too_large
        else placed p field dest alloc_size string_overflow (λ d. read_string d size) in
      let taken : step size ≡ read_string dest size = ground arith in
      Reads-bind pb_decode_varint32 step (varint size) (load_bytes source size src) size
        (λ m. write_byte (copy source size src dest m) (add_address dest size) 0)
        (pb_decode_varint32-varint size (omega arith))
        (rw taken (
          Reads-terminated (add_address dest size) (read_into dest size)
            (load_bytes source size src) (copy source size src dest) (into-Reads size src dest)))
