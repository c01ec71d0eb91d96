-- ===== src/Nanopb/Decoder/Safety.antt =====
-- Where the pb_dec_ functions write, whatever the bytes that they read.
use fantasy_iq.Base.{
  ℕ, ◌+◌, ◌%◌, ◌^◌, ◌≤◌, Bool, true, false, not, ltb, ◌==◌, if◌then◌else◌, ◌≡◌, ◌∙◌, arith, ap,
  length-replicate, replicate,
}
use fantasy_iq.Nanopb.Error.{
  Error, bytes_overflow, size_too_large, string_overflow, incorrect_fixed_length_bytes_size,
  invalid_data_size, integer_too_large,
}
use fantasy_iq.Nanopb.Field.{Field, atype, pb_size_max}
use fantasy_iq.Nanopb.Wire.{little_endian, length-little_endian}
use fantasy_iq.Nanopb.Iterator.{add_address}
use fantasy_iq.Nanopb.Machine.{sign_extended}
use fantasy_iq.Nanopb.Decode.{
  pb_decode_varint, pb_decode_varint32, pb_decode_svarint, pb_decode_fixed32, pb_decode_fixed64,
}
use fantasy_iq.Nanopb.Decoder.Store.{
  Memory, Decode, Platform, write_integer, clear, put, fail, done, ◌>>◌,
}
use fantasy_iq.Nanopb.Decoder.Memory.{Outside, clear-eq-write_bytes}
use fantasy_iq.Nanopb.Decoder.Values.{
  store_integer, clamped, is_width, pb_dec_varint, pb_dec_uvarint, pb_dec_svarint, pb_dec_fixed32,
  pb_dec_fixed64, pb_dec_bytes, pb_dec_string, pb_dec_fixed_length_bytes, read_into, read_array,
  read_string, placed,
}
use fantasy_iq.Nanopb.Decoder.Keeps.{
  Keeps, Keeps-fail, Keeps-done, Keeps-write, Keeps-then, Keeps-bind, Keeps-if, Keeps-terminated,
  Keeps-read_into,
}

-- The addresses outside a field.
abbrev pub Elsewhere : Field → ℕ → ℕ → Type 0
Elsewhere field dest = Outside dest field.data_size

module _ {H S : Type 0} (field : Field) (dest : ℕ) (word : dest + field.data_size ≤ 2 ^ 64) where
  integer-Keeps :
      (n v : ℕ)
      → n ≤ field.data_size
      → Keeps {H = H} {S = S} (Elsewhere field dest) (put (λ m. write_integer m n dest v))
  integer-Keeps n v h =
      Keeps-write (Elsewhere field dest) dest (λ m. little_endian n v) n
        (λ m. omega (arith, length-little_endian n v)) (omega arith) (λ q out. ground arith)

  store_integer-Keeps :
      (signed : Bool) (v : ℕ)
      → Keeps {H = H} {S = S} (Elsewhere field dest) (store_integer signed field dest v)
  store_integer-Keeps signed v =
      let n = field.data_size in
      let check : Decode H S = if clamped signed n v == v then done else fail integer_too_large in
      Keeps-if (Elsewhere field dest) (is_width n)
        (put (λ m. write_integer m n dest (v % 256 ^ n)) >> check) (fail invalid_data_size)
        (λ e.
          Keeps-then (Elsewhere field dest) (put (λ m. write_integer m n dest (v % 256 ^ n))) check
            (integer-Keeps n (v % 256 ^ n) (omega arith))
            (Keeps-if (Elsewhere field dest) (clamped signed n v == v) done (fail integer_too_large)
              (λ e. Keeps-done (Elsewhere field dest))
              (λ e. Keeps-fail (Elsewhere field dest) integer_too_large)))
        (λ e. Keeps-fail (Elsewhere field dest) invalid_data_size)

  pub uvarint-Keeps : Keeps {H = H} {S = S} (Elsewhere field dest) (pb_dec_uvarint field dest)
  unfolding pb_dec_uvarint
  uvarint-Keeps =
      Keeps-bind (Elsewhere field dest) pb_decode_varint (store_integer false field dest)
        (store_integer-Keeps false)

  pub svarint-Keeps : Keeps {H = H} {S = S} (Elsewhere field dest) (pb_dec_svarint field dest)
  unfolding pb_dec_svarint
  svarint-Keeps =
      Keeps-bind (Elsewhere field dest) pb_decode_svarint (store_integer true field dest)
        (store_integer-Keeps true)

  pub varint-Keeps : Keeps {H = H} {S = S} (Elsewhere field dest) (pb_dec_varint field dest)
  unfolding pb_dec_varint
  varint-Keeps =
      let value : ℕ → ℕ = λ v. if field.data_size == 8 then v else sign_extended 32 (v % 2 ^ 32) in
      Keeps-bind (Elsewhere field dest) pb_decode_varint
        (λ v. store_integer true field dest (value v)) (λ v. store_integer-Keeps true (value v))

  pub fixed32-Keeps :
      field.data_size ≡ 4 → Keeps {H = H} {S = S} (Elsewhere field dest) (pb_dec_fixed32 field dest)
  unfolding pb_dec_fixed32
  fixed32-Keeps four =
      Keeps-bind (Elsewhere field dest) pb_decode_fixed32 (λ v. put (λ m. write_integer m 4 dest v))
        (λ v. integer-Keeps 4 v (omega arith))

  pub fixed64-Keeps :
      field.data_size ≡ 8 → Keeps {H = H} {S = S} (Elsewhere field dest) (pb_dec_fixed64 field dest)
  unfolding pb_dec_fixed64
  fixed64-Keeps eight =
      Keeps-bind (Elsewhere field dest) pb_decode_fixed64 (λ v. put (λ m. write_integer m 8 dest v))
        (λ v. integer-Keeps 8 v (omega arith))

  clear-Keeps :
      Keeps {H = H} {S = S} (Elsewhere field dest) (put (λ m. clear m dest field.data_size))
  clear-Keeps st s q out =
      let n = field.data_size in
      ap (λ (m : Memory). m q) (clear-eq-write_bytes n st.memory dest)
      ∙ Keeps-write {H = H} {S = S} (Elsewhere field dest) dest (λ m. replicate n 0) n
          (λ m. omega (arith, length-replicate {A = ℕ} n 0)) word (λ q out. out) st s q out

  pub fixed_length_bytes-Keeps :
      Keeps {H = H} {S = S} (Elsewhere field dest) (pb_dec_fixed_length_bytes field dest)
  unfolding pb_dec_fixed_length_bytes
  fixed_length_bytes-Keeps =
      let Q = Elsewhere field dest in
      let read = read_into {H = H} {S = S} dest field.data_size in
      let zeros : Decode H S = put (λ m. clear m dest field.data_size) in
      let sized : ℕ → Decode H S = λ size.
        if not (size == field.data_size) then fail incorrect_fixed_length_bytes_size else read in
      let some_bytes : ℕ → Decode H S = λ size. if size == 0 then zeros else sized size in
      Keeps-bind Q pb_decode_varint32
        (λ size. if ltb pb_size_max size then fail bytes_overflow else some_bytes size)
        (λ size.
          Keeps-if Q (ltb pb_size_max size) (fail bytes_overflow) (some_bytes size)
            (λ e. Keeps-fail Q bytes_overflow)
            (λ e.
              Keeps-if Q (size == 0) zeros (sized size) (λ e. clear-Keeps)
                (λ e.
                  Keeps-if Q (not (size == field.data_size))
                    (fail incorrect_fixed_length_bytes_size) read
                    (λ e. Keeps-fail Q incorrect_fixed_length_bytes_size)
                    (λ e. Keeps-read_into Q dest field.data_size word (λ q out. out)))))

  -- A byte array or a string of a static field that is at least `alloc` bytes.
  placed-Keeps :
      (p : Platform H S) (alloc : ℕ) (overflow : Error) (read : ℕ → Decode H S)
      → atype field ≡ 0
      → (alloc ≤ field.data_size → Keeps (Elsewhere field dest) (read dest))
      → Keeps (Elsewhere field dest) (placed p field dest alloc overflow read)
  placed-Keeps p alloc overflow read static h =
      let there : (atype field == 0x80) ≡ false = ground arith in
      rw there (
        Keeps-if (Elsewhere field dest) (ltb field.data_size alloc) (fail overflow) (read dest)
          (λ e. Keeps-fail (Elsewhere field dest) overflow) (λ e. h (ground arith)))

  pub bytes-Keeps :
      (p : Platform H S)
      → atype field ≡ 0
      → Keeps (Elsewhere field dest) (pb_dec_bytes p field dest)
  unfolding pb_dec_bytes read_array
  bytes-Keeps p static =
      let Q = Elsewhere field dest in
      let alloc : ℕ → ℕ = λ size. (size + 4) % 2 ^ 64 in
      let put_in : ℕ → Decode H S =
        λ size. placed p field dest (alloc size) bytes_overflow (λ at. read_array at size) in
      let checked : ℕ → Decode H S =
        λ size. if ltb (alloc size) size then fail size_too_large else put_in size in
      Keeps-bind Q pb_decode_varint32
        (λ size. if ltb pb_size_max size then fail bytes_overflow else checked size)
        (λ size.
          Keeps-if Q (ltb pb_size_max size) (fail bytes_overflow) (checked size)
            (λ e. Keeps-fail Q bytes_overflow)
            (λ small.
              Keeps-if Q (ltb (alloc size) size) (fail size_too_large) (put_in size)
                (λ e. Keeps-fail Q size_too_large)
                (λ e.
                  placed-Keeps p (alloc size) bytes_overflow (λ at. read_array at size) static
                    (λ fits.
                      let whole : size + 4 ≤ field.data_size = ground arith in
                      Keeps-then Q (put (λ m. write_integer m 4 dest size))
                        (read_into (add_address dest 4) size) (integer-Keeps 4 size (omega arith))
                        (Keeps-read_into Q (add_address dest 4) size (omega arith)
                          (λ q out. ground arith))))))

  pub string-Keeps :
      (p : Platform H S)
      → atype field ≡ 0
      → Keeps (Elsewhere field dest) (pb_dec_string p field dest)
  unfolding pb_dec_string read_string
  string-Keeps p static =
      let Q = Elsewhere field dest in
      let alloc : ℕ → ℕ = λ size. (size + 1) % 2 ^ 32 in
      let put_in : ℕ → Decode H S =
        λ size. placed p field dest (alloc size) string_overflow (λ at. read_string at size) in
      Keeps-bind Q pb_decode_varint32
        (λ size. if ltb (alloc size) size then fail size_too_large else put_in size)
        (λ size.
          Keeps-if Q (ltb (alloc size) size) (fail size_too_large) (put_in size)
            (λ e. Keeps-fail Q size_too_large)
            (λ e.
              placed-Keeps p (alloc size) string_overflow (λ at. read_string at size) static
                (λ fits.
                  let whole : size + 1 ≤ field.data_size = ground arith in
                  Keeps-terminated Q (add_address dest size) (read_into dest size)
                    (Keeps-read_into Q dest size (omega arith) (λ q out. ground arith))
                    (λ q out. ground arith))))
