-- ===== src/Nanopb/Decode.antt =====
-- The decoding functions of nanopb/pb_decode.c that do not look at message structures.
pub mod Bytes
pub mod Varint
pub mod Overflow
pub mod Varint32
pub mod Wraps
pub mod Scalars
pub mod Skip
use fantasy_iq.Base.{
  ℕ, zero, suc, ◌+◌, ◌-◌, ◌*◌, ◌/◌, ◌%◌, ◌^◌, bit_and, bit_or, List, [], ◌∷◌, ◌++◌, length, get_or,
  ltb, leb, ◌==◌, if◌then◌else◌, Bool, true, false, not, ◌&&◌, ◌||◌, Option, none, some,
}
use fantasy_iq.Nanopb.Error.{
  Error, set_error, end_of_stream, varint_overflow, invalid_wire_type, parent_stream_too_short,
}
use fantasy_iq.Nanopb.Wire.WireType
use fantasy_iq.Nanopb.Input.{
  IStream, Read, ◌>>=◌, and_then, return, fail, pb_read, pb_readbyte, read_bytes, skip_chunks,
}

-- Behind the first byte of a varint of 32 bits: a bit that does not fit must repeat the sign.
abbrev pub sign_extension : ℕ → ℕ
sign_extension bitpos = if ltb bitpos 63 then 0xFF else 0x01

-- What a byte behind the first does to `result`; `none` is the varint overflow inside the loop.
unfoldable pub add_byte32 : ℕ → ℕ → ℕ → Option ℕ
add_byte32 byte bitpos result =
    if leb 32 bitpos
    then (if not (bit_and byte 0x7F == 0)
          && (result / 2 ^ 31 == 0 || not (byte == sign_extension bitpos))
        then none
        else some result)
    else some (bit_or result (bit_and byte 0x7F * 2 ^ bitpos % 2 ^ 32))

-- `(uint32_t)bytes[i] << 8 * i`
abbrev byte_at : List ℕ → ℕ → ℕ
byte_at bs i = get_or bs i 0 * 2 ^ (8 * i)

unfoldable pub or_bytes32 : List ℕ → ℕ
or_bytes32 bs = bit_or (bit_or (bit_or (byte_at bs 0) (byte_at bs 1)) (byte_at bs 2)) (byte_at bs 3)

unfoldable pub or_bytes64 : List ℕ → ℕ
unfolding or_bytes32
or_bytes64 bs =
    bit_or (bit_or (bit_or (bit_or (or_bytes32 bs) (byte_at bs 4)) (byte_at bs 5)) (byte_at bs 6))
      (byte_at bs 7)

module _ {S : Type 0} where
  -- The do-while loop of pb_decode_varint. A uint_fast8_t has 8 bits here. Ten bytes take `bitpos`
  -- to 70, so eleven rounds are enough; with no fuel left the answer is that of the eleventh.
  unfoldable pub varint_rounds : ℕ → ℕ → ℕ → Read S ℕ
  varint_rounds zero bitpos result s = fail varint_overflow s
  varint_rounds (suc fuel) bitpos result s =
      let next : ℕ → Read S ℕ = λ byte s'.
        let result' = bit_or result (bit_and byte 0x7F * 2 ^ bitpos % 2 ^ 64) in
        let rest = varint_rounds fuel ((bitpos + 7) % 256) result' s' in
        if bit_and byte 0x80 == 0 then return result' s' else rest in
      if leb 64 bitpos then fail varint_overflow s else (pb_readbyte >>= next) s

  unfoldable pub pb_decode_varint : Read S ℕ
  unfolding varint_rounds
  pb_decode_varint = varint_rounds 11 0 0

  -- The loop of pb_decode_varint32_eof with the check behind it. Each round takes a byte, so the
  -- bytes left are enough fuel, and without any the next read finds the end of the stream.
  unfoldable pub varint32_rounds : ℕ → ℕ → ℕ → Read S ℕ
  varint32_rounds zero bitpos result s = fail end_of_stream s
  varint32_rounds (suc fuel) bitpos result s =
      let next : ℕ → Read S ℕ = λ byte s'. elim (add_byte32 byte bitpos result) [
        | none ↦ fail varint_overflow s'
        | some result' ↦
            let bitpos' = (bitpos + 7) % 256 in
            let rest = varint32_rounds fuel bitpos' result' s' in
            let done =
              if bitpos' == 35 && not (bit_and byte 0x70 == 0)
              then fail varint_overflow s'
              else return result' s' in
            if bit_and byte 0x80 == 0 then done else rest
      ] in
      (pb_readbyte >>= next) s

  abbrev varint32_from : ℕ → Read S ℕ
  varint32_from byte s =
      if bit_and byte 0x80 == 0
      then return byte s
      else varint32_rounds s.bytes_left 7 (bit_and byte 0x7F) s

  abbrev varint32_first : Bool → Option ℕ × IStream S → Bool × (Option ℕ × IStream S)
  varint32_first eof (none, s) = (eof || s.bytes_left == 0, (none, s))
  varint32_first eof (some byte, s) = (eof, varint32_from byte s)

  -- The first part of the result is what `*eof` holds afterwards.
  unfoldable pub pb_decode_varint32_eof : Bool → IStream S → Bool × (Option ℕ × IStream S)
  unfolding varint32_rounds
  pb_decode_varint32_eof eof s = varint32_first eof (pb_readbyte s)

  unfoldable pub pb_decode_varint32 : Read S ℕ
  unfolding pb_decode_varint32_eof
  pb_decode_varint32 s = (pb_decode_varint32_eof false s).1

  -- Each round of the loop takes a byte.
  unfoldable pub skip_rounds : ℕ → Read S (Unit {0})
  skip_rounds zero s = fail end_of_stream s
  skip_rounds (suc fuel) s =
      let next : List ℕ → Read S (Unit {0}) = λ bs s'.
        let rest = skip_rounds fuel s' in
        if bit_and (get_or bs 0 0) 0x80 == 0 then return tt s' else rest in
      (pb_read false 1 >>= next) s

  unfoldable pub pb_skip_varint : Read S (Unit {0})
  unfolding skip_rounds
  pb_skip_varint s = skip_rounds (suc s.bytes_left) s

  -- `return pb_read(stream, NULL, length);`
  abbrev pub skip_bytes : ℕ → Read S (Unit {0})
  skip_bytes count = pb_read true count >>= λ bs. return tt

  unfoldable pub pb_skip_string : Read S (Unit {0})
  pb_skip_string = pb_decode_varint32 >>= skip_bytes

  abbrev tag_parts : Bool × (Option ℕ × IStream S) → Bool × (Option (ℕ × ℕ) × IStream S)
  tag_parts (eof, (none, s)) = (eof, (none, s))
  tag_parts (eof, (some temp, s)) =
      if temp == 0 then (true, (none, s)) else (eof, (some (bit_and temp 7, temp / 2 ^ 3), s))

  -- The value of `*eof`, and the wire type and the tag if there is a key.
  unfoldable pub pb_decode_tag : IStream S → Bool × (Option (ℕ × ℕ) × IStream S)
  pb_decode_tag s = tag_parts (pb_decode_varint32_eof false s)

  unfoldable pub pb_skip_field : ℕ → Read S (Unit {0})
  unfolding pb_skip_varint pb_skip_string
  pb_skip_field wire_type =
      if wire_type == WireType.varint
      then pb_skip_varint
      else if wire_type == WireType.bits64
      then skip_bytes 8
      else if wire_type == WireType.string
      then pb_skip_string
      else if wire_type == WireType.bits32
      then skip_bytes 4
      else fail invalid_wire_type

  -- The loop of read_raw_value: `room` is `max_size - *size`, and `buffer` what was read.
  unfoldable pub raw_rounds : ℕ → List ℕ → Read S (List ℕ)
  raw_rounds zero buffer s = (none, s)
  raw_rounds (suc room) buffer s =
      let next : List ℕ → Read S (List ℕ) = λ bs s'.
        let buffer' = buffer ++ bs in
        let rest = raw_rounds room buffer' s' in
        if bit_and (get_or bs 0 0) 0x80 == 0 then return buffer' s' else rest in
      (pb_read false 1 >>= next) s

  -- The bytes of a scalar; `max_size` is the room that the caller has for them.
  unfoldable pub read_raw_value : ℕ → ℕ → Read S (List ℕ)
  unfolding raw_rounds
  read_raw_value wire_type max_size =
      if wire_type == WireType.varint
      then raw_rounds max_size []
      else if wire_type == WireType.bits64
      then pb_read false 8
      else if wire_type == WireType.bits32
      then pb_read false 4
      else fail invalid_wire_type

  abbrev limit : ℕ → Read S (IStream S)
  limit size s =
      if ltb s.bytes_left size
      then fail parent_stream_too_short s
      else return (record s { bytes_left = size }) (record s { bytes_left = s.bytes_left - size })

  -- The value is the substream.
  unfoldable pub pb_make_string_substream : Read S (IStream S)
  pb_make_string_substream = pb_decode_varint32 >>= limit

  -- `stream->state = substream->state; stream->errmsg = substream->errmsg;`
  abbrev take_over : IStream S → Option (List ℕ) × IStream S → Option (Unit {0}) × IStream S
  take_over s (none, substream) = (none, s)
  take_over s (some bs, substream) =
      (some tt, record s { state = substream.state; errmsg = substream.errmsg })

  unfoldable pub pb_close_string_substream : IStream S → Read S (Unit {0})
  pb_close_string_substream substream s =
      if substream.bytes_left == 0
      then take_over s (some [], substream)
      else take_over s (pb_read true substream.bytes_left substream)

  -- The int64_t is its bit pattern, and `~x` is 2 ^ 64 - 1 - x.
  unfoldable pub pb_decode_svarint : Read S ℕ
  pb_decode_svarint = do
    value ← pb_decode_varint
    return (if bit_and value 1 == 0 then value / 2 else 2 ^ 64 - 1 - value / 2)

  unfoldable pub pb_decode_fixed32 : Read S ℕ
  unfolding or_bytes32
  pb_decode_fixed32 = pb_read false 4 >>= λ bs. return (or_bytes32 bs)

  unfoldable pub pb_decode_fixed64 : Read S ℕ
  unfolding or_bytes64
  pb_decode_fixed64 = pb_read false 8 >>= λ bs. return (or_bytes64 bs)
