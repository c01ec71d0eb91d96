-- ===== src/Nanopb/Decode/Scalars.antt =====
-- The scalar decoders of nanopb/pb_decode.c on the wire format.
use fantasy_iq.Base.{
  ℕ, suc, ◌+◌, ◌-◌, ◌*◌, ◌/◌, ◌%◌, ◌^◌, ◌<◌, bit_and, bit_or, List, ◌∷◌, ◌++◌, length, ◌==◌,
  if◌then◌else◌, ◌≡◌, refl, arith, Option, none, some, ◌∙◌, true, false, Bool,
}
use fantasy_iq.Base.Bits.{mask_remainder, or_shifted}
use fantasy_iq.Nanopb.Error.{Error, set_error, end_of_stream}
use fantasy_iq.Nanopb.Wire.{
  varint, key, zigzag, little_endian, length-little_endian, IsU32, IsU64, groups-IsVarint,
  value-groups, length-varint_word,
}
use fantasy_iq.Nanopb.Input.{pb_readbyte}
use fantasy_iq.Nanopb.Input.Buffer.{buf_read, source, Takes, Takes-pb_read}
use fantasy_iq.Nanopb.Decode.{
  pb_decode_varint32_eof, pb_decode_svarint, pb_decode_fixed32, pb_decode_fixed64, pb_decode_tag,
  or_bytes64,
}
use fantasy_iq.Nanopb.Decode.Varint.{pb_decode_varint-varint}
use fantasy_iq.Nanopb.Decode.Varint32.{pb_decode_varint32_eof-value}

-- Undoing the zigzag gives the bit pattern back.
unzigzag-zigzag :
    (v : ℕ)
    → IsU64 v
    → (if bit_and (zigzag v) 1 == 0 then zigzag v / 2 else 2 ^ 64 - 1 - zigzag v / 2) ≡ v
unzigzag-zigzag v h = ground (arith, mask_remainder 1 (zigzag v))

-- `pb_decode_svarint` reads back the signed number that `pb_encode_svarint` writes.
pub pb_decode_svarint-zigzag : (v : ℕ) → IsU64 v → Takes pb_decode_svarint (varint (zigzag v)) v
unfolding pb_decode_svarint
pb_decode_svarint-zigzag v h rest m n e k =
    rw (pb_decode_varint-varint (zigzag v) (ground arith) rest m n e k)
      (ground (arith, unzigzag-zigzag v h))

word_bytes :
    (v : ℕ)
    → IsU32 v
    → bit_or
        (bit_or (bit_or (v % 256 * 1) (v / 256 % 256 * 2 ^ 8)) (v / 256 / 256 % 256 * 2 ^ 16))
        (v / 256 / 256 / 256 % 256 * 2 ^ 24)
      ≡ v
word_bytes v h = ground (
  arith,
  or_shifted 8 (v % 256 * 1) (v / 256 % 256),
  or_shifted 16 (v % 256 + v / 256 % 256 * 2 ^ 8) (v / 256 / 256 % 256),
  or_shifted 24 (v % 256 + v / 256 % 256 * 2 ^ 8 + v / 256 / 256 % 256 * 2 ^ 16)
      (v / 256 / 256 / 256 % 256),
)

eof_varint :
    (v : ℕ) (eof : Bool) (rest : List ℕ) (m n : ℕ) (e : Option Error)
    → IsU32 v
    → m ≡ length (varint v) + n
    → pb_decode_varint32_eof eof (source (varint v ++ rest) m e) ≡ (eof, (some v, source rest n e))
eof_varint v eof rest m n e h k =
    let fits : v < 128 ^ 10 = omega arith in
    let same = value-groups 9 v fits in
    rw same at (
      pb_decode_varint32_eof-value (varint v) eof rest m n e (groups-IsVarint 9 v fits)
        (length-varint_word v h) (rw same h) k)

-- `pb_decode_fixed32` reads back the word that `pb_encode_fixed32` writes.
pub pb_decode_fixed32-little_endian :
    (v : ℕ) → IsU32 v → Takes pb_decode_fixed32 (little_endian 4 v) v
unfolding pb_decode_fixed32 little_endian
pb_decode_fixed32-little_endian v h rest m n e k =
    rw (Takes-pb_read false (little_endian 4 v) rest m n e k) (ground (arith, word_bytes v h))

-- Four more bytes above a word.
upper_bytes :
    (acc b₄ b₅ b₆ b₇ : ℕ)
    → acc < 2 ^ 32
    → b₄ < 256
    → b₅ < 256
    → b₆ < 256
    → b₇ < 256
    → bit_or (bit_or (bit_or (bit_or acc (b₄ * 2 ^ 32)) (b₅ * 2 ^ 40)) (b₆ * 2 ^ 48)) (b₇ * 2 ^ 56)
      ≡ acc + b₄ * 2 ^ 32 + b₅ * 2 ^ 40 + b₆ * 2 ^ 48 + b₇ * 2 ^ 56
upper_bytes acc b₄ b₅ b₆ b₇ h h₄ h₅ h₆ h₇ = ground (
  arith,
  or_shifted 32 acc b₄,
  or_shifted 40 (acc + b₄ * 2 ^ 32) b₅,
  or_shifted 48 (acc + b₄ * 2 ^ 32 + b₅ * 2 ^ 40) b₆,
  or_shifted 56 (acc + b₄ * 2 ^ 32 + b₅ * 2 ^ 40 + b₆ * 2 ^ 48) b₇,
)

long_bytes : (v : ℕ) → IsU64 v → or_bytes64 (little_endian 8 v) ≡ v
unfolding or_bytes64 little_endian
long_bytes v h =
    let word = word_bytes (v % 2 ^ 32) (omega arith) in
    let b₀ : v % 2 ^ 32 % 256 ≡ v % 256 = omega arith in
    let b₁ : v % 2 ^ 32 / 256 % 256 ≡ v / 256 % 256 = omega arith in
    let b₂ : v % 2 ^ 32 / 256 / 256 % 256 ≡ v / 256 / 256 % 256 = omega arith in
    let b₃ : v % 2 ^ 32 / 256 / 256 / 256 % 256 ≡ v / 256 / 256 / 256 % 256 = omega arith in
    rw (rw (b₀, b₁, b₂, b₃) at word) (
      upper_bytes (v % 2 ^ 32) (v / 256 / 256 / 256 / 256 % 256)
        (v / 256 / 256 / 256 / 256 / 256 % 256) (v / 256 / 256 / 256 / 256 / 256 / 256 % 256)
        (v / 256 / 256 / 256 / 256 / 256 / 256 / 256 % 256) (omega arith) (omega arith)
        (omega arith) (omega arith) (omega arith)
      ∙ omega arith)

-- `pb_decode_fixed64` reads back the long word that `pb_encode_fixed64` writes.
pub pb_decode_fixed64-little_endian :
    (v : ℕ) → IsU64 v → Takes pb_decode_fixed64 (little_endian 8 v) v
unfolding pb_decode_fixed64
pb_decode_fixed64-little_endian v h rest m n e k =
    let taken =
      rw (length-little_endian 8 v) at (Takes-pb_read false (little_endian 8 v) rest m n e k) in
    rw (taken, long_bytes v h) refl

-- `pb_decode_tag` reads back the tag and the wire type of a key that `pb_encode_tag` writes, if
-- the key fits a word and is not 0, and leaves `*eof` false.
pub pb_decode_tag-key :
    (wire_type tag : ℕ) (rest : List ℕ) (m n : ℕ) (e : Option Error)
    → wire_type < 8
    → tag < 2 ^ 29
    → 0 < tag + wire_type
    → m ≡ length (key wire_type tag) + n
    → pb_decode_tag (source (key wire_type tag ++ rest) m e)
      ≡ (false, (some (wire_type, tag), source rest n e))
unfolding pb_decode_tag
pb_decode_tag-key wire_type tag rest m n e hw ht pos k =
    rw (eof_varint (tag * 8 + wire_type) false rest m n e (omega arith) k)
      (ground (arith, mask_remainder 3 (tag * 8 + wire_type)))

-- Three ways to end a message: the stream ends, a key is 0, or the key is cut off or too large.
-- Only the last leaves `*eof` false.
pub pb_decode_tag_end :
    (bs : List ℕ) (e : Option Error)
    → (pb_decode_tag (source bs 0 e) ≡ (true, (none, source bs 0 (set_error e end_of_stream))))
      × ((n : ℕ) → pb_decode_tag (source (0 ∷ bs) (suc n) e) ≡ (true, (none, source bs n e)))
unfolding pb_decode_tag pb_decode_varint32_eof pb_readbyte buf_read
pb_decode_tag_end bs e = (ground arith, λ n. ground arith)
