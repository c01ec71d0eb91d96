-- ===== src/Nanopb/Decode/Skip.antt =====
-- Skipping fields, and substreams of limited length (nanopb/pb_decode.c).
use fantasy_iq.Base.{
  ℕ, zero, suc, ◌+◌, ◌≤◌, List, [], ◌∷◌, ◌++◌, length, ◌≡◌, refl, arith, Option, some, sym, true,
  false,
}
use fantasy_iq.Nanopb.Error.{Error}
use fantasy_iq.Nanopb.Wire.{varint, IsU32, IsVarint}
use fantasy_iq.Nanopb.Wire.WireType
use fantasy_iq.Nanopb.Input.Buffer.{source, Takes, Takes-bind, Takes-pb_read}
use fantasy_iq.Nanopb.Decode.{
  pb_decode_varint32, pb_skip_varint, skip_rounds, skip_bytes, pb_skip_string, pb_skip_field,
  pb_make_string_substream, pb_close_string_substream,
}
use fantasy_iq.Nanopb.Decode.Bytes.{top_bit-clear, top_bit-set}
use fantasy_iq.Nanopb.Decode.Varint32.{pb_decode_varint32-varint}

-- What stands on the wire behind a key of the given wire type.
pub data Payload : ℕ → List ℕ → Type 0 where
  varint_payload : {w : ℕ} {bs : List ℕ} → w ≡ WireType.varint → IsVarint bs → Payload w bs
  bits64_payload : {w : ℕ} {bs : List ℕ} → w ≡ WireType.bits64 → length bs ≡ 8 → Payload w bs
  bits32_payload : {w : ℕ} {bs : List ℕ} → w ≡ WireType.bits32 → length bs ≡ 4 → Payload w bs
  string_payload :
      {w : ℕ} {bs : List ℕ} (content : List ℕ)
      → w ≡ WireType.string
      → IsU32 (length content)
      → bs ≡ varint (length content) ++ content
      → Payload w bs

skip_rounds-Takes :
    (bs : List ℕ) (fuel : ℕ) → IsVarint bs → length bs ≤ fuel → Takes (skip_rounds fuel) bs tt
unfolding skip_rounds
skip_rounds-Takes [] fuel v h rest m n e k = absurd v
skip_rounds-Takes (b ∷ bs) zero v h rest m n e k = absurd (omega arith)
skip_rounds-Takes (b ∷ []) (suc fuel) v h rest m n e k =
    rw (Takes-pb_read false (b ∷ []) rest m n e k, top_bit-clear b v) refl
skip_rounds-Takes (b ∷ (c ∷ bs)) (suc fuel) v h rest m n e k =
    rw
      (
        Takes-pb_read false (b ∷ []) (c ∷ (bs ++ rest)) m (length (c ∷ bs) + n) e (omega arith),
        top_bit-set b v.0 v.1,
      )
      (skip_rounds-Takes (c ∷ bs) fuel v.2 (omega arith) rest (length (c ∷ bs) + n) n e refl)

pub skip_bytes-Takes :
    (count : ℕ) (bs : List ℕ) → count ≡ length bs → Takes (skip_bytes count) bs tt
skip_bytes-Takes count bs c rest m n e k = rw (c, Takes-pb_read true bs rest m n e k) refl

skip_varint-Takes : (bs : List ℕ) → IsVarint bs → Takes pb_skip_varint bs tt
unfolding pb_skip_varint
skip_varint-Takes bs v rest m n e k = skip_rounds-Takes bs (suc m) v (omega arith) rest m n e k

skip_string-Takes :
    (content : List ℕ)
    → IsU32 (length content)
    → Takes pb_skip_string (varint (length content) ++ content) tt
unfolding pb_skip_string
skip_string-Takes content h =
    Takes-bind pb_decode_varint32 skip_bytes (varint (length content)) content (length content) tt
      (pb_decode_varint32-varint (length content) h)
      (skip_bytes-Takes (length content) content refl)

-- `pb_skip_field` takes exactly one field's payload, for each of the four wire types.
pub pb_skip_field-Payload : (w : ℕ) (bs : List ℕ) → Payload w bs → Takes (pb_skip_field w) bs tt
unfolding pb_skip_field
pb_skip_field-Payload w bs (varint_payload e v) = rw e (skip_varint-Takes bs v)
pb_skip_field-Payload w bs (bits64_payload e eight) = rw e (skip_bytes-Takes 8 bs (sym eight))
pb_skip_field-Payload w bs (bits32_payload e four) = rw e (skip_bytes-Takes 4 bs (sym four))
pb_skip_field-Payload w bs (string_payload content e h split) =
    rw (e, split) (skip_string-Takes content h)

-- `pb_make_string_substream` reads a 32-bit length and gives the substream that many bytes; the
-- stream's own count no longer holds them.
pub pb_make_string_substream_lem :
    (size : ℕ) (rest : List ℕ) (m left : ℕ) (e : Option Error)
    → IsU32 size
    → m ≡ length (varint size) + (size + left)
    → pb_make_string_substream (source (varint size ++ rest) m e)
      ≡ (some (source rest size e), source rest left e)
unfolding pb_make_string_substream
pb_make_string_substream_lem size rest m left e h k =
    rw (pb_decode_varint32-varint size h rest m (size + left) e k) (ground arith)

-- `pb_close_string_substream` moves the stream behind all bytes of the substream, also those that
-- were not read, and takes over its error message.
pub pb_close_string_substream_lem :
    (content unread rest : List ℕ) (left : ℕ) (e e' : Option Error)
    → pb_close_string_substream
        (source (unread ++ rest) (length unread) e')
        (source (content ++ rest) left e)
      ≡ (some tt, source rest left e')
unfolding pb_close_string_substream
pb_close_string_substream_lem content [] rest left e e' = refl
pb_close_string_substream_lem content (b ∷ unread) rest left e e' =
    rw (Takes-pb_read true (b ∷ unread) rest (length (b ∷ unread)) 0 e' (omega arith))
      (ground arith)
