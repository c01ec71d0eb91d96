-- ===== src/Nanopb/Decoder/Stored.antt =====
-- Scalar fields that are written by PB_ENCODERS and read by PB_DECODERS.
use fantasy_iq.Base.{
  ℕ, ◌^◌, ◌≤◌, ◌<◌, true, List, length, drop, ◌==◌, if◌then◌else◌, ◌≡◌, ◌≢◌, ◌⊎◌, false, arith, inl,
  inr, none,
}
use fantasy_iq.Nanopb.Field.{Field, ltype, atype}
use fantasy_iq.Nanopb.Iterator.{add_address}
use fantasy_iq.Nanopb.Output.{Encode}
use fantasy_iq.Nanopb.Output.Buffer.{Buffer, memory_sink, pb_ostream_from_buffer}
use fantasy_iq.Nanopb.Input.Buffer.{source, pb_istream_from_buffer}
use fantasy_iq.Nanopb.RoundTrip.{to_buffer}
use fantasy_iq.Nanopb.Machine.{Machine, load}
use fantasy_iq.Nanopb.FieldEncoders.{encoder, string_size}
use fantasy_iq.Nanopb.FieldEncoders.Values.{IsSized, scalar_bytes, encoder-scalar_bytes}
use fantasy_iq.Nanopb.Decoder.Store.{Memory, Store, Decode, Platform, with_memory, write_byte}
use fantasy_iq.Nanopb.Decoder.Values.{decoder}
use fantasy_iq.Nanopb.Decoder.Copies.{Reads, IsScalar}
use fantasy_iq.Nanopb.Decoder.Scalars.{
  copy, varint-Reads, uvarint-Reads, svarint-Reads, fixed32-Reads, fixed64-Reads, bytes-Reads,
  string-Reads, fixed_length_bytes-Reads,
}

-- Memory with the value of the field at `src` of `from` stored at `dest`: the bytes of a number or
-- of a fixed array, the size and the used bytes of a byte array, a string with its NUL.
unfoldable pub copied : Memory → Field → ℕ → ℕ → Memory → Memory
copied from field src dest memory =
    let t = ltype field in
    let n = field.data_size in
    let size = load from 4 src in
    let characters = string_size from n src in
    if t == 3
    then copy from 4 src dest memory
    else if t == 4
    then copy from 8 src dest memory
    else if t == 5
    then copy from size (add_address src 4) (add_address dest 4) (copy from 4 src dest memory)
    else if t == 6
    then write_byte (copy from characters src dest memory) (add_address dest characters) 0
    else copy from n src dest memory

-- A value of a scalar kind inside a structure: a byte array fits its field, and a string has its
-- NUL inside the array.
pub record IsHeld {S : Type 0} (m : Machine S) (field : Field) (src : ℕ) : Type 0 where
  pub sized : IsSized m field src
  pub static : atype field ≡ 0
  pub somewhere : src ≢ 0
  pub scalar : (ltype field ≤ 6) ⊎ (ltype field ≡ 9)
  pub ended : ltype field ≡ 6 → string_size m.memory field.data_size src < field.data_size

module _ {H S : Type 0} (p : Platform H (List ℕ)) (decode noinit : ℕ → ℕ → Decode H (List ℕ))
    (m : Machine S) (field : Field) (src dest : ℕ) where
  kind-copied :
      IsHeld m field src
      → IsScalar (ltype field)
      → Reads
          (decoder p decode noinit field dest)
          (scalar_bytes m field src)
          (copied m.memory field src dest)
  unfolding decoder scalar_bytes copied
  kind-copied held (inl e) =
      rw e (varint-Reads m.memory field src dest (held.sized.width (omega (arith, e))))
  kind-copied held (inr (inl e)) =
      rw e (uvarint-Reads m.memory field src dest (held.sized.width (omega (arith, e))))
  kind-copied held (inr (inr (inl e))) =
      rw e (svarint-Reads m.memory field src dest (held.sized.width (omega (arith, e))))
  kind-copied held (inr (inr (inr (inl e)))) = rw e (fixed32-Reads m.memory field src dest)
  kind-copied held (inr (inr (inr (inr (inl e))))) = rw e (fixed64-Reads m.memory field src dest)
  kind-copied held (inr (inr (inr (inr (inr (inl e)))))) =
      let there : (src == 0) ≡ false = ground (arith, held.somewhere) in
      rw (e, there)
        (bytes-Reads m.memory field src dest p (omega (arith, held.static))
          (held.sized.array e held.static held.somewhere) held.sized.word)
  kind-copied held (inr (inr (inr (inr (inr (inr (inl e))))))) =
      let there : (src == 0) ≡ false = ground (arith, held.somewhere) in
      let static : (atype field == 0x80) ≡ false = ground (arith, held.static) in
      rw (e, there, static)
        (string-Reads m.memory field src dest p (string_size m.memory field.data_size src)
          (omega (arith, held.static)) (held.ended e) held.sized.word)
  kind-copied held (inr (inr (inr (inr (inr (inr (inr e))))))) =
      rw e (fixed_length_bytes-Reads m.memory field src dest held.sized.word)

-- For every scalar kind, the function in PB_DECODERS takes exactly the bytes that the wire format
-- gives to a value in memory, and stores that value at its destination and nothing else.
pub decoder-copied :
    {H S : Type 0} (p : Platform H (List ℕ)) (decode noinit : ℕ → ℕ → Decode H (List ℕ))
    (m : Machine S) (field : Field) (src dest : ℕ)
    → IsHeld m field src
    → Reads
        (decoder p decode noinit field dest)
        (scalar_bytes m field src)
        (copied m.memory field src dest)
decoder-copied p decode noinit m field src dest held =
    kind-copied p decode noinit m field src dest held (ground (arith, held.scalar))

-- A scalar value of a static field: a number has the size of a C type, a byte array fits its field,
-- and a string has its NUL inside its array (`IsHeld`); it does not lie at NULL. When `encoder` has
-- written it into a buffer with room for its bytes and `decoder` reads the bytes written, it is
-- stored at its destination: the values are the same, no other byte of memory is written, and all
-- bytes are used up.
pub decoder-encoder :
    {H : Type 0} (p : Platform H (List ℕ)) (decode noinit : ℕ → ℕ → Decode H (List ℕ))
    (m : Machine Buffer) (encode : ℕ → ℕ → Encode Buffer) (field : Field) (src dest : ℕ)
    (st : Store H) (buf : List ℕ) (size : ℕ)
    → IsHeld m field src
    → length (scalar_bytes m field src) ≤ size
    → size ≤ length buf
    → size < 2 ^ 64
    → let r = (encoder m encode field src (pb_ostream_from_buffer buf size)).1 in
      let back = pb_istream_from_buffer r.state.memory r.bytes_written in
      let left = drop (length (scalar_bytes m field src)) buf in
      decoder p decode noinit field dest st back
      ≡ (true, (with_memory st (copied m.memory field src dest st.memory), source left 0 none))
unfolding pb_istream_from_buffer
decoder-encoder p decode noinit m encode field src dest st buf size held fits inside word =
    let bs = scalar_bytes m field src in
    let emits =
      encoder-scalar_bytes memory_sink m field src encode held.sized (ground (arith, held.scalar))
        (ground (arith, held.scalar)) (ground (arith, held.scalar)) in
    let (ok, memory, count) =
      to_buffer (encoder m encode field src) bs buf size emits fits inside word in
    rw (memory, count)
      (decoder-copied p decode noinit m field src dest held st (drop (length bs) buf) (length bs) 0
        none (omega arith))
