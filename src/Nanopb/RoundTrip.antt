-- ===== src/Nanopb/RoundTrip.antt =====
-- Writing into a memory buffer with pb_encode.c and reading the buffer with pb_decode.c.
use fantasy_iq.Base.{
  ℕ, ◌^◌, ◌≤◌, ◌<◌, true, false, none, some, List, [], ◌++◌, length, take, drop, ◌≡◌, refl, arith,
  ◌∙◌, length-take, take-append-drop, ap, sym,
}
use fantasy_iq.Nanopb.Wire.{varint, zigzag, IsU64, length-groups}
use fantasy_iq.Nanopb.Error.{stream_full}
use fantasy_iq.Nanopb.Output.{Encode}
use fantasy_iq.Nanopb.Output.Emits.{Emits}
use fantasy_iq.Nanopb.Output.Buffer.{
  Buffer, memory_sink, buf_write, pb_ostream_from_buffer, store, store_middle,
}
use fantasy_iq.Nanopb.Encode.{pb_encode_varint, pb_encode_svarint}
use fantasy_iq.Nanopb.Encode.Varint.{pb_encode_varint-Emits}
use fantasy_iq.Nanopb.Encode.Scalars.{pb_encode_svarint-Emits}
use fantasy_iq.Nanopb.Input.{Read}
use fantasy_iq.Nanopb.Input.Buffer.{Takes, pb_istream_from_buffer}
use fantasy_iq.Nanopb.Decode.{pb_decode_varint, pb_decode_svarint}
use fantasy_iq.Nanopb.Decode.Varint.{pb_decode_varint-varint}
use fantasy_iq.Nanopb.Decode.Scalars.{pb_decode_svarint-zigzag}

store_front :
    (bs buf : List ℕ) → length bs ≤ length buf → store buf 0 bs ≡ bs ++ drop (length bs) buf
store_front bs buf h =
    ap (λ t. store t 0 bs) (sym (take-append-drop (length bs) buf))
    ∙ store_middle bs [] (take (length bs) buf) (drop (length bs) buf)
        (omega (arith, length-take (length bs) buf))

-- A function that emits `bs` puts them at the front of a buffer with room for them and leaves the
-- bytes behind them alone; into a buffer that is too small it fails with "stream full".
pub to_buffer :
    (f : Encode Buffer) (bs buf : List ℕ) (size : ℕ)
    → Emits memory_sink f bs
    → length bs ≤ size
    → size ≤ length buf
    → size < 2 ^ 64
    → let r = f (pb_ostream_from_buffer buf size) in
      (r.0 ≡ true)
      × (r.1.state.memory ≡ bs ++ drop (length bs) buf)
      × (r.1.bytes_written ≡ length bs)
unfolding pb_ostream_from_buffer buf_write memory_sink
to_buffer f bs buf size emits fits inside word =
    rw (emits.writes (pb_ostream_from_buffer buf size) (refl, omega arith, word, refl))
      (refl, store_front bs buf (omega arith), omega arith)

pub to_small_buffer :
    (f : Encode Buffer) (bs buf : List ℕ) (size : ℕ)
    → Emits memory_sink f bs
    → size < length bs
    → length bs < 2 ^ 64
    → let r = f (pb_ostream_from_buffer buf size) in (r.0 ≡ false) × (r.1.errmsg ≡ some stream_full)
unfolding pb_ostream_from_buffer buf_write memory_sink
to_small_buffer f bs buf size emits small word =
    emits.refuses (pb_ostream_from_buffer buf size)
      (refl, omega arith, omega arith, omega arith, omega arith, refl)

-- What is written into a buffer and read from the bytes written comes back, and uses them up.
pub written_reads_back :
    {A : Type 0} (f : Encode Buffer) (g : Read (List ℕ) A) (a : A) (bs buf : List ℕ) (size : ℕ)
    → Emits memory_sink f bs
    → Takes g bs a
    → length bs ≤ size
    → size ≤ length buf
    → size < 2 ^ 64
    → let r = (f (pb_ostream_from_buffer buf size)).1 in
      let back = g (pb_istream_from_buffer r.state.memory r.bytes_written) in
      (back.0 ≡ some a) × (back.1.bytes_left ≡ 0)
written_reads_back f g a bs buf size emits takes fits inside word =
    let (ok, memory, count) = to_buffer f bs buf size emits fits inside word in
    rw (memory, count)
      (unfold pb_istream_from_buffer in
        rw (takes (drop (length bs) buf) (length bs) 0 none (omega arith)) (refl, refl))

-- A 64-bit number that `pb_encode_varint` writes into a buffer with room for ten bytes comes back
-- when `pb_decode_varint` reads the bytes written, and no byte is left over.
pub pb_decode_varint-pb_encode_varint :
    (v : ℕ) (buf : List ℕ) (size : ℕ)
    → IsU64 v
    → 10 ≤ size
    → size ≤ length buf
    → size < 2 ^ 64
    → let r = (pb_encode_varint v (pb_ostream_from_buffer buf size)).1 in
      let back = pb_decode_varint (pb_istream_from_buffer r.state.memory r.bytes_written) in
      (back.0 ≡ some v) × (back.1.bytes_left ≡ 0)
pb_decode_varint-pb_encode_varint v buf size h room inside word =
    written_reads_back (pb_encode_varint v) pb_decode_varint v (varint v) buf size
      (pb_encode_varint-Emits memory_sink v h) (pb_decode_varint-varint v h)
      (omega (arith, length-groups 9 v)) inside word

-- A 64-bit two's complement pattern that `pb_encode_svarint` writes into a buffer with room for ten
-- bytes comes back when `pb_decode_svarint` reads the bytes written, and no byte is left over.
pub pb_decode_svarint-pb_encode_svarint :
    (v : ℕ) (buf : List ℕ) (size : ℕ)
    → IsU64 v
    → 10 ≤ size
    → size ≤ length buf
    → size < 2 ^ 64
    → let r = (pb_encode_svarint v (pb_ostream_from_buffer buf size)).1 in
      let back = pb_decode_svarint (pb_istream_from_buffer r.state.memory r.bytes_written) in
      (back.0 ≡ some v) × (back.1.bytes_left ≡ 0)
pb_decode_svarint-pb_encode_svarint v buf size h room inside word =
    written_reads_back (pb_encode_svarint v) pb_decode_svarint v (varint (zigzag v)) buf size
      (pb_encode_svarint-Emits memory_sink v h) (pb_decode_svarint-zigzag v h)
      (omega (arith, length-groups 9 (zigzag v))) inside word
