-- ===== src/Nanopb/Message/Buffers.antt =====
-- pb_encode into a memory buffer, as an application calls it.
use fantasy_iq.Base.{ℕ, ◌^◌, ◌≤◌, ◌<◌, true, false, some, List, ◌++◌, length, drop, ◌≡◌}
use fantasy_iq.Nanopb.Error.{stream_full}
use fantasy_iq.Nanopb.Output.Buffer.{Buffer, memory_sink, pb_ostream_from_buffer}
use fantasy_iq.Nanopb.Machine.{Machine}
use fantasy_iq.Nanopb.Message.{pb_encode}
use fantasy_iq.Nanopb.Message.Encoding.{message_bytes, IsMessage}
use fantasy_iq.Nanopb.Message.Emits.{pb_encode-message_bytes}
use fantasy_iq.Nanopb.RoundTrip.{to_buffer, to_small_buffer}

-- Into a buffer with room for the bytes of a message that can be encoded, `pb_encode` returns true,
-- puts the bytes at the front, leaves the rest of the buffer alone and counts the bytes.
pub pb_encode-pb_ostream_from_buffer :
    (m : Machine Buffer) (fuel fields src : ℕ) (buf : List ℕ) (size : ℕ)
    → IsMessage m fuel fields src
    → length (message_bytes m fuel fields src) ≤ size
    → size ≤ length buf
    → size < 2 ^ 64
    → let bs = message_bytes m fuel fields src in
      let r = pb_encode m fuel fields src (pb_ostream_from_buffer buf size) in
      (r.0 ≡ true)
      × (r.1.state.memory ≡ bs ++ drop (length bs) buf)
      × (r.1.bytes_written ≡ length bs)
pb_encode-pb_ostream_from_buffer m fuel fields src buf size ok fits inside word =
    to_buffer (pb_encode m fuel fields src) (message_bytes m fuel fields src) buf size
      (pb_encode-message_bytes memory_sink m fuel fields src ok) fits inside word

-- Into a buffer that is too small for the bytes of a message that can be encoded, and that are
-- fewer than 2 ^ 64, `pb_encode` returns false with the message "stream full".
pub pb_encode_overflow :
    (m : Machine Buffer) (fuel fields src : ℕ) (buf : List ℕ) (size : ℕ)
    → IsMessage m fuel fields src
    → size < length (message_bytes m fuel fields src)
    → length (message_bytes m fuel fields src) < 2 ^ 64
    → let r = pb_encode m fuel fields src (pb_ostream_from_buffer buf size) in
      (r.0 ≡ false) × (r.1.errmsg ≡ some stream_full)
pb_encode_overflow m fuel fields src buf size ok small word =
    to_small_buffer (pb_encode m fuel fields src) (message_bytes m fuel fields src) buf size
      (pb_encode-message_bytes memory_sink m fuel fields src ok) small word
