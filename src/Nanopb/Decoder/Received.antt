-- ===== src/Nanopb/Decoder/Received.antt =====
-- The structure that pb_decode (nanopb/pb_decode.c) fills with what pb_encode (nanopb/pb_encode.c)
-- wrote of another one.
use fantasy_iq.Base.{ℕ, ◌^◌, ◌<◌, ◌≤◌, none, List, length, ◌≡◌, ap, sym}
use mathlib.Core.Path.{subst}
use fantasy_iq.Nanopb.Output.Buffer.{Buffer, pb_ostream_from_buffer}
use fantasy_iq.Nanopb.Input.Buffer.{source}
use fantasy_iq.Nanopb.Machine.{Machine}
use fantasy_iq.Nanopb.Message.{pb_encode}
use fantasy_iq.Nanopb.Message.Encoding.{message_bytes, IsMessage}
use fantasy_iq.Nanopb.Decoder.Store.{Store, Memory, Outcome, Platform}
use fantasy_iq.Nanopb.Decoder.Message.{pb_decode}
use fantasy_iq.Nanopb.Decoder.Reset.{pb_message_set_to_defaults}
use fantasy_iq.Nanopb.Decoder.Layout.{IsPlaced}
use fantasy_iq.Nanopb.Decoder.Emptied.{defaults-IsOpen}
use fantasy_iq.Nanopb.Decoder.Nested.{IsTransferable}
use fantasy_iq.Nanopb.Decoder.SameMessage.{IsSame}
use fantasy_iq.Nanopb.Decoder.SameStored.{moved_message-IsSame}
use fantasy_iq.Nanopb.Decoder.Transfer.{pb_decode-pb_encode}

-- Memory behind pb_decode of what pb_encode wrote into a buffer.
abbrev pub received :
    {H : Type 0}
    → Platform H (List ℕ)
    → Machine Buffer
    → (depth message src dest : ℕ) → Store H
    → List ℕ
    → ℕ
    → Memory
received p m depth message src dest st buf size =
    let r = (pb_encode m depth message src (pb_ostream_from_buffer buf size)).1 in
    (pb_decode p depth message dest st (source r.state.memory r.bytes_written none)).1.0.memory

-- A message of required fields, of optional fields with has_ flags and of counted arrays of scalars,
-- as `pb_decode` reads it back from what `pb_encode` has written: behind it the structure at `dest`,
-- whose fields lie apart from each other, holds what the structure at `src` holds. Each has_ flag is
-- 1 or 0, each array has the count that it had and each number of an array the value, and every
-- required number, and every optional one whose flag is set, is the same; so are, field by field,
-- the submessages that are required or whose flags are set.
pub received-IsSame :
    {H : Type 0} (p : Platform H (List ℕ)) (m : Machine Buffer)
    (depth message src dest struct_size : ℕ) (st : Store H) (buf : List ℕ) (size : ℕ)
    → ((d : ℕ) → p.descriptors d ≡ m.descriptors d)
    → IsTransferable p m depth message src dest
    → IsPlaced p depth message dest struct_size
    → IsMessage m depth message src
    → length (message_bytes m depth message src) ≤ size
    → size ≤ length buf
    → size < 2 ^ 64
    → IsSame p m depth message src dest (received p m depth message src dest st buf size)
received-IsSame {H} p m depth message src dest struct_size st buf size same can placed ok fits
      inside word =
    let reset = pb_message_set_to_defaults p.descriptors depth message dest st.memory in
    let done =
      pb_decode-pb_encode p m depth message src dest struct_size st buf size same can placed ok fits
        inside word in
    subst (λ after. IsSame p m depth message src dest after)
      (sym (ap (λ (o : Outcome H (List ℕ)). o.1.0.memory) done))
      (moved_message-IsSame p m depth message src dest struct_size reset placed can
        (defaults-IsOpen p depth message dest struct_size st.memory placed))
