-- ===== src/Nanopb/Decoder/Submessages.antt =====
-- pb_dec_submessage of nanopb/pb_decode.c.
use fantasy_iq.Base.{
  ℕ, true, false, Option, List, [], ◌++◌, length, ◌==◌, ◌≡◌, ◌≢◌, refl, arith, append_assoc,
  length-append,
}
use fantasy_iq.Nanopb.Error.{Error}
use fantasy_iq.Nanopb.Field.{Field, ltype, htype}
use fantasy_iq.Nanopb.Wire.{varint, IsU32}
use fantasy_iq.Nanopb.Input.Buffer.{source}
use fantasy_iq.Nanopb.Decode.Skip.{pb_make_string_substream_lem, pb_close_string_substream_lem}
use fantasy_iq.Nanopb.Decoder.Store.{Memory, Store, Decode, Platform, with_memory}
use fantasy_iq.Nanopb.Decoder.Values.{decoder, pb_dec_submessage}
use fantasy_iq.Nanopb.Decoder.Copies.{ReadsAt}

-- Where memory is what is given, `f` takes all bytes of a stream that ends behind `bs`, and changes
-- memory by `effect`.
abbrev pub Consumes :
    {H : Type 0} → Memory → Decode H (List ℕ) → List ℕ → (Memory → Memory) → Type 0
Consumes {H} memory f bs effect =
    (st : Store H) (tail : List ℕ) (m : ℕ) (e : Option Error)
    → st.memory ≡ memory
    → m ≡ length bs
    → f st (source (bs ++ tail) m e) ≡ (true, (with_memory st (effect st.memory), source tail 0 e))

-- A submessage outside an array, whose length is a 32-bit number and whose bytes pb_decode_noinit
-- can use up, is taken with its length, and has the effect that it has as a message.
pub submessage-Reads :
    {H : Type 0} (p : Platform H (List ℕ)) (decode noinit : ℕ → ℕ → Decode H (List ℕ))
    (field : Field) (dest : ℕ) (bs : List ℕ) (effect : Memory → Memory) (memory : Memory)
    → ltype field ≡ 7
    → htype field ≢ 0x20
    → field.ptr ≢ 0
    → IsU32 (length bs)
    → Consumes memory (noinit field.ptr dest) bs effect
    → ReadsAt memory (decoder p decode noinit field dest) (varint (length bs) ++ bs) effect
unfolding decoder pb_dec_submessage
submessage-Reads p decode noinit field dest bs effect memory kind single there word consumes st rest
      m n e at size =
    let made =
      pb_make_string_substream_lem (length bs) (bs ++ rest) m n e word
        (omega (arith, size, length-append (varint (length bs)) bs)) in
    let some_descriptor : (field.ptr == 0) ≡ false = ground arith in
    let no_array : (htype field == 0x20) ≡ false = ground arith in
    rw (append_assoc (varint (length bs)) bs rest, kind, made, some_descriptor, no_array)
      (rw (consumes st rest (length bs) e at refl, pb_close_string_substream_lem bs [] rest n e e)
        refl)
