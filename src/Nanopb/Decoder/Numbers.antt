-- ===== src/Nanopb/Decoder/Numbers.antt =====
-- The number that is loaded behind pb_encode.c and the functions in PB_DECODERS.
use fantasy_iq.Base.{
  ℕ, zero, suc, ◌+◌, ◌^◌, ◌≤◌, ◌<◌, List, length, ◌==◌, false, ◌≡◌, refl, arith, All, ap, ◌∙◌, sym,
  Bool-cases, inl, inr,
}
use fantasy_iq.Nanopb.Field.{Field, ltype}
use fantasy_iq.Nanopb.Wire.{IsByte}
use fantasy_iq.Nanopb.Iterator.{add_address}
use fantasy_iq.Nanopb.Output.{Encode}
use fantasy_iq.Nanopb.Output.Buffer.{Buffer, pb_ostream_from_buffer}
use fantasy_iq.Nanopb.Input.Buffer.{pb_istream_from_buffer}
use fantasy_iq.Nanopb.Machine.{Machine, load, load_bytes}
use fantasy_iq.Nanopb.FieldEncoders.{encoder}
use fantasy_iq.Nanopb.FieldEncoders.Values.{scalar_bytes, length-load_bytes}
use fantasy_iq.Nanopb.Decoder.Store.{Memory, Store, Decode, Platform}
use fantasy_iq.Nanopb.Decoder.Memory.{load_bytes-write_bytes}
use fantasy_iq.Nanopb.Decoder.Words.{number_of, load-number_of}
use fantasy_iq.Nanopb.Decoder.Values.{decoder}
use fantasy_iq.Nanopb.Decoder.Scalars.{copy}
use fantasy_iq.Nanopb.Decoder.Stored.{copied, IsHeld, decoder-encoder}

load_bytes-IsByte : (memory : Memory) (n p : ℕ) → All IsByte (load_bytes memory n p)
unfolding load_bytes
load_bytes-IsByte memory zero p = tt
load_bytes-IsByte memory (suc n) p = (omega arith, load_bytes-IsByte memory n (add_address p 1))

-- A copied number is the same.
pub load-copy :
    (from : Memory) (n src dest : ℕ) (memory : Memory)
    → dest + n ≤ 2 ^ 64
    → load (copy from n src dest memory) n dest ≡ load from n src
load-copy from n src dest memory inside =
    let bs = load_bytes from n src in
    let size = length-load_bytes from n src in
    let there =
      load_bytes-write_bytes bs memory dest (omega (arith, size, inside))
        (load_bytes-IsByte from n src) in
    load-number_of (copy from n src dest memory) n dest
    ∙ ap number_of (rw size at there)
    ∙ sym (load-number_of from n src)

pub copied-copy :
    (from : Memory) (field : Field) (src dest : ℕ) (memory : Memory)
    → ltype field ≤ 4
    → (ltype field ≡ 3 → field.data_size ≡ 4)
    → (ltype field ≡ 4 → field.data_size ≡ 8)
    → copied from field src dest memory ≡ copy from field.data_size src dest memory
unfolding copied
copied-copy from field src dest memory number four eight = elim (Bool-cases (ltype field == 3)) [
  | inl e ↦ rw (e, four (ground arith)) refl
  | inr n₃ ↦ elim (Bool-cases (ltype field == 4)) [
    | inl e ↦ rw (n₃, e, eight (ground arith)) refl
    | inr n₄ ↦
        let n₅ : (ltype field == 5) ≡ false = ground arith in
        let n₆ : (ltype field == 6) ≡ false = ground arith in rw (n₃, n₄, n₅, n₆) refl
  ]
]

-- A number of a static field, of whatever kind, with a place for its `data_size` bytes at `dest`:
-- after `encoder` has written it into a buffer with room for its bytes and `decoder` has read the
-- bytes written, the number in memory at `dest` is the one that was at `src`.
pub decoder-encoder_number :
    {H : Type 0} (p : Platform H (List ℕ)) (decode noinit : ℕ → ℕ → Decode H (List ℕ))
    (m : Machine Buffer) (encode : ℕ → ℕ → Encode Buffer) (field : Field) (src dest : ℕ)
    (st : Store H) (buf : List ℕ) (size : ℕ)
    → IsHeld m field src
    → length (scalar_bytes m field src) ≤ size
    → size ≤ length buf
    → size < 2 ^ 64
    → ltype field ≤ 4
    → (ltype field ≡ 3 → field.data_size ≡ 4)
    → (ltype field ≡ 4 → field.data_size ≡ 8)
    → dest + field.data_size ≤ 2 ^ 64
    → let r = (encoder m encode field src (pb_ostream_from_buffer buf size)).1 in
      let back = pb_istream_from_buffer r.state.memory r.bytes_written in
      let after = (decoder p decode noinit field dest st back).1.0.memory in
      load after field.data_size dest ≡ load m.memory field.data_size src
decoder-encoder_number p decode noinit m encode field src dest st buf size held fits room word
      number four eight inside =
    rw
      (
        decoder-encoder p decode noinit m encode field src dest st buf size held fits room word,
        copied-copy m.memory field src dest st.memory number four eight,
      )
      (load-copy m.memory field.data_size src dest st.memory inside)
