-- ===== src/Nanopb/FieldEncoders/Submessage.antt =====
-- The two passes of pb_encode_submessage.
use fantasy_iq.Base.{ℕ, ◌+◌, none, List, ◌++◌, length, ◌≡◌, refl, arith, sym, ap, ◌∙◌}
use mathlib.Core.Path.{subst}
use fantasy_iq.Nanopb.Wire.{varint, IsU64}
use fantasy_iq.Nanopb.Output.{OStream, Encode, ◌>>◌, pb_write, sizing}
use fantasy_iq.Nanopb.Output.Emits.{Sink, Emits, Emits-append}
use fantasy_iq.Nanopb.Encode.{pb_encode_varint}
use fantasy_iq.Nanopb.Encode.Varint.{pb_encode_varint-Emits}
use fantasy_iq.Nanopb.FieldEncoders.{submessage, write_submessage, size_submessage}

module _ {S : Type 0} (k : Sink S) where
  pub Emits-ext :
      {f g : Encode S} {bs : List ℕ} → ((s : OStream S) → f s ≡ g s) → Emits k g bs → Emits k f bs
  Emits-ext {f} {g} {bs} e p = subst (λ (h : Encode S). Emits k h bs) (λ i s. sym (e s) i) p

  -- The second pass, into exactly as much room as the first one found.
  write_submessage-Emits :
      (encode : Encode S) (bs : List ℕ)
      → Emits k encode bs
      → IsU64 (length bs)
      → Emits k (write_submessage encode (length bs)) bs
  unfolding pb_write
  write_submessage-Emits encode bs p h = record {
    counts = λ s c. ground arith;
    writes = λ s c. ground (
      arith,
      p.writes (record s { max_size = length bs; bytes_written = 0; errmsg = none })
          (c.0, omega arith, h, refl),
    );
    refuses = λ s c. ground arith;
  }

  size_known :
      (encode : Encode S) (bs : List ℕ) (s : OStream S)
      → Emits k encode bs
      → IsU64 (length bs)
      → submessage encode s
        ≡ (pb_encode_varint (length bs) >> write_submessage encode (length bs)) s
  unfolding submessage
  size_known encode bs s p h =
      let from_zero : 0 + length bs ≡ length bs = omega arith in
      ap (size_submessage encode s) (p.counts (sizing s.state) (refl, omega arith, refl))
      ∙ rw from_zero

  -- Of a message that is always written as the same fewer than 2 ^ 64 bytes, the submessage is its
  -- length and those bytes: the sizes of both passes agree, and "submsg size changed" never comes.
  pub submessage-Emits :
      (encode : Encode S) (bs : List ℕ)
      → Emits k encode bs
      → IsU64 (length bs)
      → Emits k (submessage encode) (varint (length bs) ++ bs)
  submessage-Emits encode bs p h =
      Emits-ext (λ s. size_known encode bs s p h)
        (Emits-append k (pb_encode_varint-Emits k (length bs) h)
          (write_submessage-Emits encode bs p h))
