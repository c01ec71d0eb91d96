-- ===== src/Nanopb/Message/Fuel.antt =====
-- pb_encode with more fuel than a message needs.
use fantasy_iq.Base.{ℕ, zero, suc, ◌+◌, length, ◌≡◌, arith, refl, ◌∙◌}
use fantasy_iq.Nanopb.Iterator.{field_at}
use fantasy_iq.Nanopb.Machine.{Machine}
use fantasy_iq.Nanopb.Output.Emits.{Sink, Emits, Emits-subst}
use fantasy_iq.Nanopb.Message.{pb_encode}
use fantasy_iq.Nanopb.Message.Emits.{pb_encode-message_bytes}
use fantasy_iq.Nanopb.Message.Encoding.{message_bytes, IsMessage}
use fantasy_iq.Nanopb.Message.Same.{field-same, IsField-still, fields-same}

module _ {S : Type 0} (m : Machine S) where
  -- One level more of fuel than a message needs.
  next_fuel :
      (fuel fields src : ℕ)
      → IsMessage m fuel fields src
      → (message_bytes m (suc fuel) fields src ≡ message_bytes m fuel fields src)
        × IsMessage m (suc fuel) fields src
  unfolding message_bytes
  next_fuel zero fields src ok = absurd ok
  next_fuel (suc fuel) fields src (d, each) =
      let entries = m.descriptors fields in
      let same : (d src : ℕ)
          → IsMessage m fuel d src
          → message_bytes m (suc fuel) d src ≡ message_bytes m fuel d src =
        λ d src ok. (next_fuel fuel d src ok).0 in
      let still : (d src : ℕ) → IsMessage m fuel d src → IsMessage m (suc fuel) d src =
        λ d src ok. (next_fuel fuel d src ok).1 in
      (
        fields-same m _ _ entries src (length entries) 0 (omega arith) (λ i inside.
            field-same m (message_bytes m fuel) (message_bytes m (suc fuel)) (IsMessage m fuel)
              (IsMessage m (suc fuel)) same still (field_at entries i) (suc fuel) _
              (each i inside)),
        (
          d,
          λ i inside.
              IsField-still m (message_bytes m fuel) (message_bytes m (suc fuel)) (IsMessage m fuel)
                (IsMessage m (suc fuel)) same still (field_at entries i) (suc fuel) _
                (each i inside),
        ),
      )

  more_fuel :
      (more fuel fields src : ℕ)
      → IsMessage m fuel fields src
      → (message_bytes m (more + fuel) fields src ≡ message_bytes m fuel fields src)
        × IsMessage m (more + fuel) fields src
  more_fuel zero fuel fields src ok = let e : 0 + fuel ≡ fuel = omega arith in rw e (refl, ok)
  more_fuel (suc more) fuel fields src ok =
      let (e, later) = more_fuel more fuel fields src ok in
      let (e', last) = next_fuel (more + fuel) fields src later in
      let one_more : suc more + fuel ≡ suc (more + fuel) = omega arith in rw one_more (e' ∙ e, last)

  -- A message that can be encoded with some fuel is written as the same bytes with any more fuel.
  pb_encode_more_fuel :
      (k : Sink S) (more fuel fields src : ℕ)
      → IsMessage m fuel fields src
      → Emits k (pb_encode m (more + fuel) fields src) (message_bytes m fuel fields src)
  pb_encode_more_fuel k more fuel fields src ok =
      let (e, later) = more_fuel more fuel fields src ok in
      Emits-subst k e (pb_encode-message_bytes k m (more + fuel) fields src later)
