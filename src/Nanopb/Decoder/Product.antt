-- ===== src/Nanopb/Decoder/Product.antt =====
-- The size that allocate_field (nanopb/pb_decode.c) asks for.
use fantasy_iq.Base.{
  ℕ, ◌-◌, ◌*◌, ◌/◌, ◌%◌, ◌^◌, ◌<◌, ◌≤◌, true, false, ◌&&◌, ◌||◌, ltb, leb, ◌==◌, if◌then◌else◌, ◌≡◌,
  refl, arith, Bool-cases, inl, inr,
}
use native.Mathlib.Nat.{mul-le-mul, mul_comm, div-lt_iff_lt-mul}
use fantasy_iq.Nanopb.Error.{size_too_large}
use fantasy_iq.Nanopb.Machine.{load_pointer}
use fantasy_iq.Nanopb.Input.{IStream}
use fantasy_iq.Nanopb.Decoder.Store.{Store, Platform, fail}
use fantasy_iq.Nanopb.Decoder.Allocate.{set_pointer, allocate_field}

-- The division finds the products that do not fit.
division : (size n : ℕ) → 0 < n → ltb ((2 ^ 64 - 1) / n) size ≡ ltb (2 ^ 64 - 1) (n * size)
division size n pos =
    let (to, from) = div-lt_iff_lt-mul {k = n} {x = 2 ^ 64 - 1} {y = size} pos in
    let swap = mul_comm size n in ground arith

-- Two factors below 2 ^ 32 have a product that fits.
small_factors : (size n : ℕ) → size < 2 ^ 32 → n < 2 ^ 32 → n * size < 2 ^ 64
small_factors size n hs hn =
    let le : n * size ≤ (2 ^ 32 - 1) * (2 ^ 32 - 1) =
      mul-le-mul {n₂ = 2 ^ 32 - 1} {m₂ = 2 ^ 32 - 1} (omega arith) (omega arith) in
    omega (arith, le)

-- Of an entry size and a count, neither of them 0, `allocate_field` asks the allocator for exactly
-- their product where a size_t holds it, and never for a product that has wrapped around: it then
-- fails with "size too large" and does not call the allocator.
pub allocate_field-product :
    {H S : Type 0} (p : Platform H S) (p_data data_size array_size : ℕ) (st : Store H)
    (s : IStream S)
    → 0 < data_size
    → 0 < array_size
    → allocate_field p p_data data_size array_size st s ≡ (
        if ltb (array_size * data_size) (2 ^ 64)
        then set_pointer p p_data
            (p.realloc (load_pointer st.memory p_data) (array_size * data_size) st)
            s
        else fail size_too_large st s)
unfolding allocate_field
allocate_field-product p p_data data_size array_size st s some_size some_count =
    let first : (data_size == 0 || array_size == 0) ≡ false = ground arith in
    elim (Bool-cases (ltb (array_size * data_size) (2 ^ 64))) [
      | inl fits ↦
          let division_fits : ltb ((2 ^ 64 - 1) / array_size) data_size ≡ false =
            ground (arith, division data_size array_size some_count) in
          let exact : array_size * data_size % 2 ^ 64 ≡ array_size * data_size = ground arith in
          let passes : ((leb (2 ^ 32) data_size || leb (2 ^ 32) array_size)
                && ltb ((2 ^ 64 - 1) / array_size) data_size)
              ≡ false =
            ground arith in
          rw (first, passes, exact, fits) refl
      | inr wraps ↦
          let large : ((leb (2 ^ 32) data_size || leb (2 ^ 32) array_size)
                && ltb ((2 ^ 64 - 1) / array_size) data_size)
              ≡ true =
            ground (
              arith,
              division data_size array_size some_count,
              small_factors data_size array_size,
            ) in
          rw (first, large, wraps) refl
    ]
