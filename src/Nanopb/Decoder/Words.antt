-- ===== src/Nanopb/Decoder/Words.antt =====
-- Integers in memory: what is loaded where one was written, and elsewhere.
use fantasy_iq.Base.{
  ℕ, zero, suc, ◌+◌, ◌*◌, ◌/◌, ◌%◌, ◌^◌, ◌<◌, ◌≤◌, List, [], ◌∷◌, ◌≡◌, refl, arith, All, ap, ◌∙◌,
}
use native.Mathlib.Nat.{pow-suc}
use fantasy_iq.Nanopb.Wire.{IsByte, little_endian, length-little_endian}
use fantasy_iq.Nanopb.Iterator.{add_address}
use fantasy_iq.Nanopb.Machine.{load, load_bytes}
use fantasy_iq.Nanopb.Decoder.Store.{Memory, write_integer}
use fantasy_iq.Nanopb.Decoder.Memory.{
  Outside, load_bytes-ext, load_bytes-write_bytes, write_bytes-Outside,
}

-- The little-endian number of some bytes.
unfoldable pub number_of : List ℕ → ℕ
number_of [] = 0
number_of (b ∷ bs) = b + 256 * number_of bs

pub load-number_of :
    (memory : Memory) (n p : ℕ) → load memory n p ≡ number_of (load_bytes memory n p)
unfolding load load_bytes number_of
load-number_of memory zero p = refl
load-number_of memory (suc n) p =
    ap (λ (v : ℕ). memory p % 256 + 256 * v) (load-number_of memory n (add_address p 1))

little_endian-IsByte : (n v : ℕ) → All IsByte (little_endian n v)
unfolding little_endian
little_endian-IsByte zero v = tt
little_endian-IsByte (suc n) v = (omega arith, little_endian-IsByte n (v / 256))

number_of-little_endian : (n v : ℕ) → v < 256 ^ n → number_of (little_endian n v) ≡ v
unfolding number_of little_endian
number_of-little_endian zero v h = omega arith
number_of-little_endian (suc n) v h =
    let less : v / 256 < 256 ^ n = omega (arith, pow-suc 256 n) in
    omega (arith, number_of-little_endian n (v / 256) less)

-- An integer that was written is loaded again.
pub load-write_integer :
    (memory : Memory) (n p v : ℕ)
    → p + n ≤ 2 ^ 64
    → v < 256 ^ n
    → load (write_integer memory n p v) n p ≡ v
load-write_integer memory n p v inside small =
    let bs = little_endian n v in
    let size = length-little_endian n v in
    let there =
      load_bytes-write_bytes bs memory p (omega (arith, size, inside)) (little_endian-IsByte n v) in
    load-number_of (write_integer memory n p v) n p
    ∙ ap number_of (rw size at there)
    ∙ number_of-little_endian n v small

-- What is loaded depends only on the bytes there.
pub load-ext :
    (n : ℕ) (memory memory' : Memory) (p : ℕ)
    → p + n ≤ 2 ^ 64
    → ((q : ℕ) → p ≤ q → q < p + n → memory q ≡ memory' q)
    → load memory n p ≡ load memory' n p
load-ext n memory memory' p inside h =
    rw (load-number_of memory n p, load-number_of memory' n p)
      (ap number_of (load_bytes-ext n memory memory' p inside h))

-- An integer that is written changes no other byte.
pub write_integer-Outside :
    (memory : Memory) (n p v q : ℕ)
    → p + n ≤ 2 ^ 64
    → Outside p n q
    → write_integer memory n p v q ≡ memory q
write_integer-Outside memory n p v q inside out =
    let size = length-little_endian n v in
    write_bytes-Outside (little_endian n v) memory p q (omega (arith, size, inside)) (rw size out)
