-- ===== src/Nanopb/Decoder/Memory.antt =====
-- Bytes written to memory, and bytes loaded afterwards.
use fantasy_iq.Base.{
  ℕ, zero, suc, ◌+◌, ◌%◌, ◌^◌, ◌<◌, ◌≤◌, List, [], ◌∷◌, length, ◌≡◌, ◌⊎◌, refl, arith, inl,
  replicate, ap, All,
}
use fantasy_iq.Nanopb.Wire.{IsByte}
use fantasy_iq.Nanopb.Iterator.{add_address}
use fantasy_iq.Nanopb.Machine.{load_bytes}
use fantasy_iq.Nanopb.Decoder.Store.{Memory, write_byte, write_bytes, clear}

-- An address that is none of the `n` bytes from `p` on.
abbrev pub Outside : ℕ → ℕ → ℕ → Type 0
Outside p n q = (q < p) ⊎ (p + n ≤ q)

pub write_bytes-Outside :
    (bs : List ℕ) (memory : Memory) (p q : ℕ)
    → p + length bs ≤ 2 ^ 64
    → Outside p (length bs) q
    → write_bytes memory p bs q ≡ memory q
unfolding write_bytes write_byte
write_bytes-Outside [] memory p q inside out = refl
write_bytes-Outside (b ∷ []) memory p q inside out = ground arith
write_bytes-Outside (b ∷ (c ∷ bs)) memory p q inside out =
    let next : add_address p 1 ≡ p + 1 = omega arith in
    rw next (
      ground (
        arith,
        write_bytes-Outside (c ∷ bs) (write_byte memory p b) (p + 1) q (omega arith) (ground arith),
      ))

pub clear-eq-write_bytes :
    (n : ℕ) (memory : Memory) (p : ℕ) → clear memory p n ≡ write_bytes memory p (replicate n 0)
unfolding clear write_bytes
clear-eq-write_bytes zero memory p = refl
clear-eq-write_bytes (suc n) memory p =
    clear-eq-write_bytes n (write_byte memory p 0) (add_address p 1)

write_byte-there : (memory : Memory) (p b : ℕ) → write_byte memory p b p ≡ b
unfolding write_byte
write_byte-there memory p b = ground arith

-- What is loaded depends only on the bytes there.
pub load_bytes-ext :
    (n : ℕ) (memory memory' : Memory) (p : ℕ)
    → p + n ≤ 2 ^ 64
    → ((q : ℕ) → p ≤ q → q < p + n → memory q ≡ memory' q)
    → load_bytes memory n p ≡ load_bytes memory' n p
unfolding load_bytes
load_bytes-ext zero memory memory' p inside h = refl
load_bytes-ext (suc zero) memory memory' p inside h = rw (h p (omega arith) (omega arith))
load_bytes-ext (suc (suc n)) memory memory' p inside h =
    let next : add_address p 1 ≡ p + 1 = omega arith in
    let here = h p (omega arith) (omega arith) in
    let rest =
      load_bytes-ext (suc n) memory memory' (p + 1) (omega arith)
        (λ q lo hi. h q (omega arith) (omega arith)) in
    rw (here, next) (ap (λ (t : List ℕ). (memory' p % 256) ∷ t) rest)

front :
    (b : ℕ) (xs : List ℕ) (memory : Memory) (p q : ℕ)
    → memory p ≡ b
    → b < 256
    → load_bytes memory (length xs) q ≡ xs
    → (memory p % 256) ∷ load_bytes memory (length xs) q ≡ b ∷ xs
front b xs memory p q here byte rest =
    let small : b % 256 ≡ b = omega arith in rw (here, small, rest) refl

-- Bytes that are written are there.
pub load_bytes-write_bytes :
    (bs : List ℕ) (memory : Memory) (p : ℕ)
    → p + length bs ≤ 2 ^ 64
    → All IsByte bs
    → load_bytes (write_bytes memory p bs) (length bs) p ≡ bs
unfolding load_bytes write_bytes
load_bytes-write_bytes [] memory p inside ok = refl
load_bytes-write_bytes (b ∷ []) memory p inside ok = ground (arith, write_byte-there memory p b)
load_bytes-write_bytes (b ∷ (c ∷ bs)) memory p inside ok =
    let memory' = write_byte memory p b in
    let here : write_bytes memory' (add_address p 1) (c ∷ bs) p ≡ b = ground (
      arith,
      write_bytes-Outside (c ∷ bs) memory' (add_address p 1) p (omega arith) (inl (omega arith)),
      write_byte-there memory p b,
    ) in
    let rest = load_bytes-write_bytes (c ∷ bs) memory' (add_address p 1) (omega arith) ok.1 in
    front b (c ∷ bs) (write_bytes memory' (add_address p 1) (c ∷ bs)) p (add_address p 1) here ok.0
      rest
