-- ===== src/Nanopb/Wire.antt =====
-- The wire format that both directions are held to: base-128 varints, little-endian words,
-- keys and zigzag numbers. No C code is modelled here, but for the codes of pb_wire_type_t.
pub mod WireType
use native.Mathlib.Nat.{pow-suc}
use fantasy_iq.Base.{
  ℕ, zero, suc, ◌+◌, ◌-◌, ◌*◌, ◌/◌, ◌%◌, ◌^◌, ◌<◌, ◌≤◌, List, [], ◌∷◌, ltb, if◌then◌else◌, ◌≡◌,
  arith, length, All, refl, Bool-cases, inl, inr, ltb→lt, ltb→ge,
}

abbrev pub IsByte : ℕ → Type 0
IsByte b = b < 256

abbrev pub IsU32 : ℕ → Type 0
IsU32 v = v < 2 ^ 32

abbrev pub IsU64 : ℕ → Type 0
IsU64 v = v < 2 ^ 64

-- The digits of `v` to base 128, the lowest first, 128 added to all but the last: the shortest
-- form for `v < 128 ^ (k + 1)`.
unfoldable pub groups : ℕ → ℕ → List ℕ
groups zero v = v ∷ []
groups (suc k) v =
    let rest = groups k (v / 128) in if ltb v 128 then v ∷ [] else (128 + v % 128) ∷ rest

abbrev pub varint : ℕ → List ℕ
varint v = groups 9 v

-- `n` bytes of `v`, the lowest first.
unfoldable pub little_endian : ℕ → ℕ → List ℕ
little_endian zero v = []
little_endian (suc n) v = (v % 256) ∷ little_endian n (v / 256)

-- A field's key.
abbrev pub key : ℕ → ℕ → List ℕ
key wire_type tag = varint (tag * 8 + wire_type)

-- The zigzag number of a 64-bit two's complement pattern: 0, -1, 1, -2 become 0, 1, 2, 3.
abbrev pub zigzag : ℕ → ℕ
zigzag v = if ltb v (2 ^ 63) then 2 * v else 2 * (2 ^ 64 - v) - 1

pub groups-small : (k v : ℕ) → v < 128 → groups k v ≡ v ∷ []
unfolding groups
groups-small zero v h = refl
groups-small (suc k) v h = ground arith

pub groups-large : (k v : ℕ) → 128 ≤ v → groups (suc k) v ≡ (128 + v % 128) ∷ groups k (v / 128)
unfolding groups
groups-large k v h = ground arith

pub length-groups : (k v : ℕ) → (1 ≤ length (groups k v)) × (length (groups k v) ≤ k + 1)
unfolding groups
length-groups zero v = omega arith
length-groups (suc k) v = ground (arith, length-groups k (v / 128))

pub groups-IsByte : (k v : ℕ) → v < 128 ^ suc k → All IsByte (groups k v)
unfolding groups
groups-IsByte zero v h = omega arith
groups-IsByte (suc k) v h = ground (arith, groups-IsByte k (v / 128) (omega arith))

pub length-little_endian : (n v : ℕ) → length (little_endian n v) ≡ n
unfolding little_endian
length-little_endian zero v = refl
length-little_endian (suc n) v = omega (arith, length-little_endian n (v / 256))

-- The number that base-128 digits stand for; the top bit of each byte is no part of its digit.
unfoldable pub value : List ℕ → ℕ
value [] = 0
value (b ∷ bs) = b % 128 + 128 * value bs

-- Bytes that end at the first one without the top bit, of which there is one.
abbrev pub IsVarint : List ℕ → Type 0
IsVarint [] = ⊥
IsVarint (b ∷ []) = b < 128
IsVarint (b ∷ (c ∷ bs)) = (128 ≤ b) × (b < 256) × IsVarint (c ∷ bs)

pub groups-IsVarint : (k v : ℕ) → v < 128 ^ suc k → IsVarint (groups k v)
unfolding groups
groups-IsVarint zero v h = omega arith
groups-IsVarint (suc k) v h = elim (Bool-cases (ltb v 128)) [
  | inl small ↦ rw small (ltb→lt _ _ small)
  | inr large ↦ rw large (
      IsVarint-cons (128 + v % 128) (groups k (v / 128)) (omega arith) (omega arith)
        (groups-IsVarint k (v / 128) (omega (arith, ltb→ge _ _ large, pow-suc 128 (suc k)))))
]
  where
    IsVarint-cons : (b : ℕ) (bs : List ℕ) → 128 ≤ b → b < 256 → IsVarint bs → IsVarint (b ∷ bs)
    IsVarint-cons b [] lo hi h = absurd h
    IsVarint-cons b (c ∷ bs) lo hi h = (lo, hi, h)

pub value-groups : (k v : ℕ) → v < 128 ^ suc k → value (groups k v) ≡ v
unfolding groups value
value-groups zero v h = omega arith
value-groups (suc k) v h = ground (arith, pow-suc 128 (suc k), value-groups k (v / 128))

-- A byte with the top bit: another one follows.
abbrev pub IsContinued : ℕ → Type 0
IsContinued b = (128 ≤ b) × (b < 256)

-- Room for more digits than there are changes nothing.
pub groups-room : (k n v : ℕ) → k ≤ n → v < 128 ^ suc k → groups n v ≡ groups k v
unfolding groups
groups-room zero zero v h fits = refl
groups-room zero (suc n) v h fits = groups-small (suc n) v (omega arith)
groups-room (suc k) zero v h fits = absurd (omega arith)
groups-room (suc k) (suc n) v h fits =
    ground (arith, pow-suc 128 (suc k), groups-room k n (v / 128))

-- A number of 32 bits has at most five digits.
pub length-varint_word : (v : ℕ) → IsU32 v → length (varint v) ≤ 5
length-varint_word v h =
    rw (groups-room 4 9 v (omega arith) (omega arith)) (omega (arith, length-groups 4 v))
