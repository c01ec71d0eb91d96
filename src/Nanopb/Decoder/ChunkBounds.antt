-- ===== src/Nanopb/Decoder/ChunkBounds.antt =====
-- How far the chunks of a message go: entries, required fields and bytes.
use fantasy_iq.Base.{
  ℕ, zero, suc, ◌+◌, ◌-◌, ◌*◌, ◌<◌, ◌≤◌, min, Bool, true, List, [], ◌∷◌, length, ◌==◌, ◌≡◌, arith,
  inl, inr, Bool-cases, length-append, ◌++◌,
}
use fantasy_iq.Nanopb.Field.{Field, htype}
use fantasy_iq.Nanopb.Field.Htype
use fantasy_iq.Nanopb.Wire.{key, length-groups}
use fantasy_iq.Nanopb.Iterator.{field_at}
use fantasy_iq.Nanopb.Iterator.Walk.{required_before}
use fantasy_iq.Nanopb.Decoder.Store.{Memory, Decode, Platform}
use fantasy_iq.Nanopb.Decoder.Seen.{NoneFrom}
use fantasy_iq.Nanopb.Decoder.Chunks.{
  Chunk, known, unknown, chunk_bytes, bytes_of, chunk_seen, seen_of, position_of, IsChunk,
  AreChunks, chunk_effect,
}

-- The numbers of required entries grow.
required_before-le :
    (fields : List Field) (i n : ℕ) → required_before fields i ≤ required_before fields (i + n)
unfolding required_before
required_before-le fields i zero = ground arith
required_before-le fields i (suc n) =
    let next : i + suc n ≡ suc (i + n) = omega arith in
    rw next (ground (arith, required_before-le fields i n))

pub required_before-lt :
    (fields : List Field) (i n : ℕ)
    → i < n
    → (htype (field_at fields i) == Htype.required) ≡ true
    → required_before fields i < required_before fields n
unfolding required_before
required_before-lt fields i n h is =
    let split : suc i + (n - suc i) ≡ n = omega arith in
    let le = rw split at (required_before-le fields (suc i) (n - suc i)) in ground (arith, le)

-- The required entries that are checked: all, or the first 64.
abbrev pub checked : List Field → ℕ
checked fields = min 64 (required_before fields (length fields))

module _ {H : Type 0} (p : Platform H (List ℕ)) (fuel : ℕ)
    (decoders : Field → ℕ → Decode H (List ℕ)) (fields : List Field) (dest : ℕ) where
  pub chunk_seen-NoneFrom :
      (memory : Memory) (c : Chunk) (f : ℕ → Bool)
      → IsChunk p fuel decoders fields dest memory c
      → NoneFrom (checked fields) 64 f
      → NoneFrom (checked fields) 64 (chunk_seen fields c f)
  unfolding chunk_seen
  chunk_seen-NoneFrom memory (unknown tag w payload) f is beyond j lo hi = beyond j lo hi
  chunk_seen-NoneFrom memory (known i w payload effect) f is beyond j lo hi =
      let before = beyond j lo hi in
      elim (Bool-cases (htype (field_at fields i) == Htype.required)) [
        | inl e ↦
            let h = required_before-lt fields i (length fields) is.inside e in rw e (ground arith)
        | inr e ↦ rw e before
      ]

  pub seen_of-NoneFrom :
      (memory : Memory) (cs : List Chunk) (f : ℕ → Bool)
      → AreChunks p fuel decoders fields dest memory cs
      → NoneFrom (checked fields) 64 f
      → NoneFrom (checked fields) 64 (seen_of fields cs f)
  unfolding seen_of chunk_effect
  seen_of-NoneFrom memory [] f ok beyond = beyond
  seen_of-NoneFrom memory (c ∷ cs) f ok beyond =
      seen_of-NoneFrom (chunk_effect c memory) cs (chunk_seen fields c f) ok.1
        (chunk_seen-NoneFrom memory c f ok.0 beyond)

  pub position_of-lt :
      (memory : Memory) (cs : List Chunk) (k : ℕ)
      → AreChunks p fuel decoders fields dest memory cs
      → k < length fields
      → position_of cs k < length fields
  unfolding chunk_effect
  position_of-lt memory [] k ok h = h
  position_of-lt memory (known i w payload effect ∷ cs) k ok h =
      position_of-lt (effect memory) cs i ok.1 ok.0.inside
  position_of-lt memory (unknown tag w payload ∷ cs) k ok h = position_of-lt memory cs k ok.1 h

pub length-bytes_of :
    (fields : List Field) (cs : List Chunk) → length cs ≤ length (bytes_of fields cs)
unfolding bytes_of chunk_bytes
length-bytes_of fields [] = omega arith
length-bytes_of fields (known i w payload effect ∷ cs) =
    let bs = key w (field_at fields i).tag in
    omega (
      arith,
      length-append (bs ++ payload) (bytes_of fields cs),
      length-append bs payload,
      length-groups 9 ((field_at fields i).tag * 8 + w),
      length-bytes_of fields cs,
    )
length-bytes_of fields (unknown tag w payload ∷ cs) = omega (
  arith,
  length-append (key w tag ++ payload) (bytes_of fields cs),
  length-append (key w tag) payload,
  length-groups 9 (tag * 8 + w),
  length-bytes_of fields cs,
)
