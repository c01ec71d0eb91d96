-- ===== src/Nanopb/Decoder/Chunks.antt =====
-- Messages as sequences of fields that are known and fields that are not, in any order, as
-- pb_decode_noinit of nanopb/pb_decode.c reads them.
use fantasy_iq.Base.{
  ℕ, ◌-◌, ◌^◌, ◌<◌, Bool, true, false, ◌&&◌, none, List, [], ◌∷◌, ◌++◌, length, ltb, ◌==◌,
  if◌then◌else◌, ◌≡◌,
}
use fantasy_iq.Nanopb.Field.{Field, htype}
use fantasy_iq.Nanopb.Field.Htype
use fantasy_iq.Nanopb.Wire.{key}
use fantasy_iq.Nanopb.Iterator.{field_at}
use fantasy_iq.Nanopb.Iterator.Walk.{walk, required_before}
use fantasy_iq.Nanopb.Iterator.Find.{wanted_at}
use fantasy_iq.Nanopb.Decode.Skip.{Payload}
use fantasy_iq.Nanopb.Decoder.Store.{Memory, Decode, Platform}
use fantasy_iq.Nanopb.Decoder.Fields.{decode_field}
use fantasy_iq.Nanopb.Decoder.Message.{Progress}
use fantasy_iq.Nanopb.Decoder.Copies.{ReadsAt}
use fantasy_iq.Nanopb.Decoder.Seen.{words, marked}

-- A field on the wire: of the entry at a position, with its payload and what that does to memory,
-- or with a tag that no entry has.
pub data Chunk : Type 0 where
  known : (position wire_type : ℕ) → List ℕ → (Memory → Memory) → Chunk
  unknown : (tag wire_type : ℕ) → List ℕ → Chunk

-- The bytes of a message.
unfoldable pub chunk_bytes : List Field → Chunk → List ℕ
chunk_bytes fields (known i w payload effect) = key w (field_at fields i).tag ++ payload
chunk_bytes fields (unknown tag w payload) = key w tag ++ payload

unfoldable pub bytes_of : List Field → List Chunk → List ℕ
bytes_of fields [] = []
bytes_of fields (c ∷ cs) = chunk_bytes fields c ++ bytes_of fields cs

-- What the message does to memory: unknown fields do nothing.
unfoldable pub chunk_effect : Chunk → Memory → Memory
chunk_effect (known i w payload effect) memory = effect memory
chunk_effect (unknown tag w payload) memory = memory

unfoldable pub effect_of : List Chunk → Memory → Memory
effect_of [] memory = memory
effect_of (c ∷ cs) memory = effect_of cs (chunk_effect c memory)

-- The numbers of the required entries that are in the message, the first 64.
unfoldable pub chunk_seen : List Field → Chunk → (ℕ → Bool) → ℕ → Bool
chunk_seen fields (known i w payload effect) f =
    if htype (field_at fields i) == Htype.required && ltb (required_before fields i) 64
    then marked (required_before fields i) f
    else f
chunk_seen fields (unknown tag w payload) f = f

unfoldable pub seen_of : List Field → List Chunk → (ℕ → Bool) → ℕ → Bool
seen_of fields [] f = f
seen_of fields (c ∷ cs) f = seen_of fields cs (chunk_seen fields c f)

-- The entry that the search ends at, and `extension_range_start`.
abbrev pub position_of : List Chunk → ℕ → ℕ
position_of [] k = k
position_of (known i w payload effect ∷ cs) k = position_of cs i
position_of (unknown tag w payload ∷ cs) k = position_of cs k

abbrev pub range_of : List Chunk → ℕ → ℕ
range_of [] x = x
range_of (known i w payload effect ∷ cs) x = range_of cs x
range_of (unknown tag w payload ∷ cs) x = range_of cs (if ltb tag x then x else 2 ^ 32 - 1)

module _ {H : Type 0} (p : Platform H (List ℕ)) (fuel : ℕ)
    (decoders : Field → ℕ → Decode H (List ℕ)) (fields : List Field) (dest : ℕ) where
  -- The entry is the only one with its tag, its array is not counted outside the structure, and
  -- its decoding, where memory is what is given, takes the payload and has the effect.
  pub record IsKnown (memory : Memory) (i w : ℕ) (payload : List ℕ) (effect : Memory → Memory)
      : Type 0 where
    pub inside : i < length fields
    pub wire : w < 8
    pub tag : (field_at fields i).tag < 2 ^ 29
    pub wanted : wanted_at fields (field_at fields i).tag i ≡ true
    pub only :
        (j : ℕ) → j < length fields → wanted_at fields (field_at fields i).tag j ≡ true → j ≡ i
    pub counted :
        (htype (field_at fields i) == Htype.repeated
          && (walk fields dest i).p_size == (walk fields dest i).p_data)
        ≡ false
    pub reads : ReadsAt memory (decode_field p fuel decoders w (walk fields dest i)) payload effect

  pub record IsUnknown (tag w : ℕ) (payload : List ℕ) : Type 0 where
    pub positive : 0 < tag
    pub small : tag < 2 ^ 29
    pub nowhere : (i : ℕ) → i < length fields → wanted_at fields tag i ≡ false
    pub carried : Payload w payload

  abbrev pub IsChunk : Memory → Chunk → Type 0
  IsChunk memory (known i w payload effect) = IsKnown memory i w payload effect
  IsChunk memory (unknown tag w payload) = IsUnknown tag w payload

  -- Each chunk where memory is what those before it made of it.
  abbrev pub AreChunks : Memory → List Chunk → Type 0
  AreChunks memory [] = Unit
  AreChunks memory (c ∷ cs) = IsChunk memory c × AreChunks (chunk_effect c memory) cs

  -- The variables of pb_decode_noinit at entry `k`, with a set of required fields seen.
  abbrev pub at_entry : ℕ → (ℕ → Bool) → ℕ → Progress
  at_entry k f x = record {
    iter = walk fields dest k;
    fields_seen = words f;
    extension_range_start = x;
    fixed_count_field = none;
  }
