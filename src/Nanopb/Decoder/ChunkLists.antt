-- ===== src/Nanopb/Decoder/ChunkLists.antt =====
-- Messages in two parts, as pb_decode_noinit of nanopb/pb_decode.c reads them.
use fantasy_iq.Base.{ℕ, Bool, List, [], ◌∷◌, ◌++◌, ◌≡◌, refl, ap, ◌∙◌, sym, append_assoc}
use fantasy_iq.Nanopb.Field.{Field}
use fantasy_iq.Nanopb.Decoder.Store.{Memory, Decode, Platform}
use fantasy_iq.Nanopb.Decoder.Chunks.{
  Chunk, bytes_of, chunk_bytes, effect_of, chunk_effect, seen_of, chunk_seen, AreChunks,
}

pub bytes_of-append :
    (fields : List Field) (cs ds : List Chunk)
    → bytes_of fields (cs ++ ds) ≡ bytes_of fields cs ++ bytes_of fields ds
unfolding bytes_of
bytes_of-append fields [] ds = refl
bytes_of-append fields (c ∷ cs) ds =
    ap (λ (t : List ℕ). chunk_bytes fields c ++ t) (bytes_of-append fields cs ds)
    ∙ sym (append_assoc (chunk_bytes fields c) (bytes_of fields cs) (bytes_of fields ds))

pub effect_of-append :
    (cs ds : List Chunk) (memory : Memory)
    → effect_of (cs ++ ds) memory ≡ effect_of ds (effect_of cs memory)
unfolding effect_of
effect_of-append [] ds memory = refl
effect_of-append (c ∷ cs) ds memory = effect_of-append cs ds (chunk_effect c memory)

pub seen_of-append :
    (fields : List Field) (cs ds : List Chunk) (f : ℕ → Bool)
    → seen_of fields (cs ++ ds) f ≡ seen_of fields ds (seen_of fields cs f)
unfolding seen_of
seen_of-append fields [] ds f = refl
seen_of-append fields (c ∷ cs) ds f = seen_of-append fields cs ds (chunk_seen fields c f)

pub AreChunks-append :
    {H : Type 0} (p : Platform H (List ℕ)) (fuel : ℕ) (decoders : Field → ℕ → Decode H (List ℕ))
    (fields : List Field) (dest : ℕ) (memory : Memory) (cs ds : List Chunk)
    → AreChunks p fuel decoders fields dest memory cs
    → AreChunks p fuel decoders fields dest (effect_of cs memory) ds
    → AreChunks p fuel decoders fields dest memory (cs ++ ds)
unfolding effect_of
AreChunks-append p fuel decoders fields dest memory [] ds first rest = rest
AreChunks-append p fuel decoders fields dest memory (c ∷ cs) ds first rest = (
  first.0,
  AreChunks-append p fuel decoders fields dest (chunk_effect c memory) cs ds first.1 rest,
)
