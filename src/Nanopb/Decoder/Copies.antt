-- ===== src/Nanopb/Decoder/Copies.antt =====
-- Decoding functions that take exactly some bytes from a buffer and then change memory.
use fantasy_iq.Base.{
  ℕ, zero, suc, ◌+◌, ◌*◌, ◌/◌, ◌%◌, ◌^◌, ◌<◌, true, false, Option, List, [], ◌∷◌, ◌++◌, length, ◌≡◌,
  ◌⊎◌, refl, ap, arith, append_assoc, length-append, take_all,
}
use fantasy_iq.Nanopb.Error.{Error}
use fantasy_iq.Nanopb.Field.{Field}
use fantasy_iq.Nanopb.Wire.{little_endian}
use fantasy_iq.Nanopb.Iterator.{add_address}
use fantasy_iq.Nanopb.Input.{Read}
use fantasy_iq.Nanopb.Input.Buffer.{source, Takes, Takes-pb_read}
use fantasy_iq.Nanopb.Machine.{load, load_bytes, sign_extended}
use fantasy_iq.Nanopb.FieldEncoders.Values.{IsWidth, as_long}
use fantasy_iq.Nanopb.Decoder.Store.{
  Memory, Store, Decode, with_memory, write_byte, write_bytes, write_integer, put, ◌>>=◌, ◌>>◌,
}
use fantasy_iq.Nanopb.Decoder.Values.{store_integer, read_into, terminated}

-- The codes of the scalar kinds.
abbrev pub IsScalar : ℕ → Type 0
IsScalar t = (t ≡ 0) ⊎ (t ≡ 1) ⊎ (t ≡ 2) ⊎ (t ≡ 3) ⊎ (t ≡ 4) ⊎ (t ≡ 5) ⊎ (t ≡ 6) ⊎ (t ≡ 9)

-- `f` takes exactly the bytes `bs` from the front of a buffer, returns true, leaves the rest and
-- changes memory by `effect`.
abbrev pub Reads : {H : Type 0} → Decode H (List ℕ) → List ℕ → (Memory → Memory) → Type 0
Reads {H} f bs effect =
    (st : Store H) (rest : List ℕ) (m n : ℕ) (e : Option Error)
    → m ≡ length bs + n
    → f st (source (bs ++ rest) m e) ≡ (true, (with_memory st (effect st.memory), source rest n e))

-- The same where memory is what is given.
abbrev pub ReadsAt : {H : Type 0} → Memory → Decode H (List ℕ) → List ℕ → (Memory → Memory) → Type 0
ReadsAt {H} memory f bs effect =
    (st : Store H) (rest : List ℕ) (m n : ℕ) (e : Option Error)
    → st.memory ≡ memory
    → m ≡ length bs + n
    → f st (source (bs ++ rest) m e) ≡ (true, (with_memory st (effect st.memory), source rest n e))

-- The bytes of a loaded number are those in memory.
pub little_endian-load :
    (memory : Memory) (n p : ℕ) → little_endian n (load memory n p) ≡ load_bytes memory n p
unfolding little_endian load load_bytes
little_endian-load memory zero p = refl
little_endian-load memory (suc n) p =
    let v = load memory n (add_address p 1) in
    let low : (memory p % 256 + 256 * v) % 256 ≡ memory p % 256 = omega arith in
    let high : (memory p % 256 + 256 * v) / 256 ≡ v = omega arith in
    rw (low, high)
      (ap (λ (t : List ℕ). (memory p % 256) ∷ t) (little_endian-load memory n (add_address p 1)))

-- A signed or an unsigned number of the field's width is stored whole.
pub store_integer-signed :
    {H S : Type 0} (field : Field) (dest v : ℕ)
    → IsWidth field.data_size
    → v < 256 ^ field.data_size
    → store_integer {H = H} {S = S} true field dest (as_long field.data_size v)
      ≡ put (λ m. write_integer m field.data_size dest v)
unfolding sign_extended
store_integer-signed field dest v w h = ground arith

pub store_integer-unsigned :
    {H S : Type 0} (field : Field) (dest v : ℕ)
    → IsWidth field.data_size
    → v < 256 ^ field.data_size
    → store_integer {H = H} {S = S} false field dest v
      ≡ put (λ m. write_integer m field.data_size dest v)
store_integer-unsigned field dest v w h = ground arith

module _ {H : Type 0} where
  pub Reads-ReadsAt :
      (f : Decode H (List ℕ)) (bs : List ℕ) (effect : Memory → Memory) (memory : Memory)
      → Reads f bs effect
      → ReadsAt memory f bs effect
  Reads-ReadsAt f bs effect memory h st rest m n e at = h st rest m n e

  pub Reads-bind :
      {A : Type 0} (f : Read (List ℕ) A) (g : A → Decode H (List ℕ)) (xs ys : List ℕ) (a : A)
      (effect : Memory → Memory)
      → Takes f xs a
      → Reads (g a) ys effect
      → Reads (f >>= g) (xs ++ ys) effect
  Reads-bind f g xs ys a effect p q st rest m n e h =
      rw
        (
          append_assoc xs ys rest,
          p (ys ++ rest) m (length ys + n) e (omega (arith, h, length-append xs ys)),
        )
        (q st rest (length ys + n) n e refl)

  pub Reads-put : (effect : Memory → Memory) → Reads {H = H} (put effect) [] effect
  Reads-put effect st rest m n e h = rw h (let z : 0 + n ≡ n = omega arith in rw z refl)

  -- A value that is taken and then stored.
  pub Reads-value :
      {A : Type 0} (f : Read (List ℕ) A) (g : A → Decode H (List ℕ)) (xs : List ℕ) (a : A)
      (effect : Memory → Memory)
      → Takes f xs a
      → g a ≡ put effect
      → Reads (f >>= g) xs effect
  Reads-value f g xs a effect p q st rest m n e h = rw (p rest m n e h, q) refl

  pub read_into-Reads :
      (dest count : ℕ) (bs : List ℕ)
      → count ≡ length bs
      → Reads {H = H} (read_into dest count) bs (λ m. write_bytes m dest bs)
  unfolding read_into
  read_into-Reads dest count bs c st rest m n e h =
      rw (c, Takes-pb_read false bs rest m n e h, take_all bs) refl

  -- Memory is changed first.
  pub Reads-after :
      (first : Memory → Memory) (f : Decode H (List ℕ)) (bs : List ℕ) (effect : Memory → Memory)
      → Reads f bs effect
      → Reads (put first >> f) bs (λ m. effect (first m))
  Reads-after first f bs effect h st = h (with_memory st (first st.memory))

  pub ReadsAt-after :
      (first : Memory → Memory) (f : Decode H (List ℕ)) (bs : List ℕ) (effect : Memory → Memory)
      (memory : Memory)
      → ReadsAt (first memory) f bs effect
      → ReadsAt memory (put first >> f) bs (λ m. effect (first m))
  ReadsAt-after first f bs effect memory h st rest m n e at =
      h (with_memory st (first st.memory)) rest m n e (ap first at)

  pub Reads-terminated :
      (q : ℕ) (f : Decode H (List ℕ)) (bs : List ℕ) (effect : Memory → Memory)
      → Reads f bs effect
      → Reads (λ st s. terminated q (f st s)) bs (λ m. write_byte (effect m) q 0)
  Reads-terminated q f bs effect h st rest m n e k = rw (h st rest m n e k) refl
