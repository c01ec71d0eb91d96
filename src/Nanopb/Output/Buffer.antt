-- ===== src/Nanopb/Output/Buffer.antt =====
-- The stream over a memory buffer: `buf_write` and `pb_ostream_from_buffer` of nanopb/pb_encode.c.
use fantasy_iq.Base.{
  ℕ, suc, ◌+◌, Bool, true, none, some, List, [], ◌∷◌, ◌++◌, set, length, ◌≡◌, refl, arith, add-zero,
  length-set, set_middle, length-append, append_assoc,
}
use fantasy_iq.Nanopb.Output.{OStream}
use fantasy_iq.Nanopb.Output.Emits.{Sink}

-- The array that the stream was made for, and the position that `stream->state` points to.
pub record Buffer : Type 0 where
  pub memory : List ℕ
  pub position : ℕ

-- `for (i = 0; i < count; i++) dest[i] = buf[i]`
unfoldable pub store : List ℕ → ℕ → List ℕ → List ℕ
store memory position [] = memory
store memory position (b ∷ bs) = store (set memory position b) (suc position) bs

abbrev pub put_bytes : Buffer → List ℕ → Buffer
put_bytes buffer bs = record {
  memory = store buffer.memory buffer.position bs;
  position = buffer.position + length bs;
}

unfoldable pub buf_write : Buffer → List ℕ → Bool × Buffer
buf_write buffer bs = (true, put_bytes buffer bs)

unfoldable pub pb_ostream_from_buffer : List ℕ → ℕ → OStream Buffer
pb_ostream_from_buffer buf bufsize = record {
  callback = some buf_write;
  state = record { memory = buf; position = 0 };
  max_size = bufsize;
  bytes_written = 0;
  errmsg = none;
}

store-append :
    (memory : List ℕ) (position : ℕ) (xs ys : List ℕ)
    → store memory position (xs ++ ys) ≡ store (store memory position xs) (position + length xs) ys
unfolding store
store-append memory position [] ys = rw add-zero
store-append memory position (x ∷ xs) ys =
    let e : position + suc (length xs) ≡ suc position + length xs = omega arith in
    rw e (store-append (set memory position x) (suc position) xs ys)

pub put_bytes-append :
    (buffer : Buffer) (xs ys : List ℕ)
    → put_bytes buffer (xs ++ ys) ≡ put_bytes (put_bytes buffer xs) ys
put_bytes-append buffer xs ys =
    ground (arith, store-append buffer.memory buffer.position xs ys, length-append xs ys)

pub put_bytes-nil : (buffer : Buffer) → put_bytes buffer [] ≡ buffer
unfolding store
put_bytes-nil buffer = ground arith

-- Memory takes whatever is stored.
unfoldable pub memory_sink : Sink Buffer
memory_sink = record { put = put_bytes; put_nil = put_bytes-nil; put_append = put_bytes-append }

pub length-store :
    (memory : List ℕ) (position : ℕ) (bs : List ℕ)
    → length (store memory position bs) ≡ length memory
unfolding store
length-store memory position [] = refl
length-store memory position (b ∷ bs) =
    omega
      (arith, length-store (set memory position b) (suc position) bs, length-set memory position b)

-- Bytes that fit replace exactly their own stretch of the array.
pub store_middle :
    (bs before old after : List ℕ)
    → length old ≡ length bs
    → store (before ++ (old ++ after)) (length before) bs ≡ before ++ (bs ++ after)
unfolding store
store_middle [] before [] after h = refl
store_middle (b ∷ bs) before [] after h = absurd (omega arith)
store_middle [] before (o ∷ old) after h = absurd (omega arith)
store_middle (b ∷ bs) before (o ∷ old) after h = rw set_middle (
    ground (
      arith,
      length-append before (b ∷ []),
      append_assoc before (b ∷ []) (old ++ after),
      append_assoc before (b ∷ []) (bs ++ after),
      store_middle bs (before ++ (b ∷ [])) old after,
    ))
