-- ===== src/Nanopb/Input/Buffer.antt =====
-- The stream over a memory buffer: `buf_read` and `pb_istream_from_buffer` of nanopb/pb_decode.c.
use fantasy_iq.Base.{
  ℕ, ◌+◌, Bool, true, Option, none, some, List, [], ◌∷◌, ◌++◌, take, drop, length, length-append,
  take-append_exact, drop-append_exact, ◌≡◌, refl, arith, append_assoc,
}
use fantasy_iq.Nanopb.Error.{Error}
use fantasy_iq.Nanopb.Input.{Reader, IStream, Read, pb_read, pb_readbyte, ◌>>=◌}

-- `stream->state` points to the bytes that are still to be read.
unfoldable pub buf_read : List ℕ → ℕ → Bool × List ℕ × List ℕ
buf_read source count = (true, take count source, drop count source)

abbrev pub buf_reader : Reader (List ℕ)
buf_reader = record { read = buf_read; is_buf_read = true }

abbrev pub source : List ℕ → ℕ → Option Error → IStream (List ℕ)
source bs n e = record { callback = buf_reader; state = bs; bytes_left = n; errmsg = e }

unfoldable pub pb_istream_from_buffer : List ℕ → ℕ → IStream (List ℕ)
pb_istream_from_buffer buf bufsize = source buf bufsize none

-- `f` takes exactly the bytes `bs` from the front of a buffer, returns `a`, and leaves the rest.
abbrev pub Takes : {A : Type 0} → Read (List ℕ) A → List ℕ → A → Type 0
Takes f bs a =
    (rest : List ℕ) (m n : ℕ) (e : Option Error)
    → m ≡ length bs + n
    → f (source (bs ++ rest) m e) ≡ (some a, source rest n e)

pub Takes-pb_readbyte : (b : ℕ) → Takes pb_readbyte (b ∷ []) b
unfolding pb_readbyte buf_read
Takes-pb_readbyte b rest m n e h = ground arith

pub Takes-pb_read : (null : Bool) (bs : List ℕ) → Takes (pb_read null (length bs)) bs bs
unfolding pb_read buf_read
Takes-pb_read null bs rest m n e h =
    ground (arith, take-append_exact bs rest, drop-append_exact bs rest)

pub Takes-bind :
    {A B : Type 0} (f : Read (List ℕ) A) (g : A → Read (List ℕ) B) (xs ys : List ℕ) (a : A) (b : B)
    → Takes f xs a
    → Takes (g a) ys b
    → Takes (f >>= g) (xs ++ ys) b
Takes-bind f g xs ys a b p q rest m n e h =
    rw
      (
        append_assoc xs ys rest,
        p (ys ++ rest) m (length ys + n) e (omega (arith, h, length-append xs ys)),
      )
      (q rest (length ys + n) n e refl)
