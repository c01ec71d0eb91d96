-- ===== src/Nanopb/Input.antt =====
-- pb_istream_t of nanopb/pb_decode.h and its functions in nanopb/pb_decode.c.
-- A stream's user state has any type. A callback returns whether it could read, with the bytes.
pub mod Buffer
use fantasy_iq.Base.{
  ℕ, zero, suc, ◌+◌, ◌-◌, ◌%◌, ◌^◌, Bool, true, false, not, Option, none, some, List, [], ◌∷◌, ltb,
  ◌==◌, if◌then◌else◌, take, drop, ◌&&◌, get_or,
}
use fantasy_iq.Nanopb.Error.{Error, end_of_stream, io_error, set_error}

-- A read callback. `is_buf_read` is the test `stream->callback == buf_read`.
pub record Reader (S : Type 0) : Type 0 where
  pub read : S → ℕ → Bool × List ℕ × S
  pub is_buf_read : Bool

pub record IStream (S : Type 0) : Type 0 where
  pub callback : Reader S
  pub state : S
  pub bytes_left : ℕ
  pub errmsg : Option Error

-- A C function on a stream that returns bool and stores a value on success.
abbrev pub Read : Type 0 → Type 0 → Type 0
Read S A = IStream S → Option A × IStream S

abbrev pub and_then :
    {S A B : Type 0} → Option A × IStream S → (A → Read S B) → Option B × IStream S
and_then (none, s) k = (none, s)
and_then (some a, s) k = k a s

-- `if (!f(stream, &a)) return false; ...`
infixl 5 ◌>>=◌
abbrev pub ◌>>=◌ : {S A B : Type 0} → Read S A → (A → Read S B) → Read S B
◌>>=◌ f k s = and_then (f s) k

abbrev pub return : {S A : Type 0} → A → Read S A
return a s = (some a, s)

-- PB_RETURN_ERROR
abbrev pub fail : {S A : Type 0} → Error → Read S A
fail e s = (none, record s { errmsg = set_error s.errmsg e })

abbrev pub after_callback :
    {S : Type 0} → ℕ → IStream S → Bool × List ℕ × S → Option (List ℕ) × IStream S
after_callback count s (true, bs, st) =
    (some bs, record s { state = st; bytes_left = s.bytes_left - count })
after_callback count s (false, bs, st) = fail io_error (record s { state = st })

-- The part of `pb_read` after the skipping of bytes.
unfoldable pub read_bytes : {S : Type 0} → ℕ → Read S (List ℕ)
read_bytes count s =
    if ltb s.bytes_left count
    then fail end_of_stream s
    else after_callback count s (s.callback.read s.state count)

-- `while (count > 16) { if (!pb_read(stream, tmp, 16)) return false; count -= 16; }` and the
-- `return pb_read(stream, tmp, count);` behind it. Each round takes 16, so `count` rounds suffice.
unfoldable pub skip_chunks : {S : Type 0} → ℕ → ℕ → Read S (List ℕ)
skip_chunks zero count s = read_bytes count s
skip_chunks (suc fuel) count s =
    let more = and_then (read_bytes 16 s) (λ bs. skip_chunks fuel (count - 16)) in
    if ltb 16 count then more else read_bytes count s

-- `pb_read(stream, NULL, count)` where `buf_is_null`; the bytes go to `buf` otherwise.
unfoldable pub pb_read : {S : Type 0} → Bool → ℕ → Read S (List ℕ)
unfolding read_bytes skip_chunks
pb_read buf_is_null count s =
    if buf_is_null && not s.callback.is_buf_read
    then skip_chunks count count s
    else read_bytes count s

-- A callback that accepts fills `buf`; a byte that it left alone would read as 0.
abbrev first_byte : {S : Type 0} → IStream S → Bool × List ℕ × S → Option ℕ × IStream S
first_byte s (true, bs, st) =
    (some (get_or bs 0 0), record s { state = st; bytes_left = s.bytes_left - 1 })
first_byte s (false, bs, st) = fail io_error (record s { state = st })

unfoldable pub pb_readbyte : {S : Type 0} → Read S ℕ
pb_readbyte s =
    if s.bytes_left == 0 then fail end_of_stream s else first_byte s (s.callback.read s.state 1)
