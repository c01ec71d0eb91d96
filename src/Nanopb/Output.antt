-- ===== src/Nanopb/Output.antt =====
-- pb_ostream_t of nanopb/pb_encode.h and its functions in nanopb/pb_encode.c.
-- A stream's user state has any type. A callback gets the bytes and returns whether it took them.
pub mod Emits
pub mod Buffer
use fantasy_iq.Base.{
  ℕ, ◌+◌, ◌%◌, ◌^◌, Bool, true, false, Option, none, some, List, [], ltb, if◌then◌else◌, take,
}
use fantasy_iq.Nanopb.Error.{Error, stream_full, io_error, set_error}

-- size_t is a 64-bit word.
abbrev pub size_mod : ℕ
size_mod = 2 ^ 64

abbrev pub Callback : Type 0 → Type 0
Callback S = S → List ℕ → Bool × S

pub record OStream (S : Type 0) : Type 0 where
  pub callback : Option (Callback S)
  pub state : S
  pub max_size : ℕ
  pub bytes_written : ℕ
  pub errmsg : Option Error

-- A C function on a stream that returns bool.
abbrev pub Encode : Type 0 → Type 0
Encode S = OStream S → Bool × OStream S

abbrev pub and_then : {S : Type 0} → Bool × OStream S → Encode S → Bool × OStream S
and_then (true, s) k = k s
and_then (false, s) k = (false, s)

-- `if (!f(stream)) return false; return g(stream);`
infixl 5 ◌>>◌
abbrev pub ◌>>◌ : {S : Type 0} → Encode S → Encode S → Encode S
◌>>◌ f g s = and_then (f s) g

abbrev pub succeed : {S : Type 0} → Encode S
succeed s = (true, s)

-- PB_RETURN_ERROR
abbrev pub fail : {S : Type 0} → Error → Encode S
fail e s = (false, record s { errmsg = set_error s.errmsg e })

-- `stream->bytes_written += count; return true;`
abbrev pub count_bytes : {S : Type 0} → ℕ → Encode S
count_bytes count s = (true, record s { bytes_written = (s.bytes_written + count) % size_mod })

abbrev pub after_callback : {S : Type 0} → ℕ → OStream S → Bool × S → Bool × OStream S
after_callback count s (true, st) = count_bytes count (record s { state = st })
after_callback count s (false, st) = fail io_error (record s { state = st })

-- A callback-less stream only counts; `buf` is then not looked at.
unfoldable pub pb_write : {S : Type 0} → List ℕ → ℕ → Encode S
pb_write buf count s = elim s.callback [
  | none ↦ count_bytes count s
  | some write ↦
      if ltb s.max_size ((s.bytes_written + count) % size_mod)
      then fail stream_full s
      else after_callback count s (write s.state (take count buf))
]

-- PB_OSTREAM_SIZING: {0,0,0,0,0}. The state of such a stream is never read.
abbrev pub sizing : {S : Type 0} → S → OStream S
sizing st = record { callback = none; state = st; max_size = 0; bytes_written = 0; errmsg = none }
