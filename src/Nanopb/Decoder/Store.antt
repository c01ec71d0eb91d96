-- ===== src/Nanopb/Decoder/Store.antt =====
-- What the message decoder changes: memory, the allocator's state and the stream.
use fantasy_iq.Base.{
  ℕ, zero, suc, Bool, true, false, Option, none, some, List, [], ◌∷◌, ◌==◌, if◌then◌else◌,
}
use fantasy_iq.Nanopb.Error.{Error, set_error}
use fantasy_iq.Nanopb.Field.{Field}
use fantasy_iq.Nanopb.Wire.{little_endian}
use fantasy_iq.Nanopb.Iterator.{add_address}
use fantasy_iq.Nanopb.Input.{IStream, Read}

abbrev pub Memory : Type 0
Memory = ℕ → ℕ

-- `heap` is whatever the allocator remembers.
pub record Store (H : Type 0) : Type 0 where
  pub memory : Memory
  pub heap : H

unfoldable pub write_byte : Memory → ℕ → ℕ → Memory
write_byte memory p b q = if q == p then b else memory q

-- Consecutive bytes; also memcpy.
unfoldable pub write_bytes : Memory → ℕ → List ℕ → Memory
write_bytes memory p [] = memory
write_bytes memory p (b ∷ bs) = write_bytes (write_byte memory p b) (add_address p 1) bs

-- An integer of `n` bytes.
abbrev pub write_integer : Memory → ℕ → ℕ → ℕ → Memory
write_integer memory n p v = write_bytes memory p (little_endian n v)

-- memset to 0.
unfoldable pub clear : Memory → ℕ → ℕ → Memory
clear memory p zero = memory
clear memory p (suc n) = clear (write_byte memory p 0) (add_address p 1) n

-- A C function that reads a stream, writes to memory and returns bool.
abbrev pub Outcome : Type 0 → Type 0 → Type 0
Outcome H S = Bool × (Store H × IStream S)

abbrev pub Decode : Type 0 → Type 0 → Type 0
Decode H S = Store H → IStream S → Outcome H S

abbrev pub with_memory : {H : Type 0} → Store H → Memory → Store H
with_memory st memory = record st { memory = memory }

module _ {H S : Type 0} where
  abbrev pub done : Decode H S
  done st s = (true, (st, s))

  -- PB_RETURN_ERROR
  abbrev pub fail : Error → Decode H S
  fail e st s = (false, (st, record s { errmsg = set_error s.errmsg e }))

  -- `if (!f(...)) return false; ...`
  abbrev pub and_then : Outcome H S → Decode H S → Outcome H S
  and_then (true, (st, s)) k = k st s
  and_then (false, (st, s)) k = (false, (st, s))

  infixl 5 ◌>>◌
  abbrev pub ◌>>◌ : Decode H S → Decode H S → Decode H S
  ◌>>◌ f g st s = and_then (f st s) g

  abbrev pub continue :
      {A : Type 0} → Store H → Option A × IStream S → (A → Decode H S) → Outcome H S
  continue st (none, s) k = (false, (st, s))
  continue st (some a, s) k = k a st s

  -- The same, where the first part gives a value and leaves memory alone.
  infixl 5 ◌>>=◌
  abbrev pub ◌>>=◌ : {A : Type 0} → Read S A → (A → Decode H S) → Decode H S
  ◌>>=◌ f k st s = continue st (f s) k

  -- A write to memory, which cannot fail.
  abbrev pub put : (Memory → Memory) → Decode H S
  put f st s = (true, (with_memory st (f st.memory), s))

-- What is not in pb_decode.c: the descriptor arrays by address, the allocator (`realloc` gives 0
-- for NULL), the application's functions by address, the address of the local variable
-- `fixed_count_size` in each activation of pb_decode_noinit, by its nesting depth, and what the
-- program does after a call through NULL or another undefined step, of which nothing is known.
pub record Platform (H S : Type 0) : Type 0 where
  pub descriptors : ℕ → List Field
  pub realloc : ℕ → ℕ → Store H → ℕ × Store H
  pub free : ℕ → Store H → Store H
  pub call_decode : ℕ → Field → ℕ → Decode H S
  pub call_decode_scalar : ℕ → Field → ℕ → Decode H (List ℕ)
  pub call_extension : ℕ → ℕ → ℕ → ℕ → Decode H S
  pub count_slot : ℕ → ℕ
  pub undefined : Decode H S
