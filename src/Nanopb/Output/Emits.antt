-- ===== src/Nanopb/Output/Emits.antt =====
-- What it means that an encoding function writes exactly a list of bytes.
use fantasy_iq.Base.{
  ℕ, ◌+◌, ◌≤◌, ◌<◌, true, false, none, some, List, [], ◌++◌, length, length-append, ◌≡◌, arith, ltb,
  take_all, Bool-cases, inl, inr, ltb→lt, ltb→ge, Bool, refl,
}
use mathlib.Core.Path.{subst}
use fantasy_iq.Nanopb.Error.{stream_full}
use fantasy_iq.Nanopb.Output.{
  OStream, Encode, size_mod, Callback, ◌>>◌, and_then, pb_write, succeed,
}

-- Sinks that take every byte: `put` says how, and taking two pieces is taking their concatenation.
pub record Sink (S : Type 0) : Type 0 where
  pub put : S → List ℕ → S
  pub put_nil : (st : S) → put st [] ≡ st
  pub put_append : (st : S) (xs ys : List ℕ) → put st (xs ++ ys) ≡ put (put st xs) ys

abbrev pub accept : {S : Type 0} → (S → List ℕ → S) → Callback S
accept put st bs = (true, put st bs)

module _ {S : Type 0} where
  -- A stream that only counts, and whose count of `n` more bytes does not wrap. On all three kinds
  -- of stream no error has been noted.
  abbrev pub Counts : OStream S → ℕ → Type 0
  Counts s n = (s.callback ≡ none) × (s.bytes_written + n < size_mod) × (s.errmsg ≡ none)

  -- A stream with room for `n` more bytes.
  abbrev pub HasRoom : Sink S → OStream S → ℕ → Type 0
  HasRoom k s n =
      (s.callback ≡ some (accept k.put))
      × (s.bytes_written + n ≤ s.max_size)
      × (s.max_size < size_mod)
      × (s.errmsg ≡ none)

  -- A stream without room for `n` more bytes.
  abbrev pub IsFull : Sink S → OStream S → ℕ → Type 0
  IsFull k s n =
      (s.callback ≡ some (accept k.put))
      × (s.max_size < s.bytes_written + n)
      × (s.bytes_written ≤ s.max_size)
      × (s.max_size < size_mod)
      × (s.bytes_written + n < size_mod)
      × (s.errmsg ≡ none)

  abbrev pub counted : OStream S → List ℕ → OStream S
  counted s bs = record s { bytes_written = s.bytes_written + length bs }

  abbrev pub written : Sink S → OStream S → List ℕ → OStream S
  written k s bs = record s {
    state = k.put s.state bs;
    bytes_written = s.bytes_written + length bs;
  }

  -- `f` writes the bytes `bs`: a counting stream counts them, a stream with room gets them, and
  -- a stream without room fails and says so.
  pub record Emits (k : Sink S) (f : Encode S) (bs : List ℕ) : Type 0 where
    pub counts : (s : OStream S) → Counts s (length bs) → f s ≡ (true, counted s bs)
    pub writes : (s : OStream S) → HasRoom k s (length bs) → f s ≡ (true, written k s bs)
    pub refuses :
        (s : OStream S)
        → IsFull k s (length bs)
        → ((f s).0 ≡ false) × ((f s).1.errmsg ≡ some stream_full)

pub and_then-false :
    {S : Type 0} (r : Bool × OStream S) (g : Encode S) → r.0 ≡ false → and_then r g ≡ r
and_then-false (true, s) g e = cc
and_then-false (false, s) g e = refl

module _ {S : Type 0} (k : Sink S) where
  pub Emits-nil : Emits k succeed []
  Emits-nil = record {
    counts = λ s h. ground arith;
    writes = λ s h. ground (arith, k.put_nil s.state);
    refuses = λ s h. absurd (omega arith);
  }

  pub Emits-pb_write : (bs : List ℕ) (n : ℕ) → n ≡ length bs → Emits k (pb_write bs n) bs
  unfolding pb_write
  Emits-pb_write bs n e = record {
    counts = λ s h. ground (arith);
    writes = λ s h. ground (arith, take_all bs);
    refuses = λ s h. ground (arith);
  }

  pub Emits-append :
      {f g : Encode S} {xs ys : List ℕ} → Emits k f xs → Emits k g ys → Emits k (f >> g) (xs ++ ys)
  Emits-append {f} {g} {xs} {ys} p q = record {
    counts = λ s h. ground (arith, length-append xs ys, p.counts s, q.counts (counted s xs));
    writes = λ s h. ground (
      arith,
      length-append xs ys,
      k.put_append s.state xs ys,
      p.writes s,
      q.writes (written k s xs),
    );
    refuses = λ s h. elim (Bool-cases (ltb s.max_size (s.bytes_written + length xs))) [
      | inl over ↦
          let r =
            p.refuses s (h.0, ltb→lt _ _ over, h.2, h.3, omega (arith, length-append xs ys), h.5) in
          rw (and_then-false (f s) g r.0) r
      | inr fits ↦ rw (p.writes s (h.0, ltb→ge _ _ fits, h.3, h.5)) (
          q.refuses (written k s xs) (
            h.0,
            omega (arith, length-append xs ys),
            ltb→ge _ _ fits,
            h.3,
            omega (arith, length-append xs ys),
            h.5,
          ))
    ];
  }

  pub Emits-subst : {f : Encode S} {xs ys : List ℕ} → xs ≡ ys → Emits k f xs → Emits k f ys
  Emits-subst {f} e p = subst (λ bs. Emits k f bs) e p
