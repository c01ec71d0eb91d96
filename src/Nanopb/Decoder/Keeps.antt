-- ===== src/Nanopb/Decoder/Keeps.antt =====
-- Decoding functions that leave some bytes of memory alone.
use fantasy_iq.Base.{
  ℕ, ◌+◌, ◌^◌, ◌≤◌, Bool, true, false, Option, none, some, List, length, if◌then◌else◌, ◌≡◌, ◌≢◌,
  ◌∙◌, refl, arith, length-take, take,
}
use fantasy_iq.Nanopb.Error.{Error}
use fantasy_iq.Nanopb.Input.{IStream, Read, pb_read}
use fantasy_iq.Nanopb.Decoder.Store.{
  Memory, Store, Decode, Outcome, write_byte, write_bytes, put, fail, done, and_then, continue,
  ◌>>◌, ◌>>=◌,
}
use fantasy_iq.Nanopb.Decoder.Memory.{Outside, write_bytes-Outside}
use fantasy_iq.Nanopb.Decoder.Values.{terminated, read_into}

-- Whether it succeeds or fails, `f` leaves the bytes at the addresses of `Q` alone.
abbrev pub Keeps : {H S : Type 0} → (ℕ → Type 0) → Decode H S → Type 0
Keeps {H} {S} Q f =
    (st : Store H) (s : IStream S) (q : ℕ) → Q q → (f st s).1.0.memory q ≡ st.memory q

module _ {H S : Type 0} (Q : ℕ → Type 0) where
  pub Keeps-fail : (e : Error) → Keeps {H = H} {S = S} Q (fail e)
  Keeps-fail e st s q out = refl

  pub Keeps-done : Keeps {H = H} {S = S} Q done
  Keeps-done st s q out = refl

  -- Bytes written elsewhere.
  pub Keeps-write :
      (at : ℕ) (bs : Memory → List ℕ) (n : ℕ)
      → ((m : Memory) → length (bs m) ≤ n)
      → at + n ≤ 2 ^ 64
      → ((q : ℕ) → Q q → Outside at n q)
      → Keeps {H = H} {S = S} Q (put (λ m. write_bytes m at (bs m)))
  Keeps-write at bs n hi word apart st s q out =
      let h = hi st.memory in
      let o = apart q out in
      write_bytes-Outside (bs st.memory) st.memory at q (omega arith) (ground arith)

  pub Keeps-then : (f g : Decode H S) → Keeps Q f → Keeps Q g → Keeps Q (f >> g)
  Keeps-then f g hf hg st s q out = go (f st s) (hf st s q out)
    where
      go :
          (o : Outcome H S)
          → o.1.0.memory q ≡ st.memory q
          → (and_then o g).1.0.memory q ≡ st.memory q
      go (true, (st', s')) h = hg st' s' q out ∙ h
      go (false, (st', s')) h = h

  pub Keeps-bind :
      {A : Type 0} (f : Read S A) (g : A → Decode H S)
      → ((a : A) → Keeps Q (g a))
      → Keeps Q (f >>= g)
  Keeps-bind {A} f g hg st s q out = go (f s)
    where
      go : (o : Option A × IStream S) → (continue st o g).1.0.memory q ≡ st.memory q
      go (none, s') = refl
      go (some a, s') = hg a st s' q out

  pub Keeps-if :
      (b : Bool) (f g : Decode H S)
      → (b ≡ true → Keeps Q f)
      → (b ≡ false → Keeps Q g)
      → Keeps Q (if b then f else g)
  Keeps-if true f g hf hg = hf refl
  Keeps-if false f g hf hg = hg refl

  -- A terminator written elsewhere.
  pub Keeps-terminated :
      (p : ℕ) (f : Decode H S)
      → Keeps Q f
      → ((q : ℕ) → Q q → q ≢ p)
      → Keeps Q (λ st s. terminated p (f st s))
  unfolding write_byte
  Keeps-terminated p f hf apart st s q out =
      let h = hf st s q out in let o = apart q out in ground arith

  pub Keeps-read_into :
      (at count : ℕ)
      → at + count ≤ 2 ^ 64
      → ((q : ℕ) → Q q → Outside at count q)
      → Keeps {H = H} {S = S} Q (read_into at count)
  unfolding read_into
  Keeps-read_into at count word apart =
      Keeps-bind (pb_read false count) (λ bs. put (λ m. write_bytes m at (take count bs)))
        (λ bs.
          Keeps-write at (λ m. take count bs) count (λ m. omega (arith, length-take count bs)) word
            apart)
