-- ===== src/Nanopb/Decoder/Outer.antt =====
-- That the sample message with a submessage and a list can be sent.
use fantasy_iq.Base.{ℕ, zero, suc, ◌<◌, true, length, ◌≡◌, refl, arith, inl, inr}
use fantasy_iq.Nanopb.Wire.{groups, little_endian}
use fantasy_iq.Nanopb.Iterator.{field_at, pb_field_iter_begin, pb_field_iter_next}
use fantasy_iq.Nanopb.Iterator.Walk.{walk}
use fantasy_iq.Nanopb.Iterator.Find.{wanted_at}
use fantasy_iq.Nanopb.Encode.Scalars.{wire_type_of}
use fantasy_iq.Nanopb.Machine.{load}
use fantasy_iq.Nanopb.Arrays.Packed.{entries_bytes, entry_address}
use fantasy_iq.Nanopb.Arrays.Encoding.{array_bytes}
use fantasy_iq.Nanopb.FieldEncoders.Values.{IsSized, scalar_bytes}
use fantasy_iq.Nanopb.Message.Encoding.{
  IsField, IsMessage, IsValue, stored, message_bytes, field_bytes, fields_bytes, stored_bytes,
  value_bytes,
}
use fantasy_iq.Nanopb.Decoder.Stored.{IsHeld}
use fantasy_iq.Nanopb.Decoder.Static.{item_address}
use fantasy_iq.Nanopb.Decoder.Extensions.{HasNoExtensions}
use fantasy_iq.Nanopb.Decoder.Sent.{IsSent}
use fantasy_iq.Nanopb.Decoder.Nested.{IsNested, IsTransferable}
use fantasy_iq.Nanopb.Decoder.Setup.{
  list, outer, machine, platform, machine-IsMessage, fields-IsTransferable, sent_bytes,
}

list-IsSized : IsSized machine list 4112
list-IsSized = record {
  width = λ h. inr (inr (inl refl));
  word = omega arith;
  array = λ h a n. absurd (omega arith);
}

list-IsHeld : IsHeld machine list 4112
list-IsHeld = record {
  sized = list-IsSized;
  static = refl;
  somewhere = omega arith;
  scalar = inl (omega arith);
  ended = λ e. absurd (omega arith);
}

-- The entry takes five bytes.
entry_bytes :
    length (entries_bytes (value_bytes machine (message_bytes machine 1) list) 4 1 4112) ≡ 5
unfolding entries_bytes value_bytes scalar_bytes load groups
entry_bytes = refl

entry-IsValue :
    (i : ℕ)
    → i < 1
    → IsValue machine (IsMessage machine 1) (message_bytes machine 1) list (entry_address 4 4112 i)
unfolding entry_address
entry-IsValue zero h = record { scalar = λ n. list-IsSized; message = λ e. absurd (omega arith) }
entry-IsValue (suc i) h = absurd (omega arith)

outer-IsField :
    (i : ℕ)
    → i < 2
    → IsField machine 2
        (IsMessage machine 1)
        (message_bytes machine 1)
        (field_at outer i)
        (walk outer 4096 i).p_data
unfolding walk pb_field_iter_begin pb_field_iter_next wire_type_of entry_address load
outer-IsField zero h = stored (record {
  tag = omega arith;
  kind = omega arith;
  allocation = inl refl;
  settled = λ e o a more. absurd (omega arith);
  required = λ e. omega arith;
  oneof = λ h₀ h₁ h₂. absurd (h₀ refl);
  value = λ e. record {
    scalar = λ n. absurd (n refl);
    message = λ n. (omega arith, rw sent_bytes (omega arith), machine-IsMessage);
  };
  array = λ e. absurd (omega arith);
  entries = λ e. absurd (omega arith);
})
outer-IsField (suc zero) h = stored (record {
  tag = omega arith;
  kind = omega arith;
  allocation = inl refl;
  settled = λ e o a more. absurd (omega arith);
  required = λ e. omega arith;
  oneof = λ h₀ h₁ h₂. absurd (h₂ refl);
  value = λ e. absurd (e refl);
  array = λ e. record {
    inside = inr (omega arith);
    total = rw entry_bytes (omega arith);
    four = λ e. absurd (omega arith);
    eight = λ e. absurd (omega arith);
  };
  entries = λ e. entry-IsValue;
})
outer-IsField (suc (suc i)) h = absurd (omega arith)

pub outer-IsMessage : IsMessage machine 2 2 4096
outer-IsMessage = (ground arith, outer-IsField)

outer-HasNoExtensions : HasNoExtensions outer
outer-HasNoExtensions zero h = refl
outer-HasNoExtensions (suc zero) h = refl
outer-HasNoExtensions (suc (suc i)) h = absurd (omega arith)

only_inner : (j : ℕ) → j < 2 → wanted_at outer 3 j ≡ true → j ≡ 0
only_inner zero h e = refl
only_inner (suc zero) h e = absurd (ground arith)
only_inner (suc (suc j)) h e = absurd (omega arith)

only_list : (j : ℕ) → j < 2 → wanted_at outer 4 j ≡ true → j ≡ 1
only_list zero h e = absurd (ground arith)
only_list (suc zero) h e = refl
only_list (suc (suc j)) h e = absurd (omega arith)

entry-IsNested :
    (i : ℕ)
    → i < 1
    → IsNested platform machine
        (IsTransferable platform machine 1)
        (message_bytes machine 1)
        list
        (entry_address 4 4112 i)
        (item_address 8208 4 i)
unfolding entry_address
entry-IsNested zero h = inl (omega arith, list-IsHeld)
entry-IsNested (suc i) h = absurd (omega arith)

outer-IsSent :
    (j : ℕ)
    → j < 2
    → IsSent machine
        (message_bytes machine 1)
        (IsNested platform machine (IsTransferable platform machine 1) (message_bytes machine 1))
        outer
        4096
        8192
        j
unfolding walk pb_field_iter_begin pb_field_iter_next wire_type_of load
outer-IsSent zero h = record {
  tag = omega arith;
  only = only_inner;
  static = refl;
  kind = omega arith;
  carried = λ single. inr (refl, omega arith, rw sent_bytes (omega arith), fields-IsTransferable);
  array = λ e. absurd (omega arith);
  rule = inl refl;
}
outer-IsSent (suc zero) h = record {
  tag = omega arith;
  only = only_list;
  static = refl;
  kind = omega arith;
  carried = λ single. absurd (single refl);
  array = λ e. record {
    single = omega arith;
    apart = omega arith;
    room = omega arith;
    short = omega arith;
    word = rw entry_bytes (omega arith);
    entries = entry-IsNested;
  };
  rule = inr (inr refl);
}
outer-IsSent (suc (suc i)) h = absurd (omega arith)

pub outer-IsTransferable : IsTransferable platform machine 2 2 4096 8192
outer-IsTransferable = (ground arith, outer-HasNoExtensions, omega arith, outer-IsSent)

-- A key and a length in front of those bytes; the list with a key, a length and an entry.
pub outer_bytes : length (message_bytes machine 2 2 4096) ≡ 19
unfolding message_bytes fields_bytes field_bytes stored_bytes value_bytes scalar_bytes walk
    pb_field_iter_begin pb_field_iter_next wire_type_of little_endian load groups array_bytes
    entries_bytes
outer_bytes = refl
