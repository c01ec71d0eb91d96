-- ===== src/Nanopb/Decoder/Setup.antt =====
-- A structure with a required and an optional number inside another one, which also has a list, and
-- their descriptors.
use fantasy_iq.Base.{
  ℕ, zero, suc, ◌+◌, ◌-◌, ◌*◌, ◌%◌, ◌^◌, ◌<◌, true, List, [], ◌∷◌, length, ltb, ◌&&◌, ◌==◌,
  if◌then◌else◌, ◌≡◌, refl, arith, inl, inr,
}
use fantasy_iq.Nanopb.Field.{Field}
use fantasy_iq.Nanopb.Wire.{groups, little_endian}
use fantasy_iq.Nanopb.Output.{succeed}
use fantasy_iq.Nanopb.Output.Buffer.{Buffer}
use fantasy_iq.Nanopb.Iterator.{field_at, pb_field_iter_begin, pb_field_iter_next}
use fantasy_iq.Nanopb.Iterator.Walk.{walk, IsDescriptor}
use fantasy_iq.Nanopb.Iterator.Find.{wanted_at}
use fantasy_iq.Nanopb.Encode.Scalars.{wire_type_of}
use fantasy_iq.Nanopb.Machine.{Machine, load}
use fantasy_iq.Nanopb.FieldEncoders.Values.{IsSized, scalar_bytes}
use fantasy_iq.Nanopb.Message.Encoding.{
  IsField, IsMessage, stored, message_bytes, field_bytes, fields_bytes, stored_bytes, value_bytes,
}
use fantasy_iq.Nanopb.Decoder.Store.{Store, Platform, done}
use fantasy_iq.Nanopb.Decoder.Stored.{IsHeld}
use fantasy_iq.Nanopb.Decoder.Extensions.{HasNoExtensions}
use fantasy_iq.Nanopb.Decoder.Sent.{IsSent}
use fantasy_iq.Nanopb.Decoder.Nested.{IsNested, IsTransferable}

-- struct { uint32_t number; bool has_word; uint32_t word; }
abbrev pub number : Field
number = record {
  tag = 1;
  type_code = 0x01;
  data_offset = 0;
  size_offset = 0;
  data_size = 4;
  array_size = 0;
  ptr = 0;
}

abbrev pub word : Field
word = record {
  tag = 2;
  type_code = 0x13;
  data_offset = 4;
  size_offset = 2 ^ 32 - 4;
  data_size = 4;
  array_size = 0;
  ptr = 0;
}

abbrev pub fields : List Field
fields = number ∷ word ∷ []

-- The required submessage.
abbrev pub inner : Field
inner = record {
  tag = 3;
  type_code = 0x07;
  data_offset = 0;
  size_offset = 0;
  data_size = 12;
  array_size = 0;
  ptr = 1;
}

-- Behind it, pb_size_t list_count; uint32_t list[2];
abbrev pub list : Field
list = record {
  tag = 4;
  type_code = 0x21;
  data_offset = 4;
  size_offset = 2 ^ 32 - 4;
  data_size = 4;
  array_size = 2;
  ptr = 0;
}

abbrev pub outer : List Field
outer = inner ∷ list ∷ []

-- The descriptors at the addresses 1 and 2.
abbrev pub descriptors_at : ℕ → List Field
descriptors_at d = if d == 1 then fields else if d == 2 then outer else []

-- The structure at 4096 holds the low bytes of its addresses, so that its has_ flag is set; the list
-- has one entry.
abbrev pub machine : Machine Buffer
machine = record {
  memory = λ q. if q == 4108 then 1 else if ltb 4108 q && ltb q 4112 then 0 else q % 256;
  descriptors = descriptors_at;
  call_encode = λ funcs field arg. succeed;
  call_extension = λ function extension. succeed;
  undefined = succeed;
}

-- Nothing is allocated. The count slots lie behind the structures.
abbrev pub platform : Platform (Unit {0}) (List ℕ)
platform = record {
  descriptors = descriptors_at;
  realloc = λ ptr size st. (0, st);
  free = λ ptr st. st;
  call_decode = λ funcs field arg. done;
  call_decode_scalar = λ funcs field arg. done;
  call_extension = λ function extension tag wire_type. done;
  count_slot = λ depth. 65536 + 4 * depth;
  undefined = done;
}

abbrev pub blank : Store (Unit {0})
blank = record { memory = λ q. 0; heap = tt }

pub fields-IsDescriptor : IsDescriptor fields
fields-IsDescriptor = ground arith

pub fields-HasNoExtensions : HasNoExtensions fields
fields-HasNoExtensions zero h = refl
fields-HasNoExtensions (suc zero) h = refl
fields-HasNoExtensions (suc (suc i)) h = absurd (omega arith)

pub number-IsSized : IsSized machine number 4096
number-IsSized = record {
  width = λ h. inr (inr (inl refl));
  word = omega arith;
  array = λ h a n. absurd (omega arith);
}

pub word-IsSized : IsSized machine word 4104
word-IsSized = record {
  width = λ h. inr (inr (inl refl));
  word = omega arith;
  array = λ h a n. absurd (omega arith);
}

pub fields-IsField :
    (i : ℕ)
    → i < 2
    → IsField machine 1
        (IsMessage machine 0)
        (message_bytes machine 0)
        (field_at fields i)
        (walk fields 4096 i).p_data
unfolding walk pb_field_iter_begin pb_field_iter_next wire_type_of
fields-IsField zero h = stored (record {
  tag = omega arith;
  kind = omega arith;
  allocation = inl refl;
  settled = λ e o a more. absurd (omega arith);
  required = λ e. omega arith;
  oneof = λ h₀ h₁ h₂. absurd (h₀ refl);
  value = λ e. record { scalar = λ n. number-IsSized; message = λ n. absurd (omega arith) };
  array = λ e. absurd (omega arith);
  entries = λ e. absurd (omega arith);
})
fields-IsField (suc zero) h = stored (record {
  tag = omega arith;
  kind = omega arith;
  allocation = inl refl;
  settled = λ e o a more. absurd (omega arith);
  required = λ e. omega arith;
  oneof = λ h₀ h₁ h₂. absurd (h₁ refl);
  value = λ e. record { scalar = λ n. word-IsSized; message = λ n. absurd (omega arith) };
  array = λ e. absurd (omega arith);
  entries = λ e. absurd (omega arith);
})
fields-IsField (suc (suc i)) h = absurd (omega arith)

pub machine-IsMessage : IsMessage machine 1 1 4096
machine-IsMessage = (fields-IsDescriptor, fields-IsField)

pub number-IsHeld : IsHeld machine number 4096
number-IsHeld = record {
  sized = number-IsSized;
  static = refl;
  somewhere = omega arith;
  scalar = inl (omega arith);
  ended = λ e. absurd (omega arith);
}

pub word-IsHeld : IsHeld machine word 4104
word-IsHeld = record {
  sized = word-IsSized;
  static = refl;
  somewhere = omega arith;
  scalar = inl (omega arith);
  ended = λ e. absurd (omega arith);
}

pub only_number : (j : ℕ) → j < 2 → wanted_at fields 1 j ≡ true → j ≡ 0
only_number zero h e = refl
only_number (suc zero) h e = absurd (ground arith)
only_number (suc (suc j)) h e = absurd (omega arith)

pub only_word : (j : ℕ) → j < 2 → wanted_at fields 2 j ≡ true → j ≡ 1
only_word zero h e = absurd (ground arith)
only_word (suc zero) h e = refl
only_word (suc (suc j)) h e = absurd (omega arith)

pub each-IsSent :
    (j : ℕ)
    → j < 2
    → IsSent machine
        (message_bytes machine 0)
        (IsNested platform machine (IsTransferable platform machine 0) (message_bytes machine 0))
        fields
        4096
        8192
        j
unfolding walk pb_field_iter_begin pb_field_iter_next wire_type_of
each-IsSent zero h = record {
  tag = omega arith;
  only = only_number;
  static = refl;
  kind = omega arith;
  carried = λ single. inl (omega arith, number-IsHeld);
  array = λ e. absurd (omega arith);
  rule = inl refl;
}
each-IsSent (suc zero) h = record {
  tag = omega arith;
  only = only_word;
  static = refl;
  kind = omega arith;
  carried = λ single. inl (omega arith, word-IsHeld);
  array = λ e. absurd (omega arith);
  rule = inr (inl (refl, omega arith, omega arith));
}
each-IsSent (suc (suc i)) h = absurd (omega arith)

pub fields-IsTransferable : IsTransferable platform machine 1 1 4096 8192
fields-IsTransferable = (fields-IsDescriptor, fields-HasNoExtensions, omega arith, each-IsSent)

-- Two keys, the number and the word.
pub sent_bytes : length (message_bytes machine 1 1 4096) ≡ 10
unfolding message_bytes fields_bytes field_bytes stored_bytes value_bytes scalar_bytes walk
    pb_field_iter_begin pb_field_iter_next wire_type_of little_endian load groups
sent_bytes = refl
