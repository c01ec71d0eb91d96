-- ===== src/Nanopb/Decoder/SetupPlaced.antt =====
-- Where the fields of the sample structures lie.
use fantasy_iq.Base.{ℕ, zero, suc, ◌<◌, ◌≢◌, refl, arith, inl, inr}
use fantasy_iq.Nanopb.Iterator.{pb_field_iter_begin, pb_field_iter_next}
use fantasy_iq.Nanopb.Iterator.Walk.{walk}
use fantasy_iq.Nanopb.Decoder.Frame.{IsLaid}
use fantasy_iq.Nanopb.Decoder.Layout.{
  Apart, value_at, value_size, count_at, count_size, IsPlacedField, IsPlaced,
}
use fantasy_iq.Nanopb.Decoder.Setup.{
  number, word, list, fields, outer, platform, fields-IsDescriptor,
}

number-IsLaid : IsLaid number
number-IsLaid = record {
  static = refl;
  scalar = inr (inl refl);
  four = λ e. absurd (omega arith);
  eight = λ e. absurd (omega arith);
}

word-IsLaid : IsLaid word
word-IsLaid = record {
  static = refl;
  scalar = inr (inr (inr (inl refl)));
  four = λ e. refl;
  eight = λ e. absurd (omega arith);
}

fields-Apart :
    (j i : ℕ)
    → j < 2
    → i < 2
    → i ≢ j
    → Apart
        (value_at fields 8192 j)
        (value_size fields 8192 j)
        (value_at fields 8192 i)
        (value_size fields 8192 i)
      × Apart
          (count_at fields 8192 j)
          (count_size fields 8192 j)
          (count_at fields 8192 i)
          (count_size fields 8192 i)
      × Apart
          (value_at fields 8192 j)
          (value_size fields 8192 j)
          (count_at fields 8192 i)
          (count_size fields 8192 i)
unfolding walk pb_field_iter_begin pb_field_iter_next
fields-Apart zero zero hj hi n = absurd (n refl)
fields-Apart zero (suc zero) hj hi n = ground arith
fields-Apart zero (suc (suc i)) hj hi n = absurd (omega arith)
fields-Apart (suc zero) zero hj hi n = ground arith
fields-Apart (suc zero) (suc zero) hj hi n = absurd (n refl)
fields-Apart (suc zero) (suc (suc i)) hj hi n = absurd (omega arith)
fields-Apart (suc (suc j)) i hj hi n = absurd (omega arith)

each-IsPlacedField : (j : ℕ) → j < 2 → IsPlacedField (IsPlaced platform 0) fields 8192 12 j
unfolding walk pb_field_iter_begin pb_field_iter_next
each-IsPlacedField zero h = record {
  static = refl;
  alone = omega arith;
  laid = λ n. number-IsLaid;
  value_inside = (omega arith, omega arith);
  count_inside = (omega arith, omega arith);
  small = omega arith;
  own = ground arith;
  values = λ i hi n. (fields-Apart 0 i h hi n).0;
  counts = λ i hi n. (fields-Apart 0 i h hi n).1;
  crossed = λ i hi n. (fields-Apart 0 i h hi n).2;
  nested = λ e. absurd (omega arith);
}
each-IsPlacedField (suc zero) h = record {
  static = refl;
  alone = omega arith;
  laid = λ n. word-IsLaid;
  value_inside = (omega arith, omega arith);
  count_inside = (omega arith, omega arith);
  small = omega arith;
  own = ground arith;
  values = λ i hi n. (fields-Apart 1 i h hi n).0;
  counts = λ i hi n. (fields-Apart 1 i h hi n).1;
  crossed = λ i hi n. (fields-Apart 1 i h hi n).2;
  nested = λ e. absurd (omega arith);
}
each-IsPlacedField (suc (suc j)) h = absurd (omega arith)

pub fields-IsPlaced : IsPlaced platform 1 1 8192 12
fields-IsPlaced =
    (fields-IsDescriptor, omega arith, λ e less. (omega arith, ground arith), each-IsPlacedField)

list-IsLaid : IsLaid list
list-IsLaid = record {
  static = refl;
  scalar = inr (inl refl);
  four = λ e. absurd (omega arith);
  eight = λ e. absurd (omega arith);
}

outer-Apart :
    (j i : ℕ)
    → j < 2
    → i < 2
    → i ≢ j
    → Apart
        (value_at outer 8192 j)
        (value_size outer 8192 j)
        (value_at outer 8192 i)
        (value_size outer 8192 i)
      × Apart
          (count_at outer 8192 j)
          (count_size outer 8192 j)
          (count_at outer 8192 i)
          (count_size outer 8192 i)
      × Apart
          (value_at outer 8192 j)
          (value_size outer 8192 j)
          (count_at outer 8192 i)
          (count_size outer 8192 i)
unfolding walk pb_field_iter_begin pb_field_iter_next
outer-Apart zero zero hj hi n = absurd (n refl)
outer-Apart zero (suc zero) hj hi n = ground arith
outer-Apart zero (suc (suc i)) hj hi n = absurd (omega arith)
outer-Apart (suc zero) zero hj hi n = ground arith
outer-Apart (suc zero) (suc zero) hj hi n = absurd (n refl)
outer-Apart (suc zero) (suc (suc i)) hj hi n = absurd (omega arith)
outer-Apart (suc (suc j)) i hj hi n = absurd (omega arith)

outer-IsPlacedField : (j : ℕ) → j < 2 → IsPlacedField (IsPlaced platform 1) outer 8192 24 j
unfolding walk pb_field_iter_begin pb_field_iter_next
outer-IsPlacedField zero h = record {
  static = refl;
  alone = omega arith;
  laid = λ n. absurd (n refl);
  value_inside = (omega arith, omega arith);
  count_inside = (omega arith, omega arith);
  small = omega arith;
  own = ground arith;
  values = λ i hi n. (outer-Apart 0 i h hi n).0;
  counts = λ i hi n. (outer-Apart 0 i h hi n).1;
  crossed = λ i hi n. (outer-Apart 0 i h hi n).2;
  nested = λ e single. fields-IsPlaced;
}
outer-IsPlacedField (suc zero) h = record {
  static = refl;
  alone = omega arith;
  laid = λ n. list-IsLaid;
  value_inside = (omega arith, omega arith);
  count_inside = (omega arith, omega arith);
  small = omega arith;
  own = ground arith;
  values = λ i hi n. (outer-Apart 1 i h hi n).0;
  counts = λ i hi n. (outer-Apart 1 i h hi n).1;
  crossed = λ i hi n. (outer-Apart 1 i h hi n).2;
  nested = λ e. absurd (omega arith);
}
outer-IsPlacedField (suc (suc j)) h = absurd (omega arith)

pub outer-IsPlaced : IsPlaced platform 2 2 8192 24
outer-IsPlaced =
    (ground arith, omega arith, λ e less. (omega arith, ground arith), outer-IsPlacedField)
