-- ===== src/Nanopb/Decoder/Required.antt =====
-- The bitmap of required fields in pb_decode_noinit (nanopb/pb_decode.c).
use fantasy_iq.Base.{
  ℕ, zero, suc, ◌+◌, ◌-◌, ◌/◌, ◌^◌, bit_and, bit_or, Bool, true, not, ◌&&◌, ◌||◌, List, length,
  get_or, set, ltb, ◌==◌, if◌then◌else◌,
}
use fantasy_iq.Nanopb.Field.{htype}
use fantasy_iq.Nanopb.Field.Htype
use fantasy_iq.Nanopb.Iterator.{Iter, current, pb_field_iter_next}

-- PB_MAX_REQUIRED_FIELDS
abbrev pub max_required_fields : ℕ
max_required_fields = 64

abbrev pub all_bits : ℕ
all_bits = 2 ^ 32 - 1

-- `fields_seen[index >> 5] |= (uint32_t)1 << (index & 31)`
unfoldable pub mark_seen : ℕ → List ℕ → List ℕ
mark_seen index seen =
    let word = index / 2 ^ 5 in set seen word (bit_or (get_or seen word 0) (2 ^ bit_and index 31))

-- `for (i = 0; i < n; i++) if (fields_seen[i] != allbits)`, from word `i` on.
unfoldable pub whole_words : ℕ → ℕ → List ℕ → Bool
whole_words zero i seen = true
whole_words (suc n) i seen = get_or seen i 0 == all_bits && whole_words n (i + 1) seen

-- The whole words and the remaining bits.
unfoldable pub all_seen : ℕ → List ℕ → Bool
unfolding whole_words
all_seen count seen =
    let words = count / 2 ^ 5 in
    let bits = bit_and count 31 in
    let rest = bits == 0 || get_or seen words 0 == all_bits / 2 ^ (32 - bits) in
    whole_words words 0 seen && rest

-- `do { ... } while (pb_field_iter_next(&iter));`: the count and the type at the last entry, and
-- the iterator behind. A descriptor has as many rounds as entries at most.
unfoldable pub seek_end : ℕ → Iter → ℕ × ℕ × Iter
seek_end zero iter = (iter.required_field_index, htype (current iter), iter)
seek_end (suc n) iter =
    let rest = seek_end n (pb_field_iter_next iter).1 in
    if (pb_field_iter_next iter).0
    then rest
    else (iter.required_field_index, htype (current iter), (pb_field_iter_next iter).1)

abbrev pub count_at_end : ℕ × ℕ × Iter → ℕ
count_at_end (count, last, iter) =
    let fixed =
      if last == Htype.required && not ((current iter).tag == 0) then count + 1 else count in
    if ltb max_required_fields fixed then max_required_fields else fixed

-- `req_field_count` after the fixup and the limit.
unfoldable pub required_field_count : Iter → ℕ
unfolding seek_end
required_field_count iter = count_at_end (seek_end (length iter.start) iter)
