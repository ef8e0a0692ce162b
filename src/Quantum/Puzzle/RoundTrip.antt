-- ===== src/Quantum/Puzzle/RoundTrip.antt =====
-- A value that is encoded is decoded to itself, and fits its bits
-- (crates/quantum-validation/src/puzzle_spec.rs and packed.rs).
use quip_validator.Prelude.{
  ℕ, zero, suc, ◌+◌, ◌-◌, ◌^◌, ◌≤◌, ◌<◌, ◌==◌, ltb, leb, ◌≡◌, refl, ap, arith, Bool, true, false,
  not, ◌&&◌, ◌||◌, List, [], ◌∷◌, length, get_elem?, some, ok, ◌>>◌, >>-eq-ok, >>-ok_left,
  ensure-eq-ok, ok_or-eq-ok, ensure, u64_max, ◌⊎◌, inl, inr, Bool-cases, ltb→lt, ==→eq,
  Option-cases,
}
use quip_validator.Prelude.Int.{
  ℤ, pos, negsuc, pos_part, neg_part, ◌+ℤ◌, ◌*ℤ◌, neg_ℤ, ltb_ℤ, ◌==ℤ◌, eq_of_parts,
}
use quip_validator.Quantum.Errors.{empty_allowed_values, invalid_encoded_value, arithmetic_overflow}
use quip_validator.Quantum.Puzzle.{
  AllowedValueSpec, set, integer_range, continuous_range, leading_zeros, bits_for_count,
  check_indexed_bits, span, scaled, bits_per_value, decode_value, find_value, encode_value,
  fits_i32, as_u32, as_u64, as_i32, rem_milli, div_milli,
}
use mathlib.Core.Path.{subst}

leading_zeros_le : (width n : ℕ) → leading_zeros width n ≤ width
unfolding leading_zeros
leading_zeros_le zero n = omega arith
leading_zeros_le (suc width) n = let rest = leading_zeros_le width n in ground (arith, rest)

-- A number needs the digits that are not leading zeros.
fits_digits : (width n : ℕ) → n < 2 ^ width → n < 2 ^ (width - leading_zeros width n)
unfolding leading_zeros
fits_digits zero n h = h
fits_digits (suc width) n h = elim (Bool-cases (ltb n (2 ^ width))) [
  | inl e ↦
      rw e (subst (λ d. n < 2 ^ d) (omega arith) (fits_digits width n (ltb→lt n (2 ^ width) e)))
  | inr e ↦ rw e (subst (λ d. n < 2 ^ d) (omega arith) h)
]

bits_for_count_fit : (count : ℕ) → count ≤ u64_max → count - 1 < 2 ^ bits_for_count count
unfolding bits_for_count
bits_for_count_fit count h = split (Bool-cases (leb count 1))
  where
    split : ((leb count 1) ≡ true) ⊎ ((leb count 1) ≡ false) → count - 1 < 2 ^ bits_for_count count
    split (inl e) = rw e (ground (arith, e))
    split (inr e) = rw e (fits_digits 64 (count - 1) (omega (arith, h)))

find_value_gives :
    (v : ℤ) (vs : List ℤ) {i : ℕ}
    → find_value v vs ≡ some i
    → (get_elem? vs i ≡ some v) × (i < length vs)
unfolding find_value
find_value_gives v [] h = absurd (cc)
find_value_gives v (x ∷ xs) {i} h = elim (Bool-cases (x ==ℤ v)) [
  | inl same ↦
      let first : i ≡ 0 = ground (arith, h, same) in
      let is : x ≡ v = eq_of_parts x v (==→eq _ _ same) in rw first (ap some is, omega arith)
  | inr other ↦ elim (Option-cases (find_value v xs)) [
    | inl missing ↦ absurd (ground (arith, h, other, missing))
    | inr (j, found) ↦
        let later : i ≡ suc j = ground (arith, h, other, found) in
        let rest = find_value_gives v xs found in rw later (rest.0, omega (arith, rest.1))
  ]
]

whole_times : (v : ℤ) → (rem_milli v == 0) ≡ true → scaled (div_milli v) ≡ v
unfolding ◌*ℤ◌
whole_times (pos n) h = ground (arith, h)
whole_times (negsuc n) h = ground (arith, h)

offset_back : (a min : ℤ) → ltb_ℤ a min ≡ false → min +ℤ pos (as_u32 (a +ℤ neg_ℤ min)) ≡ a
unfolding ◌+ℤ◌ neg_ℤ
offset_back a min h = ground (arith, h)

offset_in_span :
    (a min max : ℤ)
    → ltb_ℤ a min ≡ false
    → ltb_ℤ max a ≡ false
    → as_u32 (a +ℤ neg_ℤ min) < span min max
unfolding ◌+ℤ◌ neg_ℤ
offset_in_span a min max low high = ground (arith, low, high)

bits_as_i32 : (a : ℤ) → fits_i32 a ≡ true → as_i32 (as_u32 a) ≡ a
bits_as_i32 (pos n) h = ground (arith, h)
bits_as_i32 (negsuc n) h = ground (arith, h)

as_u32_fits : (a : ℤ) → fits_i32 a ≡ true → as_u32 a < 2 ^ 32
as_u32_fits (pos n) h = ground (arith, h)
as_u32_fits (negsuc n) h = omega arith

within_split : (low high : Bool) → not (low || high) ≡ true → (low ≡ false) × (high ≡ false)
within_split low high h = ground (arith, h)

lt→ltb : (a b : ℕ) → a < b → ltb a b ≡ true
lt→ltb a b h = ground (arith, h)

pos_part-sum : (a b : ℤ) → pos_part (a +ℤ b) ≤ pos_part a + pos_part b
unfolding ◌+ℤ◌
pos_part-sum a b = ground arith

pos_part-neg : (a : ℤ) → pos_part (neg_ℤ a) ≤ neg_part a
unfolding neg_ℤ
pos_part-neg a = ground arith

i32_parts : (a : ℤ) → fits_i32 a ≡ true → (pos_part a ≤ 2 ^ 31) × (neg_part a ≤ 2 ^ 31)
i32_parts (pos n) h = ground (arith, h)
i32_parts (negsuc n) h = ground (arith, h)

as_u64_fits : (a : ℤ) → pos_part a ≤ u64_max → as_u64 a ≤ u64_max
as_u64_fits (pos n) h = h
as_u64_fits (negsuc n) h = omega arith

span_fits : (min max : ℤ) → (fits_i32 min ≡ true) × (fits_i32 max ≡ true) → span min max ≤ u64_max
span_fits min max (fits_min, fits_max) =
    let inner = pos_part-sum max (neg_ℤ min) in
    let outer = pos_part-sum (max +ℤ neg_ℤ min) (pos 1) in
    as_u64_fits (max +ℤ neg_ℤ min +ℤ pos 1) (
      omega (
        arith,
        inner,
        outer,
        pos_part-neg min,
        (i32_parts min fits_min).1,
        (i32_parts max fits_max).0,
      ))

bits_of_range :
    (min max : ℤ) (bits : ℕ)
    → (ensure
          (leb (neg_part (scaled min)) (2 ^ 31) && leb (pos_part (scaled max)) (2 ^ 31 - 1))
          arithmetic_overflow
        >> ok (bits_for_count (span min max)))
      ≡ ok bits
    → bits_for_count (span min max) ≡ bits
bits_of_range min max bits h =
    let last =
      >>-eq-ok
        (ensure (leb (neg_part (scaled min)) (2 ^ 31) && leb (pos_part (scaled max)) (2 ^ 31 - 1))
          arithmetic_overflow)
        _ h in
    cc

-- What the encoding relies on: a set that fits a word, bounds and a value of 32 bits.
abbrev pub IsStored : AllowedValueSpec → Type 0
IsStored (set values) = length values ≤ u64_max
IsStored (integer_range min max) = (fits_i32 min ≡ true) × (fits_i32 max ≡ true)
IsStored (continuous_range min max) = (fits_i32 min ≡ true) × (fits_i32 max ≡ true)

-- The encoding and its decoding, with the bits of the specification.
abbrev pub RoundTrips : AllowedValueSpec → ℤ → ℕ → ℕ → Type 0
RoundTrips spec v bits raw = (decode_value spec raw ≡ ok v) × (raw < 2 ^ bits)

set_round_trip :
    (values : List ℤ) (v : ℤ) (bits raw : ℕ)
    → length values ≤ u64_max
    → bits_per_value (set values) ≡ ok bits
    → encode_value v (set values) ≡ ok raw
    → RoundTrips (set values) v bits raw
unfolding bits_per_value encode_value decode_value
set_round_trip values v bits raw stored b h =
    let found = find_value_gives v values (ok_or-eq-ok (find_value v values) _ h) in
    let few = >>-eq-ok (ensure (not (length values == 0)) empty_allowed_values) _ b in
    let last = >>-eq-ok (check_indexed_bits (bits_for_count (length values))) _ few in
    let is : bits_for_count (length values) ≡ bits = cc in
    let room = bits_for_count_fit (length values) stored in
    (rw found.0 refl, rw (← is) (omega (arith, found.1, room)))

integer_round_trip :
    (min max v : ℤ) (bits raw : ℕ)
    → (fits_i32 min ≡ true) × (fits_i32 max ≡ true)
    → fits_i32 v ≡ true
    → bits_per_value (integer_range min max) ≡ ok bits
    → encode_value v (integer_range min max) ≡ ok raw
    → RoundTrips (integer_range min max) v bits raw
unfolding bits_per_value encode_value decode_value
integer_round_trip min max v bits raw stored value b h =
    let whole : ℤ = div_milli v in
    let divides =
      ensure-eq-ok (rem_milli v == 0) _
        (>>-ok_left (ensure (rem_milli v == 0) (invalid_encoded_value (as_u32 v))) _ h) in
    let checked = >>-eq-ok (ensure (rem_milli v == 0) (invalid_encoded_value (as_u32 v))) _ h in
    let inside = ensure-eq-ok (not (ltb_ℤ whole min || ltb_ℤ max whole)) _ (
      >>-ok_left
        (ensure (not (ltb_ℤ whole min || ltb_ℤ max whole)) (invalid_encoded_value (as_u32 v))) _
        checked) in
    let encoded =
      >>-eq-ok
        (ensure (not (ltb_ℤ whole min || ltb_ℤ max whole)) (invalid_encoded_value (as_u32 v))) _
        checked in
    let raw_is : as_u32 (whole +ℤ neg_ℤ min) ≡ raw = cc in
    let (low, high) = within_split (ltb_ℤ whole min) (ltb_ℤ max whole) inside in
    let below = offset_in_span whole min max low high in
    let nonempty = >>-eq-ok (ensure (not (ltb_ℤ max min)) empty_allowed_values) _ b in
    let indexed = >>-eq-ok (check_indexed_bits (bits_for_count (span min max))) _ nonempty in
    let bits_is = bits_of_range min max bits indexed in
    let room = bits_for_count_fit (span min max) (span_fits min max stored) in
    let in_span : ltb raw (span min max) ≡ true = rw (← raw_is) (lt→ltb _ _ below) in
    let back : scaled (min +ℤ pos raw) ≡ v =
      rw (← raw_is, offset_back whole min low, whole_times v divides) refl in
    (rw (in_span, back, value) refl, rw (← bits_is, ← raw_is) (omega (arith, below, room)))

continuous_round_trip :
    (min max v : ℤ) (bits raw : ℕ)
    → fits_i32 v ≡ true
    → bits_per_value (continuous_range min max) ≡ ok bits
    → encode_value v (continuous_range min max) ≡ ok raw
    → RoundTrips (continuous_range min max) v bits raw
unfolding bits_per_value encode_value decode_value
continuous_round_trip min max v bits raw value b h =
    let inside =
      >>-ok_left (ensure (not (ltb_ℤ v min || ltb_ℤ max v)) (invalid_encoded_value (as_u32 v))) _
        h in
    let encoded =
      >>-eq-ok (ensure (not (ltb_ℤ v min || ltb_ℤ max v)) (invalid_encoded_value (as_u32 v))) _ h in
    let raw_is : as_u32 v ≡ raw = cc in
    let last = >>-eq-ok (ensure (not (ltb_ℤ max min)) empty_allowed_values) _ b in
    let bits_is : 32 ≡ bits = cc in
    let back = bits_as_i32 v value in
    let fits = as_u32_fits v value in
    (
      rw (← raw_is, back, ensure-eq-ok (not (ltb_ℤ v min || ltb_ℤ max v)) _ inside) refl,
      rw (← bits_is, ← raw_is) fits,
    )

-- A value of 32 bits that a stored specification with a bit width encodes is decoded to itself, and its
-- code fits the width.
pub encode_value_round_trip :
    (spec : AllowedValueSpec) (v : ℤ) {bits raw : ℕ}
    → IsStored spec
    → fits_i32 v ≡ true
    → bits_per_value spec ≡ ok bits
    → encode_value v spec ≡ ok raw
    → (decode_value spec raw ≡ ok v) × (raw < 2 ^ bits)
encode_value_round_trip (set values) v {bits} {raw} stored value b h =
    set_round_trip values v bits raw stored b h
encode_value_round_trip (integer_range min max) v {bits} {raw} stored value b h =
    integer_round_trip min max v bits raw stored value b h
encode_value_round_trip (continuous_range min max) v {bits} {raw} stored value b h =
    continuous_round_trip min max v bits raw value b h

-- A specification of a set or of an integer range.
abbrev pub IsIndexed : AllowedValueSpec → Type 0
IsIndexed (set values) = Unit
IsIndexed (integer_range min max) = Unit
IsIndexed (continuous_range min max) = ⊥

positive_bits : (count e : ℕ) → 2 ≤ count → count - 1 < 2 ^ e → 0 < e
positive_bits count zero many fits = absurd (omega (arith, many, fits))
positive_bits count (suc e) many fits = omega arith

bits_for_count_positive : (count : ℕ) → count ≤ u64_max → 0 < bits_for_count count
unfolding bits_for_count
bits_for_count_positive count h =
    let fits = bits_for_count_fit count h in
    elim (Bool-cases (leb count 1)) [
      | inl e ↦ rw e (omega arith)
      | inr e ↦ positive_bits count (bits_for_count count) (ground (arith, e)) fits
    ]

checked_bits : (bits : ℕ) → check_indexed_bits bits ≡ ok tt → bits ≤ 8
unfolding check_indexed_bits
checked_bits bits h = ground (arith, h)

-- Such a specification takes one to eight bits.
pub indexed_bits :
    (spec : AllowedValueSpec) (bits : ℕ)
    → IsIndexed spec
    → IsStored spec
    → bits_per_value spec ≡ ok bits
    → (0 < bits) × (bits ≤ 8)
unfolding bits_per_value
indexed_bits (set values) bits indexed stored b =
    let few = >>-eq-ok (ensure (not (length values == 0)) empty_allowed_values) _ b in
    let checked = >>-ok_left (check_indexed_bits (bits_for_count (length values))) _ few in
    let last = >>-eq-ok (check_indexed_bits (bits_for_count (length values))) _ few in
    let is : bits_for_count (length values) ≡ bits = cc in
    (rw (← is) (bits_for_count_positive (length values) stored), rw (← is) (checked_bits _ checked))
indexed_bits (integer_range min max) bits indexed stored b =
    let nonempty = >>-eq-ok (ensure (not (ltb_ℤ max min)) empty_allowed_values) _ b in
    let checked = >>-ok_left (check_indexed_bits (bits_for_count (span min max))) _ nonempty in
    let is =
      bits_of_range min max bits
        (>>-eq-ok (check_indexed_bits (bits_for_count (span min max))) _ nonempty) in
    (
      rw (← is) (bits_for_count_positive (span min max) (span_fits min max stored)),
      rw (← is) (checked_bits _ checked),
    )
indexed_bits (continuous_range min max) bits indexed stored b = absurd indexed
