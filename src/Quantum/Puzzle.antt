-- ===== src/Quantum/Puzzle.antt =====
-- Specifications of allowed values (crates/quantum-validation/src/puzzle_spec.rs), and the encoding of
-- one value (packed.rs). An `i32` is an integer, a `u32` a natural number; `as` is written out.
pub mod RoundTrip
pub mod Canonical
use quip_validator.Prelude.{
  ℕ, zero, suc, ◌+◌, ◌-◌, ◌*◌, ◌/◌, ◌%◌, ◌^◌, ◌==◌, ltb, leb, Bool, true, false, not, ◌&&◌, ◌||◌,
  if◌then◌else◌, List, [], ◌∷◌, length, get_elem?, get_or, Option, none, some, Result, ok, err,
  ◌>>=◌, ◌>>◌, ok_or, ensure,
}
use quip_validator.Prelude.Int.{
  ℤ, pos, negsuc, sub_ℕ, pos_part, neg_part, ◌+ℤ◌, ◌*ℤ◌, neg_ℤ, ltb_ℤ, ◌==ℤ◌,
}
use quip_validator.Quantum.Errors.{
  ValidationError, empty_allowed_values, invalid_encoded_value, encoding_too_wide,
  arithmetic_overflow, milli_scale,
}

abbrev pub max_indexed_bits : ℕ
max_indexed_bits = 8

pub data AllowedValueSpec : Type 0 where
  set : List ℤ → AllowedValueSpec
  integer_range : ℤ → ℤ → AllowedValueSpec
  continuous_range : ℤ → ℤ → AllowedValueSpec

-- `as u64`, `as u32`, and `as i32` of a `u32`.
abbrev pub as_u64 : ℤ → ℕ
as_u64 (pos n) = n
as_u64 (negsuc n) = 2 ^ 64 - (n + 1)

abbrev pub as_u32 : ℤ → ℕ
as_u32 (pos n) = n
as_u32 (negsuc n) = 2 ^ 32 - (n + 1)

abbrev pub as_i32 : ℕ → ℤ
as_i32 raw = if ltb raw (2 ^ 31) then pos raw else negsuc (2 ^ 32 - raw - 1)

abbrev pub fits_i32 : ℤ → Bool
fits_i32 a = leb (pos_part a) (2 ^ 31 - 1) && leb (neg_part a) (2 ^ 31)

-- `leading_zeros` of a number of `width` bits.
unfoldable pub leading_zeros : ℕ → ℕ → ℕ
leading_zeros zero n = 0
leading_zeros (suc width) n =
    let rest = leading_zeros width n in if ltb n (2 ^ width) then suc rest else 0

unfoldable pub bits_for_count : ℕ → ℕ
bits_for_count count = if leb count 1 then 1 else 64 - leading_zeros 64 (count - 1)

unfoldable pub check_indexed_bits : ℕ → Result ValidationError (Unit {0})
check_indexed_bits bits = ensure (leb bits max_indexed_bits) (encoding_too_wide bits)

-- `(max - min + 1) as u64`
abbrev pub span : ℤ → ℤ → ℕ
span min max = as_u64 (max +ℤ neg_ℤ min +ℤ pos 1)

abbrev pub scaled : ℤ → ℤ
scaled a = a *ℤ pos milli_scale

unfoldable pub bits_per_value : AllowedValueSpec → Result ValidationError ℕ
unfolding check_indexed_bits ◌+ℤ◌ neg_ℤ ◌*ℤ◌
bits_per_value (set values) =
    ensure (not (length values == 0)) empty_allowed_values
    >> (check_indexed_bits (bits_for_count (length values)) >> ok (bits_for_count (length values)))
bits_per_value (integer_range min max) =
    ensure (not (ltb_ℤ max min)) empty_allowed_values
    >> (check_indexed_bits (bits_for_count (span min max))
        >> (ensure
              (leb (neg_part (scaled min)) (2 ^ 31) && leb (pos_part (scaled max)) (2 ^ 31 - 1))
              arithmetic_overflow
            >> ok (bits_for_count (span min max))))
bits_per_value (continuous_range min max) =
    ensure (not (ltb_ℤ max min)) empty_allowed_values >> ok 32

-- `try_into` an `i32`.
abbrev pub try_i32 : ℤ → Result ValidationError ℤ
try_i32 a = ensure (fits_i32 a) arithmetic_overflow >> ok a

unfoldable pub decode_value : AllowedValueSpec → ℕ → Result ValidationError ℤ
unfolding ◌+ℤ◌ neg_ℤ ◌*ℤ◌
decode_value (set values) raw = ok_or (get_elem? values raw) (invalid_encoded_value raw)
decode_value (integer_range min max) raw =
    ensure (ltb raw (span min max)) (invalid_encoded_value raw) >> try_i32 (scaled (min +ℤ pos raw))
decode_value (continuous_range min max) raw =
    ensure (not (ltb_ℤ (as_i32 raw) min || ltb_ℤ max (as_i32 raw))) (invalid_encoded_value raw)
    >> ok (as_i32 raw)

-- `sample` with the RNG's next word.
unfoldable pub sample : AllowedValueSpec → ℕ → Result ValidationError ℤ
unfolding decode_value ◌+ℤ◌ neg_ℤ
sample (set values) word =
    ensure (not (length values == 0)) empty_allowed_values
    >> ok (get_or values (word % length values) (pos 0))
sample (integer_range min max) word =
    ensure (not (ltb_ℤ max min)) empty_allowed_values
    >> decode_value (integer_range min max) (word % span min max)
sample (continuous_range min max) word =
    ensure (not (ltb_ℤ max min)) empty_allowed_values >> ok (min +ℤ pos (word % span min max))

-- `iter().position(|&v| v == value)`
unfoldable pub find_value : ℤ → List ℤ → Option ℕ
find_value value [] = none
find_value value (v ∷ vs) =
    let rest = find_value value vs in
    if v ==ℤ value then some 0 else elim rest [ none ↦ none | some i ↦ some (suc i) ]

-- `value % 1000` and `value / 1000`, which rounds towards zero.
abbrev pub rem_milli : ℤ → ℕ
rem_milli (pos n) = n % milli_scale
rem_milli (negsuc n) = suc n % milli_scale

abbrev pub div_milli : ℤ → ℤ
div_milli (pos n) = pos (n / milli_scale)
div_milli (negsuc n) = sub_ℕ 0 (suc n / milli_scale)

unfoldable pub encode_value : ℤ → AllowedValueSpec → Result ValidationError ℕ
unfolding find_value ◌+ℤ◌ neg_ℤ
encode_value value (set values) =
    ok_or (find_value value values) (invalid_encoded_value (as_u32 value))
encode_value value (integer_range min max) =
    ensure (rem_milli value == 0) (invalid_encoded_value (as_u32 value))
    >> (ensure (not (ltb_ℤ (div_milli value) min || ltb_ℤ max (div_milli value)))
          (invalid_encoded_value (as_u32 value))
        >> ok (as_u32 (div_milli value +ℤ neg_ℤ min)))
encode_value value (continuous_range min max) =
    ensure (not (ltb_ℤ value min || ltb_ℤ max value)) (invalid_encoded_value (as_u32 value))
    >> ok (as_u32 value)
