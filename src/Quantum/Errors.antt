-- ===== src/Quantum/Errors.antt =====
-- crates/quantum-validation/src/errors.rs and fixed.rs.
use quip_validator.Prelude.{ℕ, ◌+◌, ◌-◌, ◌/◌, ◌%◌, ◌^◌, Bool, ◌&&◌, leb}
use quip_validator.Prelude.Int.{ℤ, pos_part, neg_part}

pub data ValidationError : Type 0 where
  empty_nodes : ValidationError
  empty_field_values : ValidationError
  empty_allowed_values : ValidationError
  invalid_encoded_value : ℕ → ValidationError
  encoding_too_wide : ℕ → ValidationError
  packed_solution_length_mismatch : ℕ → ℕ → ValidationError
  solution_length_mismatch : ℕ → ℕ → ValidationError
  field_length_mismatch : ℕ → ℕ → ValidationError
  edge_weight_length_mismatch : ℕ → ℕ → ValidationError
  invalid_spin_value : ℕ → ℤ → ValidationError
  duplicate_node : ℕ → ValidationError
  unknown_node_in_edge : ℕ → ValidationError
  arithmetic_overflow : ValidationError

-- A run that ends in an error value, or in a panic of the code (a division by zero, an `expect`).
pub data Fault : Type 0 where
  invalid : ValidationError → Fault
  trapped : Fault

abbrev pub milli_scale : ℕ
milli_scale = 1000

-- The sum wraps around as in a release build. The caller sees to it that the denominator is not zero.
unfoldable pub round_div_u64 : ℕ → ℕ → ℕ
round_div_u64 numerator denominator = (numerator + denominator / 2) % 2 ^ 64 / denominator

-- The values of an `i64`.
abbrev pub fits_i64 : ℤ → Bool
fits_i64 a = leb (pos_part a) (2 ^ 63 - 1) && leb (neg_part a) (2 ^ 63)
