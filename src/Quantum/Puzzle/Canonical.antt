-- ===== src/Quantum/Puzzle/Canonical.antt =====
-- The canonical bytes of a specification (crates/quantum-validation/src/puzzle_spec.rs).
pub mod Order
use quip_validator.Prelude.{
  ℕ, ◌/◌, ◌%◌, ◌^◌, Bool, true, ◌&&◌, if◌then◌else◌, List, [], ◌∷◌, ◌++◌, sort_by,
}
use quip_validator.Prelude.Int.{ℤ, leb_ℤ}
use quip_validator.Quantum.Puzzle.{AllowedValueSpec, set, integer_range, continuous_range, as_u32}

-- `to_be_bytes`
abbrev pub to_be_bytes : ℤ → List ℕ
to_be_bytes value =
    as_u32 value / 2 ^ 24 % 256
    ∷ as_u32 value / 2 ^ 16 % 256
    ∷ as_u32 value / 2 ^ 8 % 256
    ∷ as_u32 value % 256
    ∷ []

abbrev pub bytes_of : List ℤ → List ℕ
bytes_of [] = []
bytes_of (v ∷ vs) = to_be_bytes v ++ bytes_of vs

-- `windows(2).all(|pair| pair[0] <= pair[1])`
unfoldable pub is_ascending : List ℤ → Bool
is_ascending [] = true
is_ascending (a ∷ []) = true
is_ascending (a ∷ (b ∷ vs)) = leb_ℤ a b && is_ascending (b ∷ vs)

unfoldable pub canonical_bytes : AllowedValueSpec → List ℕ
unfolding is_ascending
canonical_bytes (set values) =
    0 ∷ (if is_ascending values then bytes_of values else bytes_of (sort_by leb_ℤ values))
canonical_bytes (integer_range min max) = 1 ∷ to_be_bytes min ++ to_be_bytes max
canonical_bytes (continuous_range min max) = 2 ∷ to_be_bytes min ++ to_be_bytes max
