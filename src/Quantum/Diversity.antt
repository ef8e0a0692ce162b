-- ===== src/Quantum/Diversity.antt =====
-- Symmetric Hamming distance and diversity (crates/quantum-validation/src/diversity.rs). The counters
-- count spins and pairs of vectors held in memory, and are plain numbers; the products of
-- `calculate_diversity` are checked as in the code.
pub mod Distance
pub mod Average
use quip_validator.Prelude.{
  ℕ, zero, suc, ◌+◌, ◌*◌, ◌%◌, ◌^◌, ◌≤◌, ◌==◌, leb, ltb, ◌≡◌, refl, arith, Bool, true, false,
  if◌then◌else◌, not, List, [], ◌∷◌, length, min, Result, ok, err, ◌>>=◌, ◌>>◌, ensure, u64_max,
}
use quip_validator.Prelude.Int.{ℤ, pos, neg_ℤ, ◌==ℤ◌}
use quip_validator.Quantum.Errors.{
  ValidationError, solution_length_mismatch, arithmetic_overflow, Fault, invalid, trapped,
  milli_scale, round_div_u64,
}
use quip_validator.Quantum.Spins.{ensure_valid_spins, validate_solution_set}

-- The two counters of the loop: positions that differ, and positions that differ from the flip.
unfoldable pub direct : List ℤ → List ℤ → ℕ
direct [] b = 0
direct (x ∷ a) [] = 0
direct (x ∷ a) (y ∷ b) = (if x ==ℤ y then 0 else 1) + direct a b

unfoldable pub inverted : List ℤ → List ℤ → ℕ
inverted [] b = 0
inverted (x ∷ a) [] = 0
inverted (x ∷ a) (y ∷ b) = (if x ==ℤ neg_ℤ y then 0 else 1) + inverted a b

unfoldable pub symmetric_hamming_validated : List ℤ → List ℤ → ℕ
symmetric_hamming_validated a b = min (direct a b) (inverted a b)

unfoldable pub symmetric_hamming : List ℤ → List ℤ → Result ValidationError ℕ
symmetric_hamming a b =
    ensure (length a == length b) (solution_length_mismatch (length a) (length b))
    >> (ensure_valid_spins a >> (ensure_valid_spins b >> ok (symmetric_hamming_validated a b)))

-- The walk that names the first fault of a set that fails the quick check.
unfoldable pub first_fault : ℕ → List (List ℤ) → Result ValidationError (Unit {0})
first_fault expected_len [] = ok tt
first_fault expected_len (s ∷ ss) =
    ensure (length s == expected_len) (solution_length_mismatch expected_len (length s))
    >> (ensure_valid_spins s >> first_fault expected_len ss)

-- Called with one solution at least; the length of the first is the expected one.
unfoldable pub ensure_valid_solution_inputs : List ℤ → List (List ℤ) → Result ValidationError ℕ
ensure_valid_solution_inputs first rest =
    if validate_solution_set (length first) (first ∷ rest)
    then ok (length first)
    else (first_fault (length first) (first ∷ rest) >> ok (length first))

unfoldable pub distances_to : List ℤ → List (List ℤ) → ℕ
distances_to a [] = 0
distances_to a (b ∷ bs) = symmetric_hamming_validated a b + distances_to a bs

-- The sum over the pairs i < j, and the number of those pairs.
unfoldable pub total_distance : List (List ℤ) → ℕ
total_distance [] = 0
total_distance (a ∷ as') = distances_to a as' + total_distance as'

unfoldable pub pair_count : List (List ℤ) → ℕ
pair_count [] = 0
pair_count (a ∷ as') = length as' + pair_count as'

abbrev pub lift : {A : Type 0} → Result ValidationError A → Result Fault A
lift (ok a) = ok a
lift (err e) = err (invalid e)

-- The quotient of the two checked products. A denominator of zero, from solutions of no spins, is a
-- division by zero in the code, and so a trap.
unfoldable pub average : ℕ → ℕ → ℕ → Result Fault ℕ
average total pairs expected_len =
    ensure (leb (total * milli_scale) u64_max) (invalid arithmetic_overflow)
    >> (ensure (leb (pairs * expected_len) u64_max) (invalid arithmetic_overflow)
        >> (ensure (not (pairs * expected_len == 0)) trapped
            >> ok (round_div_u64 (total * milli_scale) (pairs * expected_len) % 2 ^ 32)))

unfoldable pub calculate_diversity : List (List ℤ) → Result Fault ℕ
calculate_diversity [] = ok 0
calculate_diversity (a ∷ []) = ok 0
calculate_diversity (a ∷ b ∷ rest) =
    lift (ensure_valid_solution_inputs a (b ∷ rest)) >>= λ expected_len.
    average (total_distance (a ∷ b ∷ rest)) (pair_count (a ∷ b ∷ rest)) expected_len
