-- ===== src/Mempool/Submit/Score.antt =====
-- Scoring of the transformed vectors in `submit_solution_inner`: the energy ceiling, the best vector,
-- the diverse selection and its floors (pallets/quantum-compute-mempool/src/lib.rs).
use quip_validator.Prelude.{
  ℕ, ◌-◌, ◌^◌, leb, Bool, true, false, if◌then◌else◌, List, [], ◌∷◌, ◌++◌, length, get_or, min, max,
  Option, none, some, Result, ok, err, ◌>>=◌, ◌>>◌, ensure,
}
use quip_validator.Prelude.Int.{ℤ, pos, ltb_ℤ}
use quip_validator.Quantum.Errors.{ValidationError, Fault, invalid, trapped}
use quip_validator.Quantum.Errors
use quip_validator.Quantum.Topology.{TopologyIndex}
use quip_validator.Quantum.Energy.{energy_of_solution_indexed}
use quip_validator.Quantum.Diversity.{calculate_diversity}
use quip_validator.Mempool.Types.{IsingParams, JobSolution}
use quip_validator.Mempool.Selection.{select_from_best}
use quip_validator.Mempool.State.{
  Config, Error, invalid_spin_values, solution_length_mismatch, invalid_topology,
  insufficient_energy, solution_not_improved, insufficient_solutions, insufficient_diversity, trap,
}

unfoldable pub map_validation_error : ValidationError → Error
map_validation_error (Errors.invalid_spin_value i v) = invalid_spin_values
map_validation_error (Errors.solution_length_mismatch e a) = solution_length_mismatch
map_validation_error _ = invalid_topology

unfoldable pub from_validation : {A : Type 0} → Result ValidationError A → Result Error A
unfolding map_validation_error
from_validation (ok a) = ok a
from_validation (err e) = err (map_validation_error e)

unfoldable pub from_fault : {A : Type 0} → Result Fault A → Result Error A
unfolding map_validation_error
from_fault (ok a) = ok a
from_fault (err (invalid e)) = err (map_validation_error e)
from_fault (err trapped) = err trap

-- The variables of the scoring loop.
pub record Scored : Type 0 where
  pub valid_solutions : List (List ℤ)
  pub best_energy : ℤ
  pub best_index : ℕ

-- `i64::MAX`
abbrev pub i64_max : ℤ
i64_max = pos (2 ^ 63 - 1)

abbrev pub above_ceiling : ℤ → Option ℤ → Bool
above_ceiling energy none = false
above_ceiling energy (some ceiling) = ltb_ℤ ceiling energy

-- One vector with its energy.
unfoldable pub tally : Option ℤ → List ℤ → ℤ → Scored → Scored
tally ceiling solution energy acc = if above_ceiling energy ceiling then acc else record {
  valid_solutions = acc.valid_solutions ++ solution ∷ [];
  best_energy = if ltb_ℤ energy acc.best_energy then energy else acc.best_energy;
  best_index = if ltb_ℤ energy acc.best_energy then length acc.valid_solutions else acc.best_index;
}

unfoldable pub score : IsingParams → TopologyIndex → List (List ℤ) → Scored → Result Error Scored
unfolding from_validation tally
score p t [] acc = ok acc
score p t (solution ∷ rest) acc =
    from_validation (energy_of_solution_indexed solution p.h_values p.edges p.j_values t)
    >>= λ energy. score p t rest (tally p.max_energy_milli solution energy acc)

abbrev pub none_scored : Scored
none_scored = record { valid_solutions = []; best_energy = i64_max; best_index = 0 }

abbrev pub is_improved : ℤ → Option JobSolution → Bool
is_improved energy none = true
is_improved energy (some accepted) = ltb_ℤ energy accepted.best_energy_milli

abbrev pub unwrap_or : Option ℕ → ℕ → ℕ
unwrap_or none d = d
unwrap_or (some n) d = n

-- The number of vectors to select of `n` valid ones.
unfoldable pub target_count : Option ℕ → ℕ → ℕ
target_count min_solutions n = min (max (unwrap_or min_solutions n) 1) n

abbrev pub floor_met : Option ℕ → ℕ → Bool
floor_met none n = true
floor_met (some least) n = leb least n

unfoldable pub pick : List (List ℤ) → List ℕ → List (List ℤ)
pick solutions [] = []
pick solutions (i ∷ is) = get_or solutions i [] ∷ pick solutions is

-- Whether the conversions to the bounded vectors that are stored succeed.
unfoldable pub fits_bounds : ℕ → List (List ℤ) → Bool
fits_bounds max_nodes [] = true
fits_bounds max_nodes (s ∷ ss) =
    if leb (length s) max_nodes then fits_bounds max_nodes ss else false

-- What is stored of an accepted submission.
pub record Evaluation : Type 0 where
  pub selected : List (List ℤ)
  pub best_energy : ℤ
  pub diversity : ℕ

unfoldable pub is_nonempty : List (List ℤ) → Bool
is_nonempty [] = false
is_nonempty (x ∷ xs) = true

-- The selection among the scored vectors and its floors.
unfoldable pub select_scored : Config → IsingParams → Scored → Result Error Evaluation
unfolding from_fault target_count pick fits_bounds
select_scored c p sc =
    let n : ℕ = length sc.valid_solutions in
    let target : ℕ = target_count p.min_solutions n in
    ensure (leb (max target 1) n) insufficient_solutions
    >> (from_fault (select_from_best sc.valid_solutions sc.best_index target) >>= λ indices.
        ensure (floor_met p.min_solutions (length (pick sc.valid_solutions indices)))
          insufficient_solutions
        >> (from_fault (calculate_diversity (pick sc.valid_solutions indices)) >>= λ diversity.
            ensure (floor_met p.min_diversity_milli diversity) insufficient_diversity
            >> (ensure (fits_bounds c.max_nodes (pick sc.valid_solutions indices)) trap
                >> (ensure (leb (length (pick sc.valid_solutions indices)) c.max_solutions) trap
                    >> ok (record {
                      selected = pick sc.valid_solutions indices;
                      best_energy = sc.best_energy;
                      diversity = diversity;
                    })))))

unfoldable pub evaluate :
    Config
    → IsingParams
    → TopologyIndex
    → Option JobSolution
    → List (List ℤ)
    → Result Error Evaluation
unfolding score select_scored is_nonempty
evaluate c p t previous transformed = score p t transformed none_scored >>= λ sc.
    ensure (is_nonempty sc.valid_solutions) insufficient_energy
    >> (ensure (is_improved sc.best_energy previous) solution_not_improved >> select_scored c p sc)
