-- ===== src/Mempool/Submit.antt =====
-- Submissions (pallets/quantum-compute-mempool/src/lib.rs, `submit_solution_inner` and its callers).
pub mod Score
pub mod Accept
use quip_validator.Prelude.{
  ℕ, ◌+◌, ◌==◌, leb, ltb, ◌&&◌, ◌||◌, Bool, true, false, not, if◌then◌else◌, List, [], ◌∷◌, length,
  contains, Option, none, some, is_some, Result, ok, err, ◌>>=◌, ◌>>◌, ensure, ok_or, put, sat_add,
  u64_max,
}
use quip_validator.Prelude.Int.{ℤ}
use quip_validator.Quantum.Topology.{TopologyIndex, new_index}
use quip_validator.Mempool.Types.{
  MinerType, miner_type_code, JobMode, open_mode, bid, OrderStatus, JobSpec, JobOrder, JobSolution,
  SolverInfo, WinnerPayee, is_valid, chain_id,
}
use quip_validator.Mempool.Lifecycle.{is_expired}
use quip_validator.Mempool.State.{
  Config, QuantumVm, TransformOutcome, State, Outcome, Error, solver_not_registered,
  no_solutions_submitted, order_not_found, job_spec_not_found, order_not_open, invalid_payee,
  payee_required, payee_chain_mismatch, not_eligible_solver, too_many_solutions,
}
use quip_validator.Mempool.Finalise.{is_opened}
use Score.{Evaluation, evaluate, from_validation}
use Accept.{accept}

-- A list of vectors is empty.
abbrev pub is_nil : List (List ℤ) → Bool
is_nil [] = true
is_nil (x ∷ xs) = false

unfoldable pub has_type : MinerType → List MinerType → Bool
has_type t [] = false
has_type t (x ∷ xs) = miner_type_code x == miner_type_code t || has_type t xs

abbrev pub account_match : ℕ → Option (List ℕ) → Bool
account_match solver none = false
account_match solver (some allowed) = contains solver allowed

abbrev pub type_match : MinerType → Option (List MinerType) → Bool
type_match t none = false
type_match t (some allowed) = has_type t allowed

unfoldable pub solver_is_eligible : ℕ → MinerType → JobMode → Bool
unfolding has_type
solver_is_eligible solver t open_mode = true
solver_is_eligible solver t (bid miners miner_types) =
    account_match solver miners || type_match t miner_types

-- The two payee checks.
abbrev pub payee_valid : Option WinnerPayee → Bool
payee_valid none = true
payee_valid (some p) = is_valid p

abbrev pub payee_matches : Option ℕ → Option WinnerPayee → Result Error (Unit {0})
payee_matches none payee = ok tt
payee_matches (some chain) none = err payee_required
payee_matches (some chain) (some p) = ensure (chain_id p == chain) payee_chain_mismatch

-- What a submission that may run was found to be about.
pub record Admission : Type 0 where
  pub solver_info : SolverInfo
  pub order : JobOrder
  pub spec : JobSpec
  pub topology : TopologyIndex

-- What a submission reports whether or not it is accepted.
pub record SubmitRun (B : Type 0) : Type 0 where
  pub vm_steps : ℕ
  pub has_program : Bool
  pub result : Outcome B

module _ (c : Config) {B : Type 0} where
  unfoldable pub accepts_solutions : JobOrder → State B → Bool
  accepts_solutions order s =
      is_opened order.status
      && not (
          is_expired c.last_block s.block_number order.created_at order.first_solution_at
            order.timing)

  -- The checks before the transform runs.
  unfoldable pub admit :
      ℕ → ℕ → List (List ℤ) → Option WinnerPayee → State B → Result Error Admission
  unfolding accepts_solutions solver_is_eligible
  admit solver order_id solutions payee s =
      ok_or (s.solvers solver) solver_not_registered >>= λ info.
      ensure (not (is_nil solutions)) no_solutions_submitted
      >> (ok_or (s.job_orders order_id) order_not_found >>= λ order.
          ok_or (s.job_specs order.spec_id) job_spec_not_found >>= λ spec.
          ensure (accepts_solutions order s) order_not_open
          >> (ensure (payee_valid payee) invalid_payee
              >> (payee_matches (s.order_payee_requirements order_id) payee
                  >> (ensure (solver_is_eligible solver info.solver_type order.mode)
                        not_eligible_solver
                      >> (from_validation
                            (new_index order.ising_params.nodes order.ising_params.edges)
                          >>= λ topology. ok (record {
                            solver_info = info;
                            order = order;
                            spec = spec;
                            topology = topology;
                          }))))))

  -- From the transformed vectors on.
  unfoldable pub settle_submission :
      ℕ → ℕ → Option WinnerPayee → Admission → List (List ℤ) → State B → Outcome B
  settle_submission solver order_id payee a transformed s =
      ensure (not (is_nil transformed)) no_solutions_submitted
      >> (ensure (leb (length transformed) c.max_solutions) too_many_solutions
          >> (evaluate c a.order.ising_params a.topology (s.order_solutions order_id solver)
                transformed
              >>= λ e. accept c solver order_id payee a.solver_info a.order e s))

  unfoldable pub submit_solution_inner :
      QuantumVm → ℕ → ℕ → List (List ℤ) → Option WinnerPayee → State B → SubmitRun B
  unfolding admit settle_submission
  submit_solution_inner vm solver order_id solutions payee s =
      elim (admit solver order_id solutions payee s) [
        | err e ↦ record { vm_steps = 0; has_program = false; result = err e }
        | ok a ↦
            let outcome : TransformOutcome =
              vm.transform_solutions a.order.spec_id a.spec.validation_program
                a.spec.transform_program solver solutions in
            record {
              vm_steps = outcome.steps_used;
              has_program = is_some a.spec.transform_program;
              result = outcome.result >>= λ transformed.
                  settle_submission solver order_id payee a transformed s;
            }
      ]

  unfoldable pub submit_solution : QuantumVm → ℕ → ℕ → List (List ℤ) → State B → SubmitRun B
  unfolding submit_solution_inner
  submit_solution vm solver order_id solutions s =
      submit_solution_inner vm solver order_id solutions none s

  unfoldable pub submit_solution_with_payee :
      QuantumVm → ℕ → ℕ → List (List ℤ) → WinnerPayee → State B → SubmitRun B
  unfolding submit_solution_inner
  submit_solution_with_payee vm solver order_id solutions payee s =
      submit_solution_inner vm solver order_id solutions (some payee) s
