-- ===== src/Mempool/State.antt =====
-- The storage, errors, events and environment of the mempool pallet
-- (pallets/quantum-compute-mempool/src/lib.rs and the trait of src/xqvm.rs).
use quip_validator.Prelude.{
  ℕ, Bool, List, [], ◌∷◌, ◌++◌, Option, none, some, Result, put, contains, if◌then◌else◌,
}
use quip_validator.Prelude.Int.{ℤ}
use quip_validator.Mempool.Types.{
  Formulation, MinerType, JobSpec, JobOrder, JobSolution, SolverInfo, RankedSolver, FrontRunner,
  WinnerSummary, StoredResult, WinnerPayee,
}

-- The pallet's errors. `currency` is an error of the balances pallet, `trap` a panic of the code.
pub data Error : Type 0 where
  solver_already_registered solver_not_registered job_spec_already_exists job_spec_not_found : Error
  order_not_found order_not_open not_eligible_solver invalid_spin_values : Error
  solution_length_mismatch insufficient_energy insufficient_diversity : Error
  insufficient_solutions no_solutions_submitted reward_too_low too_many_solutions : Error
  order_limit_reached invalid_delivery_mode invalid_topology invalid_reward_resolution : Error
  empty_bid_criteria deadline_too_long block_wait_too_long order_not_expired not_proposer : Error
  not_winner already_claimed no_solutions_accepted result_not_found result_ttl_not_elapsed : Error
  invalid_diversity_config solution_not_improved reward_reserve_missing invalid_payee_chain : Error
  payee_required invalid_payee payee_chain_mismatch vm_program_not_found vm_bad_bytecode : Error
  vm_verification_failed vm_output_type vm_output_length vm_output_spin vm_execution_failed : Error
  vm_step_limit_exceeded vm_memory_limit_exceeded currency trap : Error

pub data Event : Type 0 where
  solver_registered : ℕ → MinerType → Event
  solver_deregistered : ℕ → Event
  job_spec_registered : ℕ → ℕ → Event
  job_proposed : ℕ → ℕ → ℕ → ℕ → ℕ → ℕ → Event
  solution_accepted : ℕ → ℕ → ℤ → ℕ → Event
  first_solution_received : ℕ → ℕ → ℕ → Event
  block_wait_started : ℕ → ℕ → ℕ → Event
  front_runner_changed : ℕ → ℕ → ℤ → Event
  order_expired : ℕ → Event
  reward_claimed : ℕ → ℕ → ℕ → Event
  reward_reclaimed : ℕ → ℕ → ℕ → Event
  order_closed : ℕ → Bool → Event
  result_purged : ℕ → Event
  result_ready : ℕ → List ℕ → List WinnerSummary → Event
  payee_requirement_set : ℕ → ℕ → Event
  solution_payee_set : ℕ → ℕ → Option WinnerPayee → Event

-- The constants that the runtime sets, the largest block number, the hash of a spec's tuple, and the
-- order in which the storage hands out the keys of a map.
pub record Config : Type 0 where
  pub max_nodes : ℕ
  pub max_solutions : ℕ
  pub max_orders_per_proposer : ℕ
  pub max_deadline_blocks : ℕ
  pub max_block_wait : ℕ
  pub min_reward : ℕ
  pub result_ttl_blocks : ℕ
  pub last_block : ℕ
  pub spec_hash : List ℕ → Formulation → Option ℕ → Option ℕ → ℕ
  pub iteration : List ℕ → List ℕ

-- `ReservableCurrency`, over the balances `B`: `reserve`, `unreserve` with what was missing, and
-- `transfer`. `none` is an error of that pallet.
pub record Currency (B : Type 0) : Type 0 where
  pub reserve : ℕ → ℕ → B → Option B
  pub unreserve : ℕ → ℕ → B → ℕ × B
  pub transfer : ℕ → ℕ → ℕ → B → Option B

pub record TransformOutcome : Type 0 where
  pub result : Result Error (List (List ℤ))
  pub steps_used : ℕ

-- The trait `QuantumVm`; programs are named by their hashes.
pub record QuantumVm : Type 0 where
  pub validate_programs : Option ℕ → Option ℕ → Result Error (Unit {0})
  pub transform_solutions : ℕ → Option ℕ → Option ℕ → ℕ → List (List ℤ) → TransformOutcome
  pub validate_result : ℕ → Option ℕ → Option ℕ → List WinnerSummary → Result Error (Unit {0})

-- The storage. `proposer_orders` has no entry where the code deletes the key. The events of a block
-- stand oldest first; `block_number` is that of the block that runs.
pub record State (B : Type 0) : Type 0 where
  pub job_specs : ℕ → Option JobSpec
  pub job_orders : ℕ → Option JobOrder
  pub next_order_id : ℕ
  pub open_orders : List ℕ
  pub orders_expiring_at : ℕ → List ℕ
  pub next_expiry_bucket : ℕ
  pub order_solutions : ℕ → ℕ → Option JobSolution
  pub order_payee_requirements : ℕ → Option ℕ
  pub order_payees : ℕ → ℕ → Option WinnerPayee
  pub order_front_runner : ℕ → Option FrontRunner
  pub order_top_solvers : ℕ → List RankedSolver
  pub solvers : ℕ → Option SolverInfo
  pub proposer_orders : ℕ → Option (List ℕ)
  pub order_results : ℕ → Option StoredResult
  pub events : List Event
  pub block_number : ℕ
  pub bank : B

abbrev pub Outcome : Type 0 → Type 0
Outcome B = Result Error (State B)

-- A key set: `insert(k, ())`
abbrev pub insert_key : ℕ → List ℕ → List ℕ
insert_key k ks = if contains k ks then ks else k ∷ ks

-- Two keys.
abbrev pub put₂ {ℓ} : {A : Type ℓ} → (ℕ → ℕ → A) → ℕ → ℕ → A → ℕ → ℕ → A
put₂ f j k v = put f j (put (f j) k v)

-- A value query with an empty default.
abbrev pub or_empty {ℓ} : {A : Type ℓ} → Option (List A) → List A
or_empty none = []
or_empty (some xs) = xs

module _ {B : Type 0} where
  abbrev pub deposit_event : Event → State B → State B
  deposit_event e s = record s { events = s.events ++ e ∷ [] }
