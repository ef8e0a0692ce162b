-- ===== src/Mempool/Types.antt =====
-- The data of the mempool (pallets/quantum-compute-mempool/src/types.rs). Account ids, hashes and
-- names are only compared, so they are numbers; balances are `u128`, energies `i64` in milli units.
use quip_validator.Prelude.{ℕ, Bool, Option, List, not, ◌==◌, ◌&&◌}
use quip_validator.Prelude.Int.{ℤ}

abbrev pub max_reward_winners : ℕ
max_reward_winners = 32

abbrev pub max_finalised_orders_per_block : ℕ
max_finalised_orders_per_block = 8

pub data Formulation : Type 0 where
  ising : Formulation

pub data MinerType : Type 0 where
  cpu gpu qpu_dwave qpu_ibm qpu_ionq qpu_pasqal asic : MinerType

-- The position of a miner type, by which the derived equality compares.
abbrev pub miner_type_code : MinerType → ℕ
miner_type_code cpu = 0
miner_type_code gpu = 1
miner_type_code qpu_dwave = 2
miner_type_code qpu_ibm = 3
miner_type_code qpu_ionq = 4
miner_type_code qpu_pasqal = 5
miner_type_code asic = 6

pub data RewardResolution : Type 0 where
  single_best : RewardResolution
  top_n_weighted : ℕ → RewardResolution
  top_n_equal : ℕ → RewardResolution

pub data OrderStatus : Type 0 where
  opened expired closed : OrderStatus

-- An endpoint is a byte string.
pub data ResultDelivery : Type 0 where
  on_chain_only : ResultDelivery
  callback : List ℕ → ResultDelivery
  callback_with_poll : List ℕ → ResultDelivery

pub record IsingParams : Type 0 where
  pub nodes : List ℕ
  pub edges : List (ℕ × ℕ)
  pub h_values : List ℤ
  pub j_values : List ℤ
  pub max_energy_milli : Option ℤ
  pub min_diversity_milli : Option ℕ
  pub min_solutions : Option ℕ

-- `JobMode::Open` is `open_mode`, since `open` is a word of the language.
pub data JobMode : Type 0 where
  open_mode : JobMode
  bid : Option (List ℕ) → Option (List MinerType) → JobMode

pub record JobSpec : Type 0 where
  pub builder : ℕ
  pub name : List ℕ
  pub formulation : Formulation
  pub validation_program : Option ℕ
  pub transform_program : Option ℕ
  pub registered_at : ℕ
  pub total_orders : ℕ
  pub successful_orders : ℕ

pub record OrderTiming : Type 0 where
  pub deadline_blocks : ℕ
  pub block_wait : ℕ

pub record JobOrder : Type 0 where
  pub spec_id : ℕ
  pub proposer : ℕ
  pub ising_params : IsingParams
  pub reward : ℕ
  pub mode : JobMode
  pub resolution : RewardResolution
  pub timing : OrderTiming
  pub delivery : ResultDelivery
  pub status : OrderStatus
  pub created_at : ℕ
  pub first_solution_at : Option ℕ
  pub solution_count : ℕ

pub record JobSolution : Type 0 where
  pub solver : ℕ
  pub solver_type : MinerType
  pub solutions : List (List ℤ)
  pub best_energy_milli : ℤ
  pub diversity_milli : ℕ
  pub num_valid : ℕ
  pub submitted_at : ℕ

pub record SolverInfo : Type 0 where
  pub account : ℕ
  pub solver_type : MinerType
  pub registered_at : ℕ
  pub solutions_submitted : ℕ
  pub rewards_earned : ℕ

pub record RankedSolver : Type 0 where
  pub solver : ℕ
  pub energy_milli : ℤ

pub record FrontRunner : Type 0 where
  pub solver : ℕ
  pub energy_milli : ℤ

pub record WinnerSummary : Type 0 where
  pub solver : ℕ
  pub energy_milli : ℤ
  pub amount : ℕ

pub record StoredResult : Type 0 where
  pub endpoint : List ℕ
  pub resolution : RewardResolution
  pub settled_at : ℕ
  pub winners : List WinnerSummary

-- The one variant `V1` of `WinnerPayee`; the address is the number that its 20 bytes spell.
pub record WinnerPayee : Type 0 where
  pub chain : ℕ
  pub address : ℕ

abbrev pub chain_id : WinnerPayee → ℕ
chain_id p = p.chain

unfoldable pub is_valid : WinnerPayee → Bool
is_valid p = not (p.chain == 0) && not (p.address == 0)
