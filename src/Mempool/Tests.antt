-- ===== src/Mempool/Tests.antt =====
-- Runs of the mempool on small inputs (pallets/quantum-compute-mempool).
use quip_validator.Prelude.{
  AreDistinct, All, ℕ, ◌+◌, ◌-◌, ◌≤◌, ◌<◌, ◌≡◌, refl, arith, true, false, List, [], ◌∷◌, length,
  head?, none, some, ok, min, max, contains, map, put, if◌then◌else◌, ◌⊎◌, inl, inr, Bool-cases,
}
use quip_validator.Prelude.Int.{ℤ, pos, negsuc, neg_ℤ, ◌≤ℤ◌}
use quip_validator.Quantum.Spins.{validate_spins, ensure_valid_spins, is_spin, matches_spin}
use quip_validator.Quantum.Diversity.Average.{AreValid}
use quip_validator.Quantum.Diversity.{
  symmetric_hamming, symmetric_hamming_validated, direct, inverted,
}
use quip_validator.Mempool.Types.{
  single_best, top_n_weighted, OrderStatus, opened, expired, closed, on_chain_only,
  callback_with_poll, IsingParams, open_mode, ising, JobSpec, OrderTiming, JobOrder, RankedSolver,
  max_finalised_orders_per_block, cpu,
}
use quip_validator.Mempool.Lifecycle.{effective_expiry, effective_expiry_bounds}
use quip_validator.Mempool.Rewards.{
  ranks, single_best_payouts, top_n_equal_payouts, top_n_weighted_payouts, update_ranked_solvers,
}
use quip_validator.Mempool.Rewards.Conservation.{
  total_paid, total-top_n_equal_payouts, total-top_n_weighted_payouts,
}
use quip_validator.Mempool.Rewards.Fairness.{Descends, top_n_weighted_payouts-Descends}
use quip_validator.Mempool.Rewards.Reference.{
  proportional_from, top_n_weighted_payouts-eq-proportional,
}
use quip_validator.Mempool.Rewards.Ranking.{
  AtLeast, IsSorted, IsDistinct, update_ranked_solvers-IsRanked,
}
use quip_validator.Mempool.Rewards.Leader.{update_ranked_solvers_leads}
use quip_validator.Mempool.Selection.{
  select_from_best, rounds, goal, scan, mark, candidates, visit, better,
}
use quip_validator.Mempool.Selection.Distinct.{select_from_best-Selects}
use quip_validator.Mempool.Selection.Complete.{select_from_best_total}
use quip_validator.Mempool.State.{Config, Currency, QuantumVm, State}
use quip_validator.Mempool.Payouts.{compute_payouts, winner_summaries_from_payouts, summary}
use quip_validator.Mempool.Finalise.{finalise_expired_orders}
use quip_validator.Mempool.Settle.{claim_reward, reclaim_order}
use quip_validator.Mempool.Settle.Once.{is_ok, transfers, claim_reward-once, claim_reward_pays}
use quip_validator.Mempool.Settle.{is_expired_status}
use quip_validator.Mempool.Views.{open_order_ids}
use quip_validator.Mempool.Views.Listed.{IsAscending, IsEligible, open_order_ids_pages}
use quip_validator.Mempool.Machine.{Call, run}
use quip_validator.Mempool.Machine
use quip_validator.Mempool.Invariant.{Inv}
use quip_validator.Mempool.Invariant.Payment.{compute_payouts_total}
use quip_validator.Mempool.Invariant.Blocks.{finalise_expired_orders_total}
use quip_validator.Mempool.Invariant.Calls.Runs.{run-Inv}

abbrev config : Config
config = record {
  max_nodes = 4;
  max_solutions = 4;
  max_orders_per_proposer = 2;
  max_deadline_blocks = 100;
  max_block_wait = 10;
  min_reward = 1;
  result_ttl_blocks = 5;
  last_block = 4294967295;
  spec_hash = λ name f v t. length name;
  iteration = λ ids. ids;
}

-- The bank is what stands reserved.
abbrev bank_of_one : Currency ℕ
bank_of_one = record {
  reserve = λ who amount bank. some (bank + amount);
  unreserve = λ who amount bank. (amount - bank, bank - amount);
  transfer = λ from to amount bank. some bank;
}

abbrev plain_vm : QuantumVm
plain_vm = record {
  validate_programs = λ v t. ok tt;
  transform_solutions = λ spec v t who solutions. record { result = ok solutions; steps_used = 0 };
  validate_result = λ spec v t winners. ok tt;
}

abbrev genesis : State ℕ
genesis = record {
  job_specs = λ id. none;
  job_orders = λ id. none;
  next_order_id = 0;
  open_orders = [];
  orders_expiring_at = λ block. [];
  next_expiry_bucket = 1;
  order_solutions = λ id solver. none;
  order_payee_requirements = λ id. none;
  order_payees = λ id solver. none;
  order_front_runner = λ id. none;
  order_top_solvers = λ id. [];
  solvers = λ who. none;
  proposer_orders = λ who. none;
  order_results = λ id. none;
  events = [];
  block_number = 0;
  bank = 0;
}

genesis-Inv : Inv genesis
genesis-Inv = record {
  ranked = λ id. (tt, tt, omega arith);
  payable = λ id. tt;
  indexed = λ id. refl;
}

abbrev two_spins : IsingParams
two_spins = record {
  nodes = 0 ∷ 1 ∷ [];
  edges = (0, 1) ∷ [];
  h_values = pos 0 ∷ pos 0 ∷ [];
  j_values = pos 1000 ∷ [];
  max_energy_milli = none;
  min_diversity_milli = none;
  min_solutions = none;
}

abbrev solved_order : OrderStatus → JobOrder
solved_order status = record {
  spec_id = 0;
  proposer = 7;
  ising_params = two_spins;
  reward = 10;
  mode = open_mode;
  resolution = single_best;
  timing = record { deadline_blocks = 20; block_wait = 5 };
  delivery = callback_with_poll (1 ∷ []);
  status = status;
  created_at = 1;
  first_solution_at = some 2;
  solution_count = 1;
}

abbrev spec : JobSpec
spec = record {
  builder = 1;
  name = [];
  formulation = ising;
  validation_program = none;
  transform_program = none;
  registered_at = 0;
  total_orders = 1;
  successful_orders = 0;
}

-- Every id holds one expired order, which solver 3 leads, and the reward stands reserved.
abbrev expired_state : State ℕ
expired_state = record genesis {
  job_specs = λ id. some spec;
  job_orders = λ id. some (solved_order expired);
  order_front_runner = λ id. some (record { solver = 3; energy_milli = negsuc 999 });
  next_order_id = 1;
  block_number = 30;
  bank = 10;
}

expired_state-Inv : Inv expired_state
expired_state-Inv = record {
  ranked = λ id. (tt, tt, omega arith);
  payable = λ id. (tt, λ h. refl);
  indexed = λ id. refl;
}

claimed : (s' : State ℕ) × (claim_reward bank_of_one plain_vm 0 expired_state ≡ ok s')
unfolding claim_reward compute_payouts winner_summaries_from_payouts single_best_payouts
claimed = (_, refl)

abbrev calls : List Call
calls =
    Machine.registers_solver 3 cpu
    ∷ Machine.registers_job_spec 1 [] ising none none
    ∷ Machine.proposes 7 (record {
      spec_id = 0;
      ising_params = two_spins;
      reward = 10;
      mode = open_mode;
      resolution = top_n_weighted 2;
      deadline_blocks = 20;
      block_wait = 5;
      delivery = on_chain_only;
    })
    ∷ Machine.submits 3 0 ((pos 1 ∷ negsuc 0 ∷ []) ∷ [])
    ∷ Machine.starts_block
    ∷ Machine.claims 3 0
    ∷ []

run-Inv_example : Inv (run config plain_vm bank_of_one calls genesis)
run-Inv_example = run-Inv config plain_vm bank_of_one calls genesis genesis-Inv

compute_payouts_total_example :
    (ps : List (ℕ × ℕ × ℤ)) × (compute_payouts 0 (solved_order expired) expired_state ≡ ok ps)
    × (total_paid ps ≡ 10)
    × (winner_summaries_from_payouts ps ≡ ok (map summary ps))
compute_payouts_total_example =
    compute_payouts_total expired_state expired_state-Inv 0 (solved_order expired) refl
      (omega arith) (omega arith)

claim_reward_pays_example :
    (is_expired_status expired ≡ true)
    × (0 < 1)
    × (ps : List (ℕ × ℕ × ℤ)) × (bank : ℕ) × (compute_payouts 0 (solved_order expired) expired_state
        ≡ ok ps)
    × (total_paid ps ≡ 10)
    × (bank_of_one.unreserve 7 10 10 ≡ (0, bank))
    × (transfers bank_of_one 7 ps bank ≡ some claimed.0.bank)
    × (claimed.0.job_orders
        ≡ put (λ id. some (solved_order expired)) 0 (some (solved_order closed)))
claim_reward_pays_example =
    claim_reward_pays bank_of_one plain_vm 0 (solved_order expired) expired_state claimed.0
      expired_state-Inv refl (omega arith) claimed.1

claim_reward-once_example :
    (is_ok (claim_reward bank_of_one plain_vm 0 claimed.0) ≡ false)
    × (is_ok (reclaim_order bank_of_one 7 0 claimed.0) ≡ false)
claim_reward-once_example =
    claim_reward-once bank_of_one plain_vm plain_vm 7 0 expired_state claimed.0 claimed.1

finalise_expired_orders_total_example :
    (finalised visited : ℕ) × (s' : State ℕ) × (finalise_expired_orders config 31 expired_state
      ≡ ok (finalised, visited, s'))
    × Inv s'
    × (finalised ≤ max_finalised_orders_per_block)
    × (visited ≤ max_finalised_orders_per_block)
finalise_expired_orders_total_example =
    finalise_expired_orders_total config 31 expired_state expired_state-Inv

abbrev two_ranked : List RankedSolver
two_ranked =
    record { solver = 3; energy_milli = negsuc 999 }
    ∷ record { solver = 4; energy_milli = pos 5 }
    ∷ []

total-top_n_weighted_payouts_example : total_paid (top_n_weighted_payouts two_ranked 10) ≡ 10
total-top_n_weighted_payouts_example =
    total-top_n_weighted_payouts two_ranked 10 (λ e. cc) (omega arith) (omega arith)

total-top_n_equal_payouts_example : total_paid (top_n_equal_payouts two_ranked 11) ≡ 11
total-top_n_equal_payouts_example = total-top_n_equal_payouts two_ranked 11 (λ e. cc)

top_n_weighted_payouts-Descends_example : Descends (top_n_weighted_payouts two_ranked 10)
top_n_weighted_payouts-Descends_example = top_n_weighted_payouts-Descends two_ranked 10

top_n_weighted_payouts-eq-proportional_example :
    top_n_weighted_payouts two_ranked 11
    ≡ (3, 7 + (11 - total_paid (proportional_from 11 2 0 two_ranked)), negsuc 999)
      ∷ proportional_from 11 2 1 (record { solver = 4; energy_milli = pos 5 } ∷ [])
top_n_weighted_payouts-eq-proportional_example =
    top_n_weighted_payouts-eq-proportional (record { solver = 3; energy_milli = negsuc 999 })
      (record { solver = 4; energy_milli = pos 5 } ∷ []) 11 (omega arith) (omega arith)

abbrev newcomer : RankedSolver
newcomer = record { solver = 5; energy_milli = negsuc 1999 }

two_ranked-IsDistinct : IsDistinct two_ranked
unfolding ranks
two_ranked-IsDistinct = (refl, (refl, tt))

update_ranked_solvers-IsRanked_example :
    IsSorted (update_ranked_solvers two_ranked newcomer 2)
    × IsDistinct (update_ranked_solvers two_ranked newcomer 2)
    × (length (update_ranked_solvers two_ranked newcomer 2) ≤ 2)
update_ranked_solvers-IsRanked_example =
    update_ranked_solvers-IsRanked two_ranked newcomer 2 two_ranked-IsDistinct

update_ranked_solvers_leads_example :
    (leader : RankedSolver) × (head? (update_ranked_solvers two_ranked newcomer 2) ≡ some leader)
    × (leader.energy_milli ≤ℤ negsuc 1999)
    × AtLeast leader.energy_milli two_ranked
update_ranked_solvers_leads_example =
    update_ranked_solvers_leads two_ranked newcomer 2 (omega arith)

abbrev three_vectors : List (List ℤ)
three_vectors = (pos 1 ∷ pos 1 ∷ []) ∷ (pos 1 ∷ pos 1 ∷ []) ∷ (pos 1 ∷ negsuc 0 ∷ []) ∷ []

abbrev first_two : List ℕ
first_two = 1 ∷ 2 ∷ []

selected : select_from_best three_vectors 1 2 ≡ ok first_two
unfolding select_from_best symmetric_hamming rounds goal scan mark candidates visit
    ensure_valid_spins matches_spin better symmetric_hamming_validated direct inverted neg_ℤ
selected = refl

three_vectors-AreValid : AreValid 2 three_vectors
unfolding validate_spins is_spin
three_vectors-AreValid = (refl, refl, (refl, refl, (refl, refl, tt)))

select_from_best-Selects_example :
    AreDistinct first_two
    × ((j : ℕ) → contains j first_two ≡ true → j < 3)
    × (length first_two ≡ min (max 2 1) 3)
    × (head? first_two ≡ some 1)
select_from_best-Selects_example = select_from_best-Selects three_vectors 1 2 first_two selected

select_from_best_total_example : (r : List ℕ) × (select_from_best three_vectors 1 2 ≡ ok r)
select_from_best_total_example =
    select_from_best_total 2 three_vectors 1 2 three_vectors-AreValid (omega arith)

abbrev timing : OrderTiming
timing = record { deadline_blocks = 20; block_wait = 5 }

before : 2 < effective_expiry 1000 1 none timing
unfolding effective_expiry
before = omega arith

effective_expiry_bounds_example :
    (effective_expiry 1000 1 (some 2) timing ≤ effective_expiry 1000 1 none timing)
    × (2 ≤ effective_expiry 1000 1 (some 2) timing)
effective_expiry_bounds_example = effective_expiry_bounds 1000 1 2 timing before

-- Two open orders, before their expiry.
abbrev open_state : State ℕ
open_state = record expired_state {
  job_orders = λ id. if contains id (4 ∷ 2 ∷ []) then some (solved_order opened) else none;
  open_orders = 4 ∷ 2 ∷ [];
  block_number = 3;
}

open_state-Inv : Inv open_state
open_state-Inv = record {
  ranked = λ id. (tt, tt, omega arith);
  payable = λ id. elim (Bool-cases (contains id (4 ∷ 2 ∷ []))) [
    | inl there ↦ rw there (tt, λ h. refl)
    | inr not_there ↦ rw not_there tt
  ];
  indexed = λ id. elim (Bool-cases (contains id (4 ∷ 2 ∷ []))) [
    | inl there ↦ rw there refl
    | inr not_there ↦ rw not_there refl
  ];
}

open_order_ids_pages_example :
    let ids = open_order_ids config (some 1) 5 open_state in
    IsAscending ids
    × (length ids ≤ 5)
    × ((id : ℕ) → contains id ids ≡ true → IsEligible config (some 1) open_state id)
    × ((id : ℕ)
        → IsEligible config (some 1) open_state id
        → (contains id ids ≡ true) ⊎ ((length ids ≡ 5) × All (λ y. y ≤ id) ids))
open_order_ids_pages_example =
    open_order_ids_pages config (some 1) open_state (λ ids k. refl) open_state-Inv 5
