-- ===== src/Mempool/Propose.antt =====
-- Proposals (pallets/quantum-compute-mempool/src/lib.rs, `do_propose_job` and its two calls).
use quip_validator.Prelude.{
  ℕ, ◌==◌, leb, ltb, ◌&&◌, Bool, true, false, not, if◌then◌else◌, List, [], ◌∷◌, ◌++◌, length,
  Option, none, some, is_some, Result, ok, err, ◌>>=◌, ◌>>◌, ensure, ok_or, put, sat_add, u64_max,
}
use quip_validator.Quantum.Consistency.{ConsistencyError, validate_topology_consistency}
use quip_validator.Mempool.Types.{
  max_reward_winners, RewardResolution, single_best, top_n_weighted, top_n_equal, opened,
  ResultDelivery, IsingParams, JobMode, open_mode, bid, JobSpec, JobOrder,
}
use quip_validator.Mempool.Delivery.{validate_delivery_mode}
use quip_validator.Mempool.State.{
  Config, Currency, State, Outcome, Error, reward_too_low, deadline_too_long, block_wait_too_long,
  job_spec_not_found, too_many_solutions, invalid_diversity_config, invalid_topology,
  invalid_delivery_mode, empty_bid_criteria, invalid_reward_resolution, order_limit_reached,
  currency, invalid_payee_chain, insert_key, or_empty, deposit_event, job_proposed,
  payee_requirement_set,
}
use quip_validator.Mempool.Expiry.{schedule_expiry}

-- The arguments of a proposal.
pub record Proposal : Type 0 where
  pub spec_id : ℕ
  pub ising_params : IsingParams
  pub reward : ℕ
  pub mode : JobMode
  pub resolution : RewardResolution
  pub deadline_blocks : ℕ
  pub block_wait : ℕ
  pub delivery : ResultDelivery

unfoldable pub ensure_valid_mode : JobMode → Result Error (Unit {0})
ensure_valid_mode open_mode = ok tt
ensure_valid_mode (bid none none) = err empty_bid_criteria
ensure_valid_mode (bid _ _) = ok tt

unfoldable pub ensure_valid_resolution : RewardResolution → Result Error (Unit {0})
ensure_valid_resolution single_best = ok tt
ensure_valid_resolution (top_n_weighted n) =
    ensure (ltb 0 n && leb n max_reward_winners) invalid_reward_resolution
ensure_valid_resolution (top_n_equal n) =
    ensure (ltb 0 n && leb n max_reward_winners) invalid_reward_resolution

unfoldable pub ensure_min_solutions : ℕ → Option ℕ → Result Error (Unit {0})
ensure_min_solutions max_solutions none = ok tt
ensure_min_solutions max_solutions (some n) = ensure (leb n max_solutions) too_many_solutions

abbrev pub is_none_or_two : Option ℕ → Bool
is_none_or_two none = true
is_none_or_two (some n) = leb 2 n

unfoldable pub ensure_diversity : Option ℕ → Option ℕ → Result Error (Unit {0})
ensure_diversity none min_solutions = ok tt
ensure_diversity (some d) min_solutions =
    if ltb 0 d then ensure (is_none_or_two min_solutions) invalid_diversity_config else ok tt

abbrev pub is_empty : List ConsistencyError → Bool
is_empty [] = true
is_empty (x ∷ xs) = false

-- `try_push`
unfoldable pub try_push : ℕ → List ℕ → ℕ → Result Error (List ℕ)
try_push bound xs x = if ltb (length xs) bound then ok (xs ++ x ∷ []) else err order_limit_reached

-- The counter `total_orders` of the spec, if it is there.
abbrev pub count_order : Option JobSpec → Option JobSpec
count_order none = none
count_order (some spec) = some (record spec { total_orders = sat_add u64_max spec.total_orders 1 })

-- The checks that read no proposer.
unfoldable pub check_proposal : Config → Bool → Proposal → Result Error (Unit {0})
unfolding ensure_valid_mode ensure_valid_resolution ensure_min_solutions ensure_diversity
check_proposal c spec_known p =
    ensure (leb c.min_reward p.reward) reward_too_low
    >> (ensure (leb p.deadline_blocks c.max_deadline_blocks) deadline_too_long
        >> (ensure (leb p.block_wait c.max_block_wait) block_wait_too_long
            >> (ensure spec_known job_spec_not_found
                >> (ensure_min_solutions c.max_solutions p.ising_params.min_solutions
                    >> (ensure_diversity p.ising_params.min_diversity_milli
                          p.ising_params.min_solutions
                        >> (ensure
                              (is_empty (
                                validate_topology_consistency p.ising_params.nodes
                                  p.ising_params.edges p.ising_params.h_values
                                  p.ising_params.j_values none none))
                              invalid_topology
                            >> (ensure (validate_delivery_mode p.delivery p.mode)
                                  invalid_delivery_mode
                                >> (ensure_valid_mode p.mode
                                    >> ensure_valid_resolution p.resolution))))))))

unfoldable pub new_order : ℕ → ℕ → Proposal → JobOrder
new_order proposer created_at p = record {
  spec_id = p.spec_id;
  proposer = proposer;
  ising_params = p.ising_params;
  reward = p.reward;
  mode = p.mode;
  resolution = p.resolution;
  timing = record { deadline_blocks = p.deadline_blocks; block_wait = p.block_wait };
  delivery = p.delivery;
  status = opened;
  created_at = created_at;
  first_solution_at = none;
  solution_count = 0;
}

module _ (c : Config) {B : Type 0} (cur : Currency B) where
  -- What follows the reservation: the order is stored, indexed, scheduled and announced.
  unfoldable pub store_order : ℕ → Proposal → List ℕ → B → State B → State B
  unfolding new_order schedule_expiry
  store_order proposer p proposer_orders bank s =
      let order_id : ℕ = s.next_order_id in
      let stored : State B = record s {
        bank = bank;
        next_order_id = sat_add u64_max order_id 1;
        job_orders = put s.job_orders order_id (some (new_order proposer s.block_number p));
        open_orders = insert_key order_id s.open_orders;
      } in
      let scheduled : State B =
        schedule_expiry c order_id (sat_add c.last_block s.block_number p.deadline_blocks) stored in
      deposit_event
        (job_proposed order_id p.spec_id proposer p.reward p.deadline_blocks p.block_wait)
        (record scheduled {
          proposer_orders = put s.proposer_orders proposer (some proposer_orders);
          job_specs = put s.job_specs p.spec_id (count_order (s.job_specs p.spec_id));
        })

  unfoldable pub do_propose_job : ℕ → Proposal → State B → Result Error (ℕ × State B)
  unfolding check_proposal try_push store_order
  do_propose_job proposer p s =
      check_proposal c (is_some (s.job_specs p.spec_id)) p
      >> (try_push c.max_orders_per_proposer (or_empty (s.proposer_orders proposer)) s.next_order_id
          >>= λ proposer_orders. ok_or (cur.reserve proposer p.reward s.bank) currency >>= λ bank.
              ok (s.next_order_id, store_order proposer p proposer_orders bank s))

  unfoldable pub propose_job : ℕ → Proposal → State B → Outcome B
  unfolding do_propose_job
  propose_job proposer p s = do_propose_job proposer p s >>= λ r. ok r.1

  unfoldable pub propose_job_with_payee_requirement : ℕ → Proposal → ℕ → State B → Outcome B
  unfolding do_propose_job
  propose_job_with_payee_requirement proposer p required_chain_id s =
      ensure (not (required_chain_id == 0)) invalid_payee_chain
      >> (do_propose_job proposer p s >>= λ r. ok (
          deposit_event (payee_requirement_set r.0 required_chain_id) (record r.1 {
            order_payee_requirements =
                put r.1.order_payee_requirements r.0 (some required_chain_id);
          })))
