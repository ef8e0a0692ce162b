-- ===== src/Mempool/Settle.antt =====
-- Settlement: `claim_reward`, `reclaim_order`, `purge_result` and `release_proposer_slot`
-- (pallets/quantum-compute-mempool/src/lib.rs).
pub mod Once
use quip_validator.Prelude.{
  ℕ, ◌+◌, ◌==◌, leb, ltb, Bool, true, false, not, if◌then◌else◌, List, [], ◌∷◌, Option, none, some,
  Result, ok, err, ◌>>=◌, ◌>>◌, ensure, ok_or, put, sat_add, without, u64_max, u128_max,
}
use quip_validator.Mempool.Types.{
  OrderStatus, opened, expired, closed, JobSpec, JobOrder, SolverInfo,
}
use quip_validator.Mempool.Rewards.{Payout}
use quip_validator.Mempool.State.{
  Config, Currency, QuantumVm, State, Outcome, Error, order_not_found, job_spec_not_found,
  already_claimed, order_not_expired, no_solutions_accepted, reward_reserve_missing, not_proposer,
  result_not_found, result_ttl_not_elapsed, currency, deposit_event, reward_claimed, order_closed,
  reward_reclaimed, result_purged,
}
use quip_validator.Mempool.Payouts.{compute_payouts, winner_summaries_from_payouts}

abbrev pub is_closed : OrderStatus → Bool
is_closed closed = true
is_closed _ = false

abbrev pub is_expired_status : OrderStatus → Bool
is_expired_status expired = true
is_expired_status _ = false

abbrev pub keep_ids : List ℕ → Option (List ℕ)
keep_ids [] = none
keep_ids (x ∷ xs) = some (x ∷ xs)

abbrev pub release_slot : ℕ → Option (List ℕ) → Option (List ℕ)
release_slot order_id none = none
release_slot order_id (some ids) = keep_ids (without order_id ids)

abbrev pub earn : ℕ → Option SolverInfo → Option SolverInfo
earn amount none = none
earn amount (some solver) =
    some (record solver { rewards_earned = sat_add u128_max solver.rewards_earned amount })

abbrev pub count_success : Option JobSpec → Option JobSpec
count_success none = none
count_success (some spec) =
    some (record spec { successful_orders = sat_add u64_max spec.successful_orders 1 })

module _ {B : Type 0} where
  unfoldable pub release_proposer_slot : ℕ → ℕ → State B → State B
  release_proposer_slot proposer order_id s = record s {
    proposer_orders =
        put s.proposer_orders proposer (release_slot order_id (s.proposer_orders proposer));
  }

  -- The order is closed and leaves the index and its proposer's list.
  unfoldable pub close_order : ℕ → JobOrder → State B → State B
  unfolding release_proposer_slot
  close_order order_id order s = release_proposer_slot order.proposer order_id (record s {
    job_orders = put s.job_orders order_id (some (record order { status = closed }));
    open_orders = without order_id s.open_orders;
  })

  unfoldable pub purge_result : Config → ℕ → State B → Outcome B
  purge_result c order_id s = ok_or (s.order_results order_id) result_not_found >>= λ stored.
      ensure (leb (sat_add c.last_block stored.settled_at c.result_ttl_blocks) s.block_number)
        result_ttl_not_elapsed
      >> ok (
          deposit_event (result_purged order_id)
            (record s { order_results = put s.order_results order_id none }))

module _ {B : Type 0} (cur : Currency B) where
  unfoldable pub pay_one : ℕ → ℕ → Payout → State B → Outcome B
  pay_one order_id proposer (winner, payout, energy) s =
      if payout == 0
      then ok s
      else (ok_or (cur.transfer proposer winner payout s.bank) currency >>= λ bank. ok (
          deposit_event (reward_claimed order_id winner payout) (record s {
            bank = bank;
            solvers = put s.solvers winner (earn payout (s.solvers winner));
          })))

  -- The loop over the payouts.
  unfoldable pub pay_all : ℕ → ℕ → List Payout → State B → Outcome B
  unfolding pay_one
  pay_all order_id proposer [] s = ok s
  pay_all order_id proposer (p ∷ ps) s =
      pay_one order_id proposer p s >>= λ s'. pay_all order_id proposer ps s'

  -- `unreserve`, which must find the whole reward reserved.
  unfoldable pub release_reserve : ℕ → ℕ → State B → Outcome B
  release_reserve who reward s =
      let (missing, bank) = cur.unreserve who reward s.bank in
      ensure (missing == 0) reward_reserve_missing >> ok (record s { bank = bank })

  unfoldable pub claim_reward : QuantumVm → ℕ → State B → Outcome B
  unfolding pay_all release_reserve close_order
  claim_reward vm order_id s = ok_or (s.job_orders order_id) order_not_found >>= λ order.
      ok_or (s.job_specs order.spec_id) job_spec_not_found >>= λ spec.
      ensure (not (is_closed order.status)) already_claimed
      >> (ensure (is_expired_status order.status) order_not_expired
          >> (ensure (ltb 0 order.solution_count) no_solutions_accepted
              >> (compute_payouts order_id order s >>= λ payouts.
                  winner_summaries_from_payouts payouts >>= λ winners.
                  vm.validate_result order.spec_id spec.validation_program spec.transform_program
                    winners
                  >> (release_reserve order.proposer order.reward s >>= λ s1.
                      pay_all order_id order.proposer payouts s1 >>= λ s2.
                      let s3 : State B = close_order order_id order s2 in
                      ok (
                        deposit_event (order_closed order_id true) (record s3 {
                          job_specs =
                              put s3.job_specs order.spec_id
                                (count_success (s3.job_specs order.spec_id));
                        }))))))

  unfoldable pub reclaim_order : ℕ → ℕ → State B → Outcome B
  unfolding release_reserve close_order
  reclaim_order caller order_id s = ok_or (s.job_orders order_id) order_not_found >>= λ order.
      ensure (order.proposer == caller) not_proposer
      >> (ensure (not (is_closed order.status)) already_claimed
          >> (ensure (is_expired_status order.status) order_not_expired
              >> (ensure (order.solution_count == 0) no_solutions_accepted
                  >> (release_reserve caller order.reward s >>= λ s1. ok (
                      deposit_event (order_closed order_id false) (
                        deposit_event (reward_reclaimed order_id caller order.reward)
                          (close_order order_id order s1)))))))
