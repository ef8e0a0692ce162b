-- ===== src/Mempool/Finalise.antt =====
-- Finalisation of expired orders, the `on_initialize` hook, and the v3 migration
-- (pallets/quantum-compute-mempool/src/lib.rs).
use quip_validator.Prelude.{
  ℕ, zero, suc, ◌+◌, ◌-◌, ◌==◌, leb, ltb, ◌&&◌, Bool, true, false, if◌then◌else◌, List, [], ◌∷◌,
  length, take, Option, none, some, Result, ok, err, ◌>>=◌, put, sat_add, without,
}
use quip_validator.Mempool.Types.{
  OrderStatus, opened, expired, ResultDelivery, on_chain_only, callback, callback_with_poll,
  JobOrder, WinnerSummary, max_finalised_orders_per_block,
}
use quip_validator.Mempool.Lifecycle.{effective_expiry}
use quip_validator.Mempool.Rewards.{Payout}
use quip_validator.Mempool.State.{
  Config, State, Outcome, Error, deposit_event, order_expired, result_ready,
}
use quip_validator.Mempool.Expiry.{schedule_expiry, unschedule}
use quip_validator.Mempool.Payouts.{compute_payouts, winner_summaries_from_payouts}

abbrev pub is_opened : OrderStatus → Bool
is_opened opened = true
is_opened _ = false

module _ {B : Type 0} where
  unfoldable pub persist_result_if_needed : ℕ → JobOrder → List WinnerSummary → State B → State B
  persist_result_if_needed order_id order winners s = elim order.delivery [
    | callback_with_poll endpoint ↦ record s {
      order_results = put s.order_results order_id (
          some (record {
            endpoint = endpoint;
            resolution = order.resolution;
            settled_at = s.block_number;
            winners = winners;
          }));
    }
    | on_chain_only ↦ s
    | callback endpoint ↦ s
  ]

  unfoldable pub emit_result_ready : ℕ → ResultDelivery → List WinnerSummary → State B → State B
  emit_result_ready order_id on_chain_only winners s = s
  emit_result_ready order_id (callback endpoint) winners s =
      deposit_event (result_ready order_id endpoint winners) s
  emit_result_ready order_id (callback_with_poll endpoint) winners s =
      deposit_event (result_ready order_id endpoint winners) s

  -- The order is marked, taken off the index of open orders, and announced as expired.
  unfoldable pub mark_expired : ℕ → JobOrder → State B → State B
  mark_expired order_id order s = deposit_event (order_expired order_id) (record s {
    job_orders = put s.job_orders order_id (some (record order { status = expired }));
    open_orders = without order_id s.open_orders;
  })

  -- What follows `compute_payouts`: an error is logged and passed over.
  unfoldable pub announce_payouts : ℕ → JobOrder → Result Error (List Payout) → State B → Outcome B
  unfolding persist_result_if_needed emit_result_ready
  announce_payouts order_id order (ok payouts) s =
      winner_summaries_from_payouts payouts >>= λ winners. ok (
        emit_result_ready order_id order.delivery winners
          (persist_result_if_needed order_id order winners s))
  announce_payouts order_id order (err e) s = ok s

  unfoldable pub announce_result : ℕ → JobOrder → State B → Outcome B
  unfolding announce_payouts
  announce_result order_id order s =
      announce_payouts order_id order (compute_payouts order_id order s) s

  unfoldable pub finalise_opened : ℕ → JobOrder → State B → Outcome B
  unfolding mark_expired announce_result
  finalise_opened order_id order s =
      let marked : State B = mark_expired order_id order s in
      if order.solution_count == 0
      then ok marked
      else announce_result order_id (record order { status = expired }) marked

  unfoldable pub finalise_stored : ℕ → Option JobOrder → State B → Outcome B
  unfolding finalise_opened
  finalise_stored order_id none s = ok s
  finalise_stored order_id (some order) s =
      if is_opened order.status then finalise_opened order_id order s else ok s

  -- The result is an error only where the code traps.
  unfoldable pub finalise_order : ℕ → State B → Outcome B
  unfolding finalise_stored
  finalise_order order_id s = finalise_stored order_id (s.job_orders order_id) s

  -- The inner loop over the order ids that were read from one bucket.
  unfoldable pub finalise_each : ℕ → List ℕ → State B → Outcome B
  unfolding finalise_order unschedule
  finalise_each bucket [] s = ok s
  finalise_each bucket (id ∷ ids) s =
      finalise_order id (unschedule bucket id s) >>= λ s'. finalise_each bucket ids s'

-- Where the drain stopped: the bucket, the orders finalised, the buckets visited.
pub record Drained (B : Type 0) : Type 0 where
  pub bucket : ℕ
  pub finalised : ℕ
  pub buckets_visited : ℕ
  pub after : State B

module _ (c : Config) {B : Type 0} where
  -- The ids read from a bucket.
  abbrev pub batch : ℕ → ℕ → State B → List ℕ
  batch order_budget bucket s = take order_budget (c.iteration (s.orders_expiring_at bucket))

  -- The `while` loop; the bucket budget falls in every round.
  unfoldable pub drain : ℕ → ℕ → ℕ → ℕ → ℕ → ℕ → State B → Result Error (Drained B)
  unfolding finalise_each
  drain zero now order_budget bucket finalised visited s =
      ok (record { bucket = bucket; finalised = finalised; buckets_visited = visited; after = s })
  drain (suc bucket_budget) now order_budget bucket finalised visited s =
      elim (leb bucket now && ltb 0 order_budget) [
        | false ↦ ok (record {
          bucket = bucket;
          finalised = finalised;
          buckets_visited = visited;
          after = s;
        })
        | true ↦ finalise_each bucket (batch order_budget bucket s) s >>= λ s'.
            elim (length (batch order_budget bucket s) == order_budget) [
              | true ↦ ok (record {
                bucket = bucket;
                finalised = finalised + length (batch order_budget bucket s);
                buckets_visited = visited + 1;
                after = s';
              })
              | false ↦
                  drain bucket_budget now (order_budget - length (batch order_budget bucket s))
                    (sat_add c.last_block bucket 1)
                    (finalised + length (batch order_budget bucket s)) (visited + 1) s'
            ]
      ]

  unfoldable pub finalise_expired_orders : ℕ → State B → Result Error (ℕ × ℕ × State B)
  unfolding drain
  finalise_expired_orders now s =
      drain max_finalised_orders_per_block now max_finalised_orders_per_block s.next_expiry_bucket 0
        0 s
      >>= λ d. ok (d.finalised, d.buckets_visited, record d.after { next_expiry_bucket = d.bucket })

  -- The start of a block: the number moves on, then the hook runs.
  unfoldable pub on_initialize : State B → Outcome B
  unfolding finalise_expired_orders
  on_initialize s =
      let now : ℕ = sat_add c.last_block s.block_number 1 in
      finalise_expired_orders now (record s { block_number = now; events = [] }) >>= λ r. ok r.2

  -- The loop of the v2 to v3 migration, and the migration.
  abbrev pub index_one : ℕ → Option JobOrder → State B → State B
  index_one id none s = s
  index_one id (some order) s =
      if is_opened order.status
      then (schedule_expiry c id
          (effective_expiry c.last_block order.created_at order.first_solution_at order.timing) s)
      else s

  unfoldable pub index_each : List ℕ → State B → State B
  index_each [] s = s
  index_each (id ∷ ids) s = index_each ids (index_one id (s.job_orders id) s)

  unfoldable pub index_open_orders_for_expiry : State B → State B
  unfolding index_each
  index_open_orders_for_expiry s = record (index_each (c.iteration s.open_orders) s) {
    next_expiry_bucket = sat_add c.last_block s.block_number 1;
  }
