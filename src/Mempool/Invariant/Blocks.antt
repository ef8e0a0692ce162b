-- ===== src/Mempool/Invariant/Blocks.antt =====
-- The start of a block never fails, and its work is bounded.
use quip_validator.Prelude.{
  ℕ, zero, suc, ◌+◌, ◌-◌, ◌==◌, ◌≤◌, ◌≡◌, refl, arith, leb, ltb, ◌&&◌, Bool, true, false, List, [],
  ◌∷◌, length, length-take-le, Option, none, some, Result, ok, err, ◌>>=◌, Ensures, Ensures-ok,
  Bool-cases, inl, inr, sat_add,
}
use quip_validator.Mempool.Types.{
  max_reward_winners, max_finalised_orders_per_block, RewardResolution, single_best, top_n_weighted,
  top_n_equal, JobOrder, RankedSolver, FrontRunner, expired,
}
use quip_validator.Mempool.Rewards.{Payout, single_best_payouts}
use quip_validator.Mempool.Rewards.Fairness.{
  top_n_equal_payouts-solvers, top_n_weighted_payouts-solvers,
}
use quip_validator.Mempool.State.{Config, State, Error}
use quip_validator.Mempool.Payouts.{payouts_of, compute_payouts}
use quip_validator.Mempool.Expiry.{unschedule}
use quip_validator.Mempool.Finalise.{
  is_opened, mark_expired, announce_payouts, announce_result, finalise_opened, finalise_stored,
  finalise_order, finalise_each, Drained, batch, drain, finalise_expired_orders, on_initialize,
}
use quip_validator.Mempool.Invariant.{Inv}
use quip_validator.Mempool.Invariant.Payment.{length-solvers, winner_summaries_from_payouts_total}
use quip_validator.Mempool.Invariant.Calls.Blocks.{finalise_order-Inv, finalise_each-Inv}

abbrev Few : List Payout → Type 0
Few ps = length ps ≤ max_reward_winners

payouts_of-Few :
    (r : RewardResolution) (reward : ℕ) (front : Option FrontRunner) (tops : List RankedSolver)
    → length tops ≤ max_reward_winners
    → Ensures Few (payouts_of r reward front tops)
unfolding payouts_of single_best_payouts
payouts_of-Few single_best reward none tops few = tt
payouts_of-Few single_best reward (some front) tops few = omega arith
payouts_of-Few (top_n_weighted n) reward front [] few = tt
payouts_of-Few (top_n_weighted n) reward front (e ∷ es) few =
    omega (arith, few, length-solvers _ (e ∷ es) (top_n_weighted_payouts-solvers (e ∷ es) reward))
payouts_of-Few (top_n_equal n) reward front [] few = tt
payouts_of-Few (top_n_equal n) reward front (e ∷ es) few =
    omega (arith, few, length-solvers _ (e ∷ es) (top_n_equal_payouts-solvers (e ∷ es) reward))

module _ {B : Type 0} where
  abbrev Returns : Result Error (State B) → Type 0
  Returns r = (s' : State B) × (r ≡ ok s')

  announce_payouts_total :
      (id : ℕ) (o : JobOrder) (r : Result Error (List Payout)) (s : State B)
      → Ensures Few r
      → Returns (announce_payouts id o r s)
  unfolding announce_payouts
  announce_payouts_total id o (ok ps) s few =
      rw (winner_summaries_from_payouts_total ps few) (_, refl)
  announce_payouts_total id o (err e) s few = (s, refl)

  finalise_opened_total :
      (id : ℕ) (o : JobOrder) (s : State B) → Inv s → Returns (finalise_opened id o s)
  unfolding finalise_opened announce_result compute_payouts mark_expired
  finalise_opened_total id o s v = elim (Bool-cases (o.solution_count == 0)) [
    | inl empty ↦ rw empty (_, refl)
    | inr solved ↦ rw solved (
        announce_payouts_total id (record o { status = expired }) _ (mark_expired id o s)
          (payouts_of-Few o.resolution o.reward (s.order_front_runner id) (s.order_top_solvers id)
            (v.ranked id).2))
  ]

  finalise_stored_total :
      (id : ℕ) (stored : Option JobOrder) (s : State B)
      → Inv s
      → Returns (finalise_stored id stored s)
  unfolding finalise_stored
  finalise_stored_total id none s v = (s, refl)
  finalise_stored_total id (some o) s v = elim (Bool-cases (is_opened o.status)) [
    | inl live ↦ rw live (finalise_opened_total id o s v)
    | inr done ↦ rw done (s, refl)
  ]

  finalise_order_total : (id : ℕ) (s : State B) → Inv s → Returns (finalise_order id s)
  unfolding finalise_order
  finalise_order_total id s v = finalise_stored_total id (s.job_orders id) s v

  finalise_each_total :
      (bucket : ℕ) (ids : List ℕ) (s : State B) → Inv s → Returns (finalise_each bucket ids s)
  unfolding finalise_each unschedule
  finalise_each_total bucket [] s v = (s, refl)
  finalise_each_total bucket (id ∷ ids) s v =
      let (s1, done) = finalise_order_total id (unschedule bucket id s) v in
      let v1 : Inv s1 = Ensures-ok Inv _ (finalise_order-Inv id (unschedule bucket id s) v) done in
      rw done (finalise_each_total bucket ids s1 v1)

  -- The drain returns a sound state within what is left of its budgets.
  abbrev Drains : ℕ → ℕ → Result Error (Drained B) → Type 0
  Drains most_finalised most_visited r =
      (d : Drained B) × (r ≡ ok d)
      × Inv d.after
      × (d.finalised ≤ most_finalised)
      × (d.buckets_visited ≤ most_visited)

  module _ (c : Config) where
    drain_total :
        (bucket_budget now order_budget bucket finalised visited : ℕ) (s : State B)
        → Inv s
        → Drains
            (finalised + order_budget)
            (visited + bucket_budget)
            (drain c bucket_budget now order_budget bucket finalised visited s)
    unfolding drain
    drain_total zero now order_budget bucket finalised visited s v =
        (_, refl, v, omega arith, omega arith)
    drain_total (suc bucket_budget) now order_budget bucket finalised visited s v =
        let ids : List ℕ = batch c order_budget bucket s in
        let (s', done) = finalise_each_total bucket ids s v in
        let v' : Inv s' = Ensures-ok Inv _ (finalise_each-Inv bucket ids s v) done in
        let few : n ≤ order_budget = length-take-le order_budget _ in
        round (leb bucket now && ltb 0 order_budget) s' done (
          next-Drains (n == order_budget) s' v' few (
            Drains_mono _ _ _ _ _ (omega (arith, few)) (omega arith) (
              drain_total bucket_budget now (order_budget - n) (sat_add c.last_block bucket 1)
                (finalised + n) (visited + 1) s' v')))
      where
        n : ℕ
        n = length (batch c order_budget bucket s)

        stopped : ℕ → ℕ → ℕ → State B → Result Error (Drained B)
        stopped b f w s' =
            ok (record { bucket = b; finalised = f; buckets_visited = w; after = s' })

        more : State B → Result Error (Drained B)
        more s' =
            drain c bucket_budget now (order_budget - n) (sat_add c.last_block bucket 1)
              (finalised + n) (visited + 1) s'

        next : (full : Bool) (s' : State B) → Result Error (Drained B)
        next full s' = elim full [
          | true ↦ stopped bucket (finalised + n) (visited + 1) s'
          | false ↦ more s'
        ]

        Drains_mono :
            (a b a' b' : ℕ) (r : Result Error (Drained B))
            → a ≤ a'
            → b ≤ b'
            → Drains a b r
            → Drains a' b' r
        Drains_mono a b a' b' r p q (d, e, v, x, y) = (d, e, v, omega arith, omega arith)

        next-Drains :
            (full : Bool) (s' : State B)
            → Inv s'
            → n ≤ order_budget
            → Drains (finalised + order_budget) (visited + suc bucket_budget) (more s')
            → Drains (finalised + order_budget) (visited + suc bucket_budget) (next full s')
        next-Drains true s' v' few k = (_, refl, v', omega (arith, few), omega arith)
        next-Drains false s' v' few k = k

        round :
            (go : Bool) (s' : State B)
            → finalise_each bucket (batch c order_budget bucket s) s ≡ ok s'
            → Drains
                (finalised + order_budget)
                (visited + suc bucket_budget)
                (next (n == order_budget) s')
            → Drains (finalised + order_budget) (visited + suc bucket_budget) (elim go [
              | false ↦ stopped bucket finalised visited s
              | true ↦ finalise_each bucket (batch c order_budget bucket s) s >>= λ s'.
                  next (n == order_budget) s'
            ])
        round false s' done k = (_, refl, v, omega arith, omega arith)
        round true s' done k = rw done k

    -- From a state of the invariant, `finalise_expired_orders` returns at any block number, without a
    -- trap, in a state of the invariant, after at most 8 orders and at most 8 buckets.
    pub finalise_expired_orders_total :
        (now : ℕ) (s : State B)
        → Inv s
        → (finalised visited : ℕ) × (s' : State B) × (finalise_expired_orders c now s
            ≡ ok (finalised, visited, s'))
          × Inv s'
          × (finalised ≤ max_finalised_orders_per_block)
          × (visited ≤ max_finalised_orders_per_block)
    unfolding finalise_expired_orders
    finalise_expired_orders_total now s v =
        let (d, e, inv, x, y) =
          drain_total max_finalised_orders_per_block now max_finalised_orders_per_block
            s.next_expiry_bucket 0 0 s v in
        rw e (d.finalised, d.buckets_visited, _, refl, inv, x, y)

    -- From a state of the invariant, the `on_initialize` hook never fails.
    pub on_initialize_total :
        (s : State B) → Inv s → (s' : State B) × (on_initialize c s ≡ ok s') × Inv s'
    unfolding on_initialize
    on_initialize_total s v =
        let now : ℕ = sat_add c.last_block s.block_number 1 in
        let (n, m, s', e, inv, _, _) =
          finalise_expired_orders_total now (record s { block_number = now; events = [] }) v in
        rw e (s', refl, inv)
