-- ===== src/Mempool/Invariant/Payment.antt =====
-- What the invariant buys the settlement: an order with solutions can be paid, in full.
use quip_validator.Prelude.{
  ℕ, ◌≤◌, ◌<◌, ◌≡◌, ◌≢◌, refl, ap, ◌∙◌, sym, arith, leb, true, List, [], ◌∷◌, map, length,
  length-map, Option, none, some, ok, u128_max,
}
use quip_validator.Mempool.Types.{
  max_reward_winners, RewardResolution, single_best, top_n_weighted, top_n_equal, JobOrder,
  RankedSolver, FrontRunner,
}
use quip_validator.Mempool.Rewards.{
  Payout, single_best_payouts, top_n_equal_payouts, top_n_weighted_payouts,
}
use quip_validator.Mempool.Rewards.Conservation.{
  total_paid, total-single_best_payouts, total-top_n_equal_payouts, total-top_n_weighted_payouts,
}
use quip_validator.Mempool.Rewards.Fairness.{
  paid_solvers, ranked_solvers, top_n_equal_payouts-solvers, top_n_weighted_payouts-solvers,
}
use quip_validator.Mempool.State.{State}
use quip_validator.Mempool.Payouts.{
  nonempty, summary, payouts_of, compute_payouts, winner_summaries_from_payouts,
}
use quip_validator.Mempool.Invariant.{IsReady, Inv}
use quip_validator.Mempool.Invariant.Writes.{IsPayable-some}

nonempty-≢[] : (xs : List RankedSolver) → nonempty xs ≡ true → xs ≢ []
nonempty-≢[] [] h e = absurd (cc)
nonempty-≢[] (x ∷ xs) h e = cc

pub length-solvers :
    (ps : List Payout) (es : List RankedSolver)
    → paid_solvers ps ≡ ranked_solvers es
    → length ps ≡ length es
length-solvers ps es h = sym (length-map _ ps) ∙ ap length h ∙ length-map _ es

module _ (reward : ℕ) (fits : reward ≤ u128_max) where
  payouts_of-Pays :
      (r : RewardResolution) (front : Option FrontRunner) (tops : List RankedSolver)
      → IsReady r front tops
      → length tops ≤ max_reward_winners
      → (ps : List Payout) × (payouts_of r reward front tops ≡ ok ps)
        × (total_paid ps ≡ reward)
        × (length ps ≤ max_reward_winners)
  unfolding payouts_of single_best_payouts
  payouts_of-Pays single_best none tops h few = cc
  payouts_of-Pays single_best (some front) tops h few =
      (single_best_payouts front reward, refl, total-single_best_payouts front reward, omega arith)
  payouts_of-Pays (top_n_weighted n) front tops h few = (
    top_n_weighted_payouts tops reward,
    rw h refl,
    total-top_n_weighted_payouts tops reward (nonempty-≢[] tops h) (omega arith) fits,
    omega (arith, few, length-solvers _ tops (top_n_weighted_payouts-solvers tops reward)),
  )
  payouts_of-Pays (top_n_equal n) front tops h few = (
    top_n_equal_payouts tops reward,
    rw h refl,
    total-top_n_equal_payouts tops reward (nonempty-≢[] tops h),
    omega (arith, few, length-solvers _ tops (top_n_equal_payouts-solvers tops reward)),
  )

pub winner_summaries_from_payouts_total :
    (ps : List Payout)
    → length ps ≤ max_reward_winners
    → winner_summaries_from_payouts ps ≡ ok (map summary ps)
unfolding winner_summaries_from_payouts
winner_summaries_from_payouts_total ps h =
    let fits : leb (length (map summary ps)) max_reward_winners ≡ true =
      rw (length-map summary ps) (ground (arith, h)) in
    rw fits refl

module _ {B : Type 0} (s : State B) (v : Inv s) where
  -- In a state of the invariant, an order that is stored and has a solution, with a `u128` reward, can be
  -- paid: `compute_payouts` succeeds, its payouts add up to the reward, and their summaries fit the bound.
  pub compute_payouts_total :
      (id : ℕ) (o : JobOrder)
      → s.job_orders id ≡ some o
      → 0 < o.solution_count
      → o.reward ≤ u128_max
      → (ps : List Payout) × (compute_payouts id o s ≡ ok ps)
        × (total_paid ps ≡ o.reward)
        × (winner_summaries_from_payouts ps ≡ ok (map summary ps))
  unfolding compute_payouts
  compute_payouts_total id o found some_solution fits =
      let (ps, computed, paid, few) =
        payouts_of-Pays o.reward fits o.resolution (s.order_front_runner id)
          (s.order_top_solvers id)
          ((IsPayable-some (s.job_orders id) o _ _ found (v.payable id)).1 some_solution)
          (v.ranked id).2 in
      (ps, computed, paid, winner_summaries_from_payouts_total ps few)
