-- ===== src/Mempool/Payouts.antt =====
-- The ranking state of an order and the payouts from it (`update_ranking`, `compute_payouts`,
-- `winner_summaries_from_payouts` of pallets/quantum-compute-mempool/src/lib.rs).
use quip_validator.Prelude.{
  ℕ, ◌==◌, leb, ◌&&◌, Bool, true, false, if◌then◌else◌, List, [], ◌∷◌, map, length, head?, Option,
  none, some, Result, ok, err, ◌>>=◌, ◌>>◌, ensure, ok_or, put,
}
use quip_validator.Prelude.Int.{ℤ, ltb_ℤ, ◌==ℤ◌}
use quip_validator.Mempool.Types.{
  max_reward_winners, RewardResolution, single_best, top_n_weighted, top_n_equal, JobOrder,
  RankedSolver, FrontRunner, WinnerSummary,
}
use quip_validator.Mempool.Rewards.{
  Payout, update_ranked_solvers, single_best_payouts, top_n_equal_payouts, top_n_weighted_payouts,
}
use quip_validator.Mempool.State.{
  State, Outcome, Error, no_solutions_accepted, invalid_reward_resolution, trap, deposit_event,
  front_runner_changed,
}

abbrev pub should_replace : ℤ → Option FrontRunner → Bool
should_replace energy none = true
should_replace energy (some front) = ltb_ℤ energy front.energy_milli

-- Whether two leaders are the same entry.
abbrev pub same_front : Option RankedSolver → Option RankedSolver → Bool
same_front none none = true
same_front (some a) (some b) = (a.solver == b.solver) && (a.energy_milli ==ℤ b.energy_milli)
same_front _ _ = false

-- `BoundedVec::try_into`
abbrev pub bounded : {A : Type 0} → ℕ → Error → List A → Result Error (List A)
bounded n e xs = if leb (length xs) n then ok xs else err e

module _ {B : Type 0} where
  unfoldable pub update_single : ℕ → ℕ → ℤ → State B → State B
  update_single order_id solver energy s =
      if should_replace energy (s.order_front_runner order_id)
      then (deposit_event (front_runner_changed order_id solver energy) (record s {
        order_front_runner =
            put s.order_front_runner order_id
              (some (record { solver = solver; energy_milli = energy }));
      }))
      else s

  abbrev pub announce_front : ℕ → Option RankedSolver → Option RankedSolver → State B → State B
  announce_front order_id previous none s = s
  announce_front order_id previous (some leader) s =
      if same_front previous (some leader)
      then s
      else deposit_event (front_runner_changed order_id leader.solver leader.energy_milli) s

  unfoldable pub update_top_n : ℕ → ℕ → ℕ → ℤ → State B → Outcome B
  update_top_n order_id n solver energy s =
      let current : List RankedSolver = s.order_top_solvers order_id in
      bounded max_reward_winners invalid_reward_resolution
        (update_ranked_solvers current (record { solver = solver; energy_milli = energy }) n)
      >>= λ updated. ok (
          announce_front order_id (head? current) (head? updated)
            (record s { order_top_solvers = put s.order_top_solvers order_id updated }))

  unfoldable pub update_ranking : ℕ → RewardResolution → ℕ → ℤ → State B → Outcome B
  unfolding update_single update_top_n
  update_ranking order_id single_best solver energy s = ok (update_single order_id solver energy s)
  update_ranking order_id (top_n_weighted n) solver energy s =
      update_top_n order_id n solver energy s
  update_ranking order_id (top_n_equal n) solver energy s = update_top_n order_id n solver energy s

-- The payouts of one resolution from the ranking state of its order.
abbrev pub nonempty : List RankedSolver → Bool
nonempty [] = false
nonempty (e ∷ es) = true

unfoldable pub payouts_of :
    RewardResolution → ℕ → Option FrontRunner → List RankedSolver → Result Error (List Payout)
payouts_of single_best reward front ranked =
    ok_or front no_solutions_accepted >>= λ f. ok (single_best_payouts f reward)
payouts_of (top_n_equal n) reward front ranked =
    ensure (nonempty ranked) no_solutions_accepted >> ok (top_n_equal_payouts ranked reward)
payouts_of (top_n_weighted n) reward front ranked =
    ensure (nonempty ranked) no_solutions_accepted >> ok (top_n_weighted_payouts ranked reward)

unfoldable pub compute_payouts : {B : Type 0} → ℕ → JobOrder → State B → Result Error (List Payout)
unfolding payouts_of
compute_payouts order_id order s =
    payouts_of order.resolution order.reward (s.order_front_runner order_id)
      (s.order_top_solvers order_id)

abbrev pub summary : Payout → WinnerSummary
summary p = record { solver = p.0; energy_milli = p.2; amount = p.1 }

-- The `expect` on the bound is a trap.
unfoldable pub winner_summaries_from_payouts : List Payout → Result Error (List WinnerSummary)
winner_summaries_from_payouts payouts = bounded max_reward_winners trap (map summary payouts)
