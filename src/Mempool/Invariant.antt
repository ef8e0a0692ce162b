-- ===== src/Mempool/Invariant.antt =====
-- The invariant of the mempool's storage: every order can be paid out, the ranked sets are in order, and
-- the index of open orders is exact.
pub mod Rank
pub mod Writes
pub mod Calls
pub mod Payment
pub mod Blocks
use quip_validator.Prelude.{
  ℕ, ◌≤◌, ◌<◌, ◌≡◌, Bool, true, false, List, [], Option, none, some, is_some, length, contains,
}
use quip_validator.Mempool.Types.{
  max_reward_winners, RewardResolution, single_best, top_n_weighted, top_n_equal, JobOrder,
  RankedSolver, FrontRunner,
}
use quip_validator.Mempool.Rewards.Ranking.{IsSorted, IsDistinct}
use quip_validator.Mempool.State.{State}
use quip_validator.Mempool.Payouts.{nonempty}
use quip_validator.Mempool.Finalise.{is_opened}

abbrev pub IsRanked : List RankedSolver → Type 0
IsRanked tops = IsSorted tops × IsDistinct tops × (length tops ≤ max_reward_winners)

-- The resolution is one that a proposal may have.
abbrev pub IsValidResolution : RewardResolution → Type 0
IsValidResolution single_best = Unit
IsValidResolution (top_n_weighted n) = (0 < n) × (n ≤ max_reward_winners)
IsValidResolution (top_n_equal n) = (0 < n) × (n ≤ max_reward_winners)

-- The ranking state that the resolution pays from is there.
abbrev pub IsReady : RewardResolution → Option FrontRunner → List RankedSolver → Type 0
IsReady single_best front tops = is_some front ≡ true
IsReady (top_n_weighted n) front tops = nonempty tops ≡ true
IsReady (top_n_equal n) front tops = nonempty tops ≡ true

abbrev pub IsPayable : Option JobOrder → Option FrontRunner → List RankedSolver → Type 0
IsPayable none front tops = Unit
IsPayable (some o) front tops =
    IsValidResolution o.resolution × (0 < o.solution_count → IsReady o.resolution front tops)

abbrev pub is_open : Option JobOrder → Bool
is_open none = false
is_open (some o) = is_opened o.status

pub record InvOf (orders : ℕ → Option JobOrder) (front : ℕ → Option FrontRunner)
    (tops : ℕ → List RankedSolver) (open_ids : List ℕ) : Type 0 where
  pub ranked : (id : ℕ) → IsRanked (tops id)
  pub payable : (id : ℕ) → IsPayable (orders id) (front id) (tops id)
  pub indexed : (id : ℕ) → contains id open_ids ≡ is_open (orders id)

abbrev pub Inv : {B : Type 0} → State B → Type 0
Inv s = InvOf s.job_orders s.order_front_runner s.order_top_solvers s.open_orders
