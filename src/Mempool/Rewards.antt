-- ===== src/Mempool/Rewards.antt =====
-- Ranking and payouts (pallets/quantum-compute-mempool/src/rewards.rs). Amounts are `u128` and the
-- saturating operations stay in the definitions.
pub mod Ranking
pub mod Shares
pub mod Conservation
pub mod Reference
pub mod Fairness
pub mod Leader
use quip_validator.Prelude.{
  ℕ, suc, ◌+◌, ◌-◌, ◌*◌, ◌/◌, ◌%◌, ◌==◌, if◌then◌else◌, Bool, true, false, ◌||◌, List, [], ◌∷◌,
  ◌++◌, length, take, sat_add, sat_mul, u128_max,
}
use quip_validator.Prelude.Int.{ℤ, ltb_ℤ, leb_ℤ}
use quip_validator.Mempool.Types.{RankedSolver, FrontRunner}

-- `find(|entry| entry.solver == candidate.solver)`
unfoldable pub ranks : ℕ → List RankedSolver → Bool
ranks solver [] = false
ranks solver (e ∷ es) = e.solver == solver || ranks solver es

-- The write through the found entry: the first one of that solver, if the candidate is better.
unfoldable pub improve : RankedSolver → List RankedSolver → List RankedSolver
improve c [] = []
improve c (e ∷ es) =
    if e.solver == c.solver
    then (if ltb_ℤ c.energy_milli e.energy_milli then c else e) ∷ es
    else e ∷ improve c es

-- `sort_by_key` keeps the order of equal keys.
unfoldable pub insert_by_energy : RankedSolver → List RankedSolver → List RankedSolver
insert_by_energy c [] = c ∷ []
insert_by_energy c (e ∷ es) =
    if leb_ℤ c.energy_milli e.energy_milli then c ∷ e ∷ es else e ∷ insert_by_energy c es

unfoldable pub sort_by_energy : List RankedSolver → List RankedSolver
sort_by_energy [] = []
sort_by_energy (e ∷ es) = insert_by_energy e (sort_by_energy es)

unfoldable pub merge_candidate : RankedSolver → List RankedSolver → List RankedSolver
merge_candidate c es = if ranks c.solver es then improve c es else es ++ c ∷ []

unfoldable pub update_ranked_solvers : List RankedSolver → RankedSolver → ℕ → List RankedSolver
update_ranked_solvers current candidate limit =
    take limit (sort_by_energy (merge_candidate candidate current))

-- Solver, amount, energy.
abbrev pub Payout : Type 0
Payout = ℕ × ℕ × ℤ

unfoldable pub single_best_payouts : FrontRunner → ℕ → List Payout
single_best_payouts front reward = (front.solver, reward, front.energy_milli) ∷ []

-- The entries from `index` on.
unfoldable pub equal_from : ℕ → ℕ → ℕ → List RankedSolver → List Payout
equal_from base remainder index [] = []
equal_from base remainder index (e ∷ es) =
    (e.solver, base + (if index == 0 then remainder else 0), e.energy_milli)
    ∷ equal_from base remainder (suc index) es

unfoldable pub top_n_equal_payouts : List RankedSolver → ℕ → List Payout
top_n_equal_payouts [] reward = []
top_n_equal_payouts (e ∷ es) reward =
    let len = length (e ∷ es) in equal_from (reward / len) (reward % len) 0 (e ∷ es)

-- One solver's share before the remainder is handed out.
unfoldable pub weighted_share : ℕ → ℕ → ℕ → ℕ
weighted_share reward total_weight weight =
    sat_add u128_max (sat_mul u128_max (reward / total_weight) weight)
      (sat_mul u128_max (reward % total_weight) weight / total_weight)

-- The loop over the ranked entries: the payouts pushed, and the sum distributed.
unfoldable pub weighted_from : ℕ → ℕ → ℕ → ℕ → ℕ → List RankedSolver → ℕ × List Payout
weighted_from reward total_weight count index distributed [] = (distributed, [])
weighted_from reward total_weight count index distributed (e ∷ es) =
    let payout = weighted_share reward total_weight (count - index) in
    let (d, rest) =
      weighted_from reward total_weight count (suc index) (sat_add u128_max distributed payout)
        es in
    (d, (e.solver, payout, e.energy_milli) ∷ rest)

unfoldable pub add_to_first : ℕ → List Payout → List Payout
add_to_first remainder [] = []
add_to_first remainder ((solver, payout, energy) ∷ rest) =
    (solver, sat_add u128_max payout remainder, energy) ∷ rest

unfoldable pub total_weight_of : ℕ → ℕ
total_weight_of count = sat_mul u128_max count (sat_add u128_max count 1) / 2

unfoldable pub top_n_weighted_payouts : List RankedSolver → ℕ → List Payout
top_n_weighted_payouts [] reward = []
top_n_weighted_payouts (e ∷ es) reward =
    let count = length (e ∷ es) in
    let (distributed, payouts) = weighted_from reward (total_weight_of count) count 0 0 (e ∷ es) in
    add_to_first (reward - distributed) payouts
