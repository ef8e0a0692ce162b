-- ===== src/Mempool/Rewards/Conservation.antt =====
-- Every payout rule hands out exactly the reward.
use native.Mathlib.Nat.{div-add-mod, mul-le-mul, mul-le-mul_left, le_of_mul-le-mul_left}
use quip_validator.Prelude.{
  ℕ, zero, suc, ◌+◌, ◌-◌, ◌*◌, ◌/◌, ◌%◌, ◌≤◌, ◌<◌, ◌^◌, ◌≡◌, ◌≢◌, ◌∙◌, refl, ap, arith, List, [],
  ◌∷◌, length, u128_max, sat_add, sat_mul,
}
use quip_validator.Mempool.Types.{RankedSolver, FrontRunner}
use quip_validator.Mempool.Rewards.{
  Payout, weighted_share, weighted_from, add_to_first, total_weight_of, equal_from,
  single_best_payouts, top_n_equal_payouts, top_n_weighted_payouts,
}
use quip_validator.Mempool.Rewards.Shares.{exact_share, exact_share-mul-le, weighted_share-exact}

abbrev pub total_paid : List Payout → ℕ
total_paid [] = 0
total_paid ((_, amount, _) ∷ ps) = amount + total_paid ps

-- The weights that the loop uses from `index` on, and the shares that they earn.
abbrev weights_from : ℕ → ℕ → List RankedSolver → ℕ
weights_from count index [] = 0
weights_from count index (e ∷ es) = (count - index) + weights_from count (suc index) es

abbrev shares_from : ℕ → ℕ → ℕ → ℕ → List RankedSolver → ℕ
shares_from reward t count index [] = 0
shares_from reward t count index (e ∷ es) =
    exact_share reward t (count - index) + shares_from reward t count (suc index) es

weights_from-triangle :
    (count index : ℕ) (es : List RankedSolver)
    → index + length es ≡ count
    → 2 * weights_from count index es ≡ length es * (length es + 1)
weights_from-triangle count index [] h = omega arith
weights_from-triangle count index (e ∷ es) h =
    omega (arith, weights_from-triangle count (suc index) es (omega arith))

shares_from-mul-le :
    (reward t count index : ℕ) (es : List RankedSolver)
    → t * shares_from reward t count index es ≤ reward * weights_from count index es
shares_from-mul-le reward t count index [] = omega arith
shares_from-mul-le reward t count index (e ∷ es) = omega (
  arith,
  exact_share-mul-le reward t (count - index),
  shares_from-mul-le reward t count (suc index) es,
)

module _ (reward t count : ℕ) (fits : reward ≤ u128_max) (small : t < 2 ^ 64) (total : 0 < t)
    (below : count ≤ t) where
  -- The loop distributes the exact shares, as long as they fit the reward.
  weighted_from-shares :
      (index distributed : ℕ) (es : List RankedSolver)
      → distributed + shares_from reward t count index es ≤ reward
      → let (d, ps) = weighted_from reward t count index distributed es in
        (d ≡ distributed + shares_from reward t count index es)
        × (total_paid ps ≡ shares_from reward t count index es)
  unfolding weighted_from
  weighted_from-shares index distributed [] h = (omega arith, refl)
  weighted_from-shares index distributed (e ∷ es) h =
      let w : ℕ = count - index in
      let share : weighted_share reward t w ≡ exact_share reward t w =
        weighted_share-exact reward t w fits total small (omega arith) in
      let next : sat_add u128_max distributed (weighted_share reward t w)
          ≡ distributed + exact_share reward t w =
        omega arith in
      let ih =
        weighted_from-shares (suc index) (distributed + exact_share reward t w) es (omega arith) in
      rw (next, share) (omega (arith, ih.0), omega (arith, ih.1))

total-add_to_first :
    (extra : ℕ) (p : Payout) (ps : List Payout)
    → extra + total_paid (p ∷ ps) ≤ u128_max
    → total_paid (add_to_first extra (p ∷ ps)) ≡ extra + total_paid (p ∷ ps)
unfolding add_to_first
total-add_to_first extra (s, a, e) ps h = omega arith

-- With at most 2 ^ 31 winners the triangular number is exact.
pub total_weight_of-exact : (n : ℕ) → n < 2 ^ 31 → 2 * total_weight_of n ≡ n * (n + 1)
unfolding total_weight_of
total_weight_of-exact n h =
    let square : n * n ≤ (2 ^ 31 - 1) * (2 ^ 31 - 1) =
      mul-le-mul {n₂ = 2 ^ 31 - 1} {m₂ = 2 ^ 31 - 1} (omega arith) (omega arith) in
    let next : sat_add u128_max n 1 ≡ n + 1 = omega arith in
    let plain : sat_mul u128_max n (sat_add u128_max n 1) ≡ n * n + n = rw next (omega arith) in
    rw plain (even n)
  where
    even : (n : ℕ) → 2 * ((n * n + n) / 2) ≡ n * (n + 1)
    even zero = refl
    even (suc k) = omega (arith, even k)

pub total_weight_of_bounds :
    (n : ℕ) → 0 < n → n < 2 ^ 31 → (n ≤ total_weight_of n) × (total_weight_of n < 2 ^ 64)
total_weight_of_bounds n h few =
    let tri : 2 * total_weight_of n ≡ n * (n + 1) = total_weight_of-exact n few in
    let square : n * n ≤ (2 ^ 31 - 1) * (2 ^ 31 - 1) =
      mul-le-mul {n₂ = 2 ^ 31 - 1} {m₂ = 2 ^ 31 - 1} (omega arith) (omega arith) in
    let least : n * 1 ≤ n * n = mul-le-mul_left n h in (omega arith, omega arith)

total-add_to_first_weighted :
    (extra reward t count index d : ℕ) (e : RankedSolver) (es : List RankedSolver)
    → let ps = (weighted_from reward t count index d (e ∷ es)).1 in
      extra + total_paid ps ≤ u128_max → total_paid (add_to_first extra ps) ≡ extra + total_paid ps
unfolding weighted_from
total-add_to_first_weighted extra reward t count index d e es h = total-add_to_first extra _ _ h

-- Equal split: the entries after the first get the base alone.
total-equal_from_later :
    (base remainder index : ℕ) (es : List RankedSolver)
    → 0 < index
    → total_paid (equal_from base remainder index es) ≡ base * length es
unfolding equal_from
total-equal_from_later base remainder index [] h = omega arith
total-equal_from_later base remainder index (e ∷ es) h =
    ground (arith, total-equal_from_later base remainder (suc index) es)

-- The single-winner rule pays the reward.
pub total-single_best_payouts :
    (front : FrontRunner) (reward : ℕ) → total_paid (single_best_payouts front reward) ≡ reward
unfolding single_best_payouts
total-single_best_payouts front reward = omega arith

-- The equal split of a reward among the ranked solvers, at least one, pays out exactly the reward.
pub total-top_n_equal_payouts :
    (ranked : List RankedSolver) (reward : ℕ)
    → ranked ≢ []
    → total_paid (top_n_equal_payouts ranked reward) ≡ reward
unfolding top_n_equal_payouts equal_from
total-top_n_equal_payouts [] reward h = absurd (h refl)
total-top_n_equal_payouts (e ∷ es) reward h =
    let n : ℕ = suc (length es) in
    let split : n * (reward / n) + reward % n ≡ reward = div-add-mod reward n in
    omega (arith, total-equal_from_later (reward / n) (reward % n) 1 es (omega arith))

-- The loop over all the ranked solvers distributes the amounts that it pushes, at most the reward.
pub weighted_from-distributes :
    (reward : ℕ) (e : RankedSolver) (es : List RankedSolver)
    → suc (length es) < 2 ^ 31
    → reward ≤ u128_max
    → let n = suc (length es) in
      let (d, ps) = weighted_from reward (total_weight_of n) n 0 0 (e ∷ es) in
      (d ≡ total_paid ps) × (d ≤ reward)
weighted_from-distributes reward e es few fits =
    let n : ℕ = suc (length es) in
    let t : ℕ = total_weight_of n in
    let tri : 2 * t ≡ n * (n + 1) = total_weight_of-exact n few in
    let (pos, small) = total_weight_of_bounds n (omega arith) few in
    let weights : weights_from n 0 (e ∷ es) ≡ t =
      omega (arith, weights_from-triangle n 0 (e ∷ es) (omega arith)) in
    let scaled : t * shares_from reward t n 0 (e ∷ es) ≤ t * reward =
      omega (arith, shares_from-mul-le reward t n 0 (e ∷ es), ap (λ (w : ℕ). reward * w) weights) in
    let bound : shares_from reward t n 0 (e ∷ es) ≤ reward =
      le_of_mul-le-mul_left scaled (omega arith) in
    let (d, paid) =
      weighted_from-shares reward t n fits small (omega arith) pos 0 0 (e ∷ es) (omega arith) in
    (omega (arith, d, paid), omega (arith, d, bound))

-- The rank-weighted split of a `u128` reward among the ranked solvers, at least one and fewer than
-- 2 ^ 31, pays out exactly the reward, with every saturating operation of the code in place.
pub total-top_n_weighted_payouts :
    (ranked : List RankedSolver) (reward : ℕ)
    → ranked ≢ []
    → length ranked < 2 ^ 31
    → reward ≤ u128_max
    → total_paid (top_n_weighted_payouts ranked reward) ≡ reward
unfolding top_n_weighted_payouts
total-top_n_weighted_payouts [] reward h few fits = absurd (h refl)
total-top_n_weighted_payouts (e ∷ es) reward h few fits =
    let n : ℕ = suc (length es) in
    let t : ℕ = total_weight_of n in
    let (d, below) = weighted_from-distributes reward e es few fits in
    total-add_to_first_weighted (reward - (weighted_from reward t n 0 0 (e ∷ es)).0) reward t n 0 0
      e es (omega (arith, d, below))
    ∙ omega (arith, d, below)
