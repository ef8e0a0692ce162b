-- ===== src/Mempool/Rewards/Reference.antt =====
-- The rank-weighted split against proportional shares (pallets/quantum-compute-mempool/src/rewards.rs).
use native.Mathlib.Nat.{div-add-mod, mul-add-div}
use quip_validator.Prelude.{
  ℕ, suc, ◌+◌, ◌-◌, ◌*◌, ◌/◌, ◌%◌, ◌≤◌, ◌<◌, ◌^◌, ◌≡◌, refl, ap, sym, ◌∙◌, arith, List, [], ◌∷◌,
  length, u128_max, sat_add,
}
use quip_validator.Mempool.Types.{RankedSolver}
use quip_validator.Mempool.Rewards.{
  Payout, weighted_share, weighted_from, add_to_first, total_weight_of, top_n_weighted_payouts,
}
use quip_validator.Mempool.Rewards.Shares.{exact_share, weighted_share-exact}
use quip_validator.Mempool.Rewards.Conservation.{
  total_paid, total_weight_of-exact, total_weight_of_bounds, weighted_from-distributes,
}

-- The solver of rank `index` of `count`, counted from 0, weighs `count - index`, of the sum of all.
unfoldable pub proportional_from : ℕ → ℕ → ℕ → List RankedSolver → List Payout
proportional_from reward count index [] = []
proportional_from reward count index (e ∷ es) =
    (e.solver, reward * (count - index) / (count * (count + 1) / 2), e.energy_milli)
    ∷ proportional_from reward count (suc index) es

-- Splitting off the quotient first loses nothing.
exact_share-eq : (reward t w : ℕ) → 0 < t → exact_share reward t w ≡ reward * w / t
exact_share-eq reward t w p =
    let split : t * (reward / t) + reward % t ≡ reward = div-add-mod reward t in
    let scaled : (t * (reward / t) + reward % t) * w ≡ reward * w = ap (λ (x : ℕ). x * w) split in
    let apart : t * (reward / t * w) + reward % t * w ≡ reward * w = omega (arith, scaled) in
    sym (mul-add-div p (reward / t * w) (reward % t * w)) ∙ ap (λ (x : ℕ). x / t) apart

module _ (reward count : ℕ) (fits : reward ≤ u128_max) (some_ranked : 0 < count)
    (few : count < 2 ^ 31) where
  weighted_share-eq :
      (index : ℕ)
      → weighted_share reward (total_weight_of count) (count - index)
        ≡ reward * (count - index) / (count * (count + 1) / 2)
  weighted_share-eq index =
      let t : ℕ = total_weight_of count in
      let tri : 2 * t ≡ count * (count + 1) = total_weight_of-exact count few in
      let (below, small) = total_weight_of_bounds count some_ranked few in
      let positive : 0 < t = omega (arith, below) in
      let halved : t ≡ count * (count + 1) / 2 = omega (arith, tri) in
      weighted_share-exact reward t (count - index) fits positive small (omega (arith, below))
      ∙ (exact_share-eq reward t (count - index) positive
          ∙ ap (λ (x : ℕ). reward * (count - index) / x) halved)

  weighted_from-eq :
      (index distributed : ℕ) (es : List RankedSolver)
      → (weighted_from reward (total_weight_of count) count index distributed es).1
        ≡ proportional_from reward count index es
  unfolding weighted_from proportional_from
  weighted_from-eq index distributed [] = refl
  weighted_from-eq index distributed (e ∷ es) =
      rw
        (
          weighted_from-eq (suc index)
              (sat_add u128_max distributed
                (weighted_share reward (total_weight_of count) (count - index)))
              es,
          weighted_share-eq index,
        )
        refl

add_to_first-eq :
    (extra a b : ℕ) (e : RankedSolver) (ps : List Payout)
    → a ≡ b
    → b + extra ≤ u128_max
    → add_to_first extra ((e.solver, a, e.energy_milli) ∷ ps)
      ≡ (e.solver, b + extra, e.energy_milli) ∷ ps
unfolding add_to_first
add_to_first-eq extra a b e ps same h =
    ap (λ (x : ℕ). (e.solver, x, e.energy_milli) ∷ ps) (omega (arith, same))

-- The rank-weighted split of a `u128` reward among `n` ranked solvers, fewer than 2 ^ 31, pays each one
-- after the leader exactly the whole part of its share by weight, reward * (n - rank) / (n * (n + 1) / 2),
-- although the code never multiplies the reward out; the leader has its share and all that is left over.
pub top_n_weighted_payouts-eq-proportional :
    (e : RankedSolver) (es : List RankedSolver) (reward : ℕ)
    → suc (length es) < 2 ^ 31
    → reward ≤ u128_max
    → let n = suc (length es) in
      top_n_weighted_payouts (e ∷ es) reward
      ≡ (
        e.solver,
        reward * n / (n * (n + 1) / 2)
            + (reward - total_paid (proportional_from reward n 0 (e ∷ es))),
        e.energy_milli,
      )
        ∷ proportional_from reward n 1 es
unfolding top_n_weighted_payouts proportional_from
top_n_weighted_payouts-eq-proportional e es reward few fits =
    let n : ℕ = suc (length es) in
    let pushed = weighted_from-eq reward n fits (omega arith) few 0 0 (e ∷ es) in
    let (d, below) = weighted_from-distributes reward e es few fits in
    let all : (weighted_from reward (total_weight_of n) n 0 0 (e ∷ es)).0
        ≡ total_paid (proportional_from reward n 0 (e ∷ es)) =
      d ∙ ap total_paid pushed in
    let whole : n - 0 ≡ n = omega arith in
    let leader = ap (λ (w : ℕ). reward * w / (n * (n + 1) / 2)) whole in
    rw (pushed, all) (add_to_first-eq _ _ _ e _ leader (omega (arith, all, below, leader)))
