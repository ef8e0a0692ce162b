-- ===== src/Mempool/Rewards/Fairness.antt =====
-- Payouts follow the ranking: the same solvers in the same order, and never more for a worse rank.
use native.Mathlib.Nat.{mul-le-mul_left}
use quip_validator.Prelude.{
  ℕ, suc, ◌-◌, ◌/◌, ◌%◌, ◌≤◌, ◌≡◌, refl, ap, arith, List, [], ◌∷◌, map, length, u128_max, sat_mul,
}
use quip_validator.Mempool.Types.{RankedSolver}
use quip_validator.Mempool.Rewards.{
  Payout, weighted_share, weighted_from, add_to_first, equal_from, top_n_equal_payouts,
  top_n_weighted_payouts, total_weight_of,
}

-- Amounts never grow along the list, and stay below `bound`.
abbrev pub DescendsFrom : ℕ → List Payout → Type 0
DescendsFrom bound [] = Unit
DescendsFrom bound ((_, amount, _) ∷ ps) = (amount ≤ bound) × DescendsFrom amount ps

abbrev pub Descends : List Payout → Type 0
Descends [] = Unit
Descends ((_, amount, _) ∷ ps) = DescendsFrom amount ps

DescendsFrom-mono : (a b : ℕ) (ps : List Payout) → a ≤ b → DescendsFrom a ps → DescendsFrom b ps
DescendsFrom-mono a b [] h d = tt
DescendsFrom-mono a b (p ∷ ps) h d = (omega arith, d.1)

div_mono : (t a b : ℕ) → a ≤ b → a / t ≤ b / t
div_mono t a b h = grind arith

sat_mul_mono : (a v w : ℕ) → v ≤ w → sat_mul u128_max a v ≤ sat_mul u128_max a w
sat_mul_mono a v w h = omega (arith, mul-le-mul_left {m = v} {n = w} a h)

-- Saturation included.
weighted_share_mono :
    (reward t v w : ℕ) → v ≤ w → weighted_share reward t v ≤ weighted_share reward t w
unfolding weighted_share
weighted_share_mono reward t v w h =
    omega (arith, sat_mul_mono (reward / t) v w h, div_mono t _ _ (sat_mul_mono (reward % t) v w h))

weighted_from-Descends :
    (reward t count index d bound : ℕ) (es : List RankedSolver)
    → weighted_share reward t (count - index) ≤ bound
    → DescendsFrom bound (weighted_from reward t count index d es).1
unfolding weighted_from
weighted_from-Descends reward t count index d bound [] h = tt
weighted_from-Descends reward t count index d bound (e ∷ es) h = (
  h,
  weighted_from-Descends reward t count (suc index) _ _ es
      (weighted_share_mono reward t (count - suc index) (count - index) (omega arith)),
)

add_to_first-Descends :
    (extra : ℕ) (p : Payout) (ps : List Payout)
    → p.1 ≤ u128_max
    → DescendsFrom p.1 ps
    → Descends (add_to_first extra (p ∷ ps))
unfolding add_to_first
add_to_first-Descends extra (s, a, e) ps fits d = DescendsFrom-mono a _ ps (omega arith) d

weighted_share-le : (reward t w : ℕ) → weighted_share reward t w ≤ u128_max
unfolding weighted_share
weighted_share-le reward t w = omega arith

-- Under the rank-weighted rule a worse rank is never paid more, whatever the energies and the reward.
pub top_n_weighted_payouts-Descends :
    (ranked : List RankedSolver) (reward : ℕ) → Descends (top_n_weighted_payouts ranked reward)
unfolding top_n_weighted_payouts weighted_from
top_n_weighted_payouts-Descends [] reward = tt
top_n_weighted_payouts-Descends (e ∷ es) reward =
    let n : ℕ = suc (length es) in
    let t : ℕ = total_weight_of n in
    add_to_first-Descends _ _ _ (weighted_share-le reward t (n - 0)) (
      weighted_from-Descends reward t n 1 _ (weighted_share reward t (n - 0)) es
        (weighted_share_mono reward t (n - 1) (n - 0) (omega arith)))

abbrev pub paid_solvers : List Payout → List ℕ
paid_solvers = map (λ p. p.0)

abbrev pub ranked_solvers : List RankedSolver → List ℕ
ranked_solvers = map (λ e. e.solver)

weighted_from-solvers :
    (reward t count index d : ℕ) (es : List RankedSolver)
    → paid_solvers (weighted_from reward t count index d es).1 ≡ ranked_solvers es
unfolding weighted_from
weighted_from-solvers reward t count index d [] = refl
weighted_from-solvers reward t count index d (e ∷ es) =
    ap (λ xs. e.solver ∷ xs) (weighted_from-solvers reward t count (suc index) _ es)

-- The payouts of the rank-weighted rule name the ranked solvers, entry by entry, in their order.
pub top_n_weighted_payouts-solvers :
    (ranked : List RankedSolver) (reward : ℕ)
    → paid_solvers (top_n_weighted_payouts ranked reward) ≡ ranked_solvers ranked
unfolding top_n_weighted_payouts weighted_from add_to_first
top_n_weighted_payouts-solvers [] reward = refl
top_n_weighted_payouts-solvers (e ∷ es) reward =
    ap (λ xs. e.solver ∷ xs) (weighted_from-solvers reward _ _ 1 _ es)

equal_from-solvers :
    (base remainder index : ℕ) (es : List RankedSolver)
    → paid_solvers (equal_from base remainder index es) ≡ ranked_solvers es
unfolding equal_from
equal_from-solvers base remainder index [] = refl
equal_from-solvers base remainder index (e ∷ es) =
    ap (λ xs. e.solver ∷ xs) (equal_from-solvers base remainder (suc index) es)

-- The payouts of the equal split name the ranked solvers, entry by entry, in their order.
pub top_n_equal_payouts-solvers :
    (ranked : List RankedSolver) (reward : ℕ)
    → paid_solvers (top_n_equal_payouts ranked reward) ≡ ranked_solvers ranked
unfolding top_n_equal_payouts
top_n_equal_payouts-solvers [] reward = refl
top_n_equal_payouts-solvers (e ∷ es) reward = equal_from-solvers _ _ 0 (e ∷ es)
