-- ===== src/Mempool/Invariant/Rank.antt =====
-- The ranking state under an update, and the payouts from it.
use quip_validator.Prelude.{
  ℕ, leb→le, ==_refl, ◌==◌, ◌≤◌, ◌<◌, ◌≡◌, refl, arith, leb, Bool, true, false, if◌then◌else◌, List,
  [], ◌∷◌, length, head?, Option, none, some, is_some, ok, err, put, Ensures, Ensures->>=,
  Bool-cases, inl, inr, ◌⊎◌,
}
use quip_validator.Prelude.Int.{ℤ}
use quip_validator.Mempool.Types.{
  max_reward_winners, RewardResolution, single_best, top_n_weighted, top_n_equal, JobOrder,
  RankedSolver, FrontRunner,
}
use quip_validator.Mempool.Rewards.{update_ranked_solvers}
use quip_validator.Mempool.Rewards.Ranking.{update_ranked_solvers-IsRanked}
use quip_validator.Mempool.Rewards.Leader.{update_ranked_solvers_leads}
use quip_validator.Mempool.State.{State, Error, invalid_reward_resolution}
use quip_validator.Mempool.Payouts.{
  nonempty, should_replace, update_single, update_top_n, update_ranking, bounded, announce_front,
  same_front,
}
use quip_validator.Mempool.Invariant.{IsRanked, IsValidResolution, IsReady, IsPayable, Inv}

-- A ranking state that only gains entries pays whatever it paid before.
pub IsPayable-mono :
    (o : Option JobOrder) (front front' : Option FrontRunner) (tops tops' : List RankedSolver)
    → (is_some front ≡ true → is_some front' ≡ true)
    → (nonempty tops ≡ true → nonempty tops' ≡ true)
    → IsPayable o front tops
    → IsPayable o front' tops'
IsPayable-mono none front front' tops tops' f t h = tt
IsPayable-mono (some o) front front' tops tops' f t h = (h.0, λ p. ready o.resolution (h.1 p))
  where
    ready : (r : RewardResolution) → IsReady r front tops → IsReady r front' tops'
    ready single_best x = f x
    ready (top_n_weighted n) x = t x
    ready (top_n_equal n) x = t x

update-nonempty :
    (current : List RankedSolver) (c : RankedSolver) (n : ℕ)
    → 0 < n
    → nonempty (update_ranked_solvers current c n) ≡ true
update-nonempty current c n h =
    let (leader, e, _, _) = update_ranked_solvers_leads current c n h in
    head-nonempty (update_ranked_solvers current c n) e
  where
    head-nonempty :
        (xs : List RankedSolver) {x : RankedSolver} → head? xs ≡ some x → nonempty xs ≡ true
    head-nonempty [] e = cc
    head-nonempty (x ∷ xs) e = refl

-- The orders and the index stay as they are, and the order's resolution can be paid.
abbrev pub Ranks : {B : Type 0} → ℕ → RewardResolution → State B → State B → Type 0
Ranks id resolution s s' =
    Inv s'
    × IsReady resolution (s'.order_front_runner id) (s'.order_top_solvers id)
    × (s'.job_orders ≡ s.job_orders)
    × (s'.open_orders ≡ s.open_orders)

module _ {B : Type 0} (s : State B) (v : Inv s) (id solver : ℕ) (energy : ℤ) where
  update_single-Ranks : Ranks id single_best s (update_single id solver energy s)
  unfolding update_single
  update_single-Ranks = elim (Bool-cases (should_replace energy (s.order_front_runner id))) [
    | inl replaced ↦ rw replaced (
      record {
        ranked = v.ranked;
        payable = λ j.
            IsPayable-mono (s.job_orders j) (s.order_front_runner j) _ (s.order_top_solvers j)
              (s.order_top_solvers j) (λ p. ground (arith, p)) (λ p. p) (v.payable j);
        indexed = v.indexed;
      },
      ground arith,
      refl,
      refl,
    )
    | inr kept ↦ rw kept (v, ground arith, refl, refl)
  ]

  announce-Ranks :
      (resolution : RewardResolution) (previous next : Option RankedSolver) (s' : State B)
      → Ranks id resolution s s'
      → Ranks id resolution s (announce_front id previous next s')
  announce-Ranks resolution previous none s' h = h
  announce-Ranks resolution previous (some leader) s' h =
      elim (Bool-cases (same_front previous (some leader))) [
        | inl same ↦ rw same h
        | inr new ↦ rw new h
      ]

  update_top_n-Inv :
      (n : ℕ) (updated : List RankedSolver)
      → 0 < n
      → update_ranked_solvers
          (s.order_top_solvers id)
          (record { solver = solver; energy_milli = energy })
          n
        ≡ updated
      → length updated ≤ max_reward_winners
      → Inv (record s { order_top_solvers = put s.order_top_solvers id updated })
        × (nonempty updated ≡ true)
  update_top_n-Inv n updated p e few =
      let (sorted, distinct, bound) =
        update_ranked_solvers-IsRanked (s.order_top_solvers id)
          (record { solver = solver; energy_milli = energy }) n (v.ranked id).1 in
      let some_one : nonempty updated ≡ true =
        rw (← e) (update-nonempty (s.order_top_solvers id) _ n p) in
      (
        record {
          ranked =
              λ j. ranked-put j (Bool-cases (j == id)) (rw (← e) sorted, rw (← e) distinct, few);
          payable = λ j.
              IsPayable-mono (s.job_orders j) (s.order_front_runner j) (s.order_front_runner j)
                (s.order_top_solvers j) _ (λ q. q) (λ q. ground (arith, q)) (v.payable j);
          indexed = v.indexed;
        },
        some_one,
      )
    where
      ranked-put :
          (j : ℕ)
          → ((j == id) ≡ true) ⊎ ((j == id) ≡ false)
          → IsRanked updated
          → IsRanked (put s.order_top_solvers id updated j)
      ranked-put j (inl same) r = rw same r
      ranked-put j (inr other) r = rw other (v.ranked j)

  update_top_n-Ranks :
      (resolution : RewardResolution) (n : ℕ)
      → 0 < n
      → ((front : Option FrontRunner) (tops : List RankedSolver)
          → nonempty tops ≡ true
          → IsReady resolution front tops)
      → Ensures (Ranks id resolution s) (update_top_n id n solver energy s)
  unfolding update_top_n
  update_top_n-Ranks resolution n p ready =
      Ensures->>= (Ranks id resolution s)
        (bounded max_reward_winners invalid_reward_resolution (
          update_ranked_solvers (s.order_top_solvers id)
            (record { solver = solver; energy_milli = energy }) n))
        _
        (λ updated e.
          let (same, few) = bounded-eq-ok _ _ e in
          let (inv, some_one) = update_top_n-Inv n updated p same few in
          announce-Ranks resolution (head? (s.order_top_solvers id)) (head? updated)
            (record s { order_top_solvers = put s.order_top_solvers id updated })
            (inv, ready _ _ (rw (==_refl id) some_one), refl, refl))
    where
      bounded-eq-ok :
          (e : Error) (xs : List RankedSolver) {ys : List RankedSolver}
          → bounded max_reward_winners e xs ≡ ok ys
          → (xs ≡ ys) × (length ys ≤ max_reward_winners)
      bounded-eq-ok e xs h =
          let (fits, same) = chosen (leb (length xs) max_reward_winners) e xs h in
          (same, rw (← same) (leb→le (length xs) max_reward_winners fits))
        where
          chosen :
              (b : Bool) (e : Error) (xs : List RankedSolver) {ys : List RankedSolver}
              → (if b then ok xs else err e) ≡ ok ys
              → (b ≡ true) × (xs ≡ ys)
          chosen true e xs h = (refl, cc)
          chosen false e xs h = cc

  pub update_ranking-Ranks :
      (resolution : RewardResolution)
      → IsValidResolution resolution
      → Ensures (Ranks id resolution s) (update_ranking id resolution solver energy s)
  unfolding update_ranking
  update_ranking-Ranks single_best h = update_single-Ranks
  update_ranking-Ranks (top_n_weighted n) h =
      update_top_n-Ranks (top_n_weighted n) n h.0 (λ front tops r. r)
  update_ranking-Ranks (top_n_equal n) h =
      update_top_n-Ranks (top_n_equal n) n h.0 (λ front tops r. r)
