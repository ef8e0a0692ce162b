-- ===== src/Mempool/Lifecycle.antt =====
-- The timing of an order (pallets/quantum-compute-mempool/src/lifecycle.rs), over block numbers that
-- saturate at `last`.
use quip_validator.Prelude.{
  ℕ, ◌≤◌, ◌<◌, ◌≡◌, arith, Bool, true, Option, none, some, leb, min, sat_add,
}
use quip_validator.Mempool.Types.{OrderTiming}

module _ (last : ℕ) where
  unfoldable pub effective_expiry : ℕ → Option ℕ → OrderTiming → ℕ
  effective_expiry created_at none timing = sat_add last created_at timing.deadline_blocks
  effective_expiry created_at (some first) timing =
      min (sat_add last created_at timing.deadline_blocks) (sat_add last first timing.block_wait)

  unfoldable pub is_expired : ℕ → ℕ → Option ℕ → OrderTiming → Bool
  is_expired now created_at first_solution_at timing =
      leb (effective_expiry created_at first_solution_at timing) now

  -- A first solution before the hard deadline of its order can only bring the effective expiry
  -- forward, and never before the block of that solution.
  pub effective_expiry_bounds :
      (created_at first : ℕ) (timing : OrderTiming)
      → first < effective_expiry created_at none timing
      → (effective_expiry created_at (some first) timing ≤ effective_expiry created_at none timing)
        × (first ≤ effective_expiry created_at (some first) timing)
  unfolding effective_expiry
  effective_expiry_bounds created_at first timing h = (omega arith, omega arith)

  -- An order that is expired at one block is expired at every later one.
  pub is_expired_mono :
      (now later created_at : ℕ) (first : Option ℕ) (timing : OrderTiming)
      → now ≤ later
      → is_expired now created_at first timing ≡ true
      → is_expired later created_at first timing ≡ true
  unfolding is_expired
  is_expired_mono now later created_at first timing h e = ground arith
