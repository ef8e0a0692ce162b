-- ===== src/Mempool/Expiry.antt =====
-- The expiry buckets (pallets/quantum-compute-mempool/src/lib.rs).
use quip_validator.Prelude.{ℕ, max, sat_add, put, without}
use quip_validator.Mempool.State.{Config, State, insert_key}

module _ (c : Config) {B : Type 0} where
  unfoldable pub expiry_bucket : ℕ → State B → ℕ
  expiry_bucket expiry s = max expiry (sat_add c.last_block s.block_number 1)

  unfoldable pub schedule_expiry : ℕ → ℕ → State B → State B
  unfolding expiry_bucket
  schedule_expiry order_id expiry s = record s {
    orders_expiring_at =
        put s.orders_expiring_at (expiry_bucket expiry s)
          (insert_key order_id (s.orders_expiring_at (expiry_bucket expiry s)));
  }

module _ {B : Type 0} where
  -- `OrdersExpiringAt::remove`
  unfoldable pub unschedule : ℕ → ℕ → State B → State B
  unschedule bucket order_id s = record s {
    orders_expiring_at =
        put s.orders_expiring_at bucket (without order_id (s.orders_expiring_at bucket));
  }
