-- ===== src/Mempool.antt =====
-- The quantum compute mempool (pallets/quantum-compute-mempool).
pub mod Types
pub mod Rewards
pub mod Lifecycle
pub mod Delivery
pub mod Selection
pub mod State
pub mod Solvers
pub mod Expiry
pub mod Propose
pub mod Payouts
pub mod Finalise
pub mod Settle
pub mod Views
pub mod Submit
pub mod Machine
pub mod Invariant
mod Tests
