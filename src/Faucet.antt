-- ===== src/Faucet.antt =====
-- The testnet faucet (pallets/faucet-ops).
pub mod Ops
pub mod Fuse
mod Tests
