-- ===== src/Pow.antt =====
-- Quantum proof of work (pallets/quantum-pow): the topologies and the whitelist.
pub mod Topology
pub mod Registry
pub mod Calls
pub mod Whitelist
mod Tests
