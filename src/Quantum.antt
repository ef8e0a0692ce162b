-- ===== src/Quantum.antt =====
-- The crate crates/quantum-validation: spins, topologies, energies and diversity.
pub mod Errors
pub mod Puzzle
pub mod Packed
pub mod Spins
pub mod Topology
pub mod Consistency
pub mod Energy
pub mod Diversity
mod Tests
