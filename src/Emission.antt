-- ===== src/Emission.antt =====
-- The emission controller (pallets/emission-controller).
pub mod Schedule
pub mod State
pub mod Issue
pub mod Upgrade
pub mod Machine
pub mod Invariant
pub mod Paced
mod Tests
