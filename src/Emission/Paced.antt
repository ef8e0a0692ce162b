-- ===== src/Emission/Paced.antt =====
-- The schedule of the emission controller is never overrun, what it owes is paid or reported, and an
-- upgrade sets the anchor where issuance resumes (pallets/emission-controller/src/lib.rs).
pub mod Rebase
pub mod Owed
pub mod Runs
