-- ===== src/Mempool/Invariant/Calls.antt =====
-- Every call keeps the invariant.
pub mod Blocks
pub mod Closing
pub mod Submission
pub mod Runs
