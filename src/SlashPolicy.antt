-- ===== src/SlashPolicy.antt =====
-- The council's slashes (pallets/slash-policy).
pub mod Policy
pub mod Ledger
mod Tests
