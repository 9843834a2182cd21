-- ===== src/Accounting.antt =====
-- pkg/accounting: delivery claims, attestations, their comparison, and the session ledgers.
pub mod Manager
pub mod Cids
pub mod Compare
pub mod Rounds
pub mod Honesty
pub mod Escalator
