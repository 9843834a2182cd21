-- ===== src/Settlement.antt =====
-- pkg/settlement: escrow accounts, batch settlement, verdicts, and slashing for contradictions.
pub mod Hub
pub mod Tendermint
pub mod Escrow
pub mod Batch
pub mod Verdict
pub mod Contradiction
