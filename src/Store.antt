-- ===== src/Store.antt =====
-- pkg/store: the records, the collections of the database, and one store for each collection.
pub mod Records
pub mod Status
pub mod SubType
pub mod Outcome
pub mod Db
pub mod Queries
pub mod ClaimStore
pub mod AttestationStore
pub mod LedgerStore
pub mod ComparisonStore
pub mod EscrowStore
pub mod SettlementStore
pub mod VerdictStore
pub mod ContradictionStore
pub mod SubscriptionStore
pub mod MatchStore
pub mod IndexerStore
pub mod HostStore
pub mod ProbeStore
pub mod RatingStore
pub mod Documents
