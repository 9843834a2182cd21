-- ===== src/Store/Records.antt =====
-- The records of the database's collections (pkg/store/types.go).
mod Participants
mod Sessions
pub use Participants.*
pub use Sessions.*
