-- ===== src/Tests.antt =====
-- Concrete collections, numbers and records, and the theorems at them.
pub mod Collections
pub mod Numbers
pub mod Clock
pub mod Sessions
pub mod Deliveries
pub mod Accounts
pub mod Drainages
pub mod Settlements
pub mod Subscriptions
pub mod Peers
pub mod Offers
pub mod Probes
pub mod Hosts
pub mod Requests
