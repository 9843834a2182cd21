-- ===== src/Registry.antt =====
-- pkg/registry: the registration and authentication of indexers and hosts.
pub mod Indexers
pub mod Hosts
