-- ===== src/Discovery.antt =====
-- pkg/discovery: which indexers a host is offered, and at which price.
pub mod Pricing
pub mod Query
