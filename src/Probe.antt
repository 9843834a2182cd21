-- ===== src/Probe.antt =====
-- pkg/probe: the prober of the indexers.
pub mod Prober
