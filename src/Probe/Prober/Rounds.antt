-- ===== src/Probe/Prober/Rounds.antt =====
-- Any sequence of registrations, heartbeats, deregistrations and rounds of the prober
-- (pkg/registry/indexer_registry.go, pkg/probe/prober.go).
use package.shinzo_scheduler_service.Base.{String, List, [], ◌∷◌}
use package.shinzo_scheduler_service.Base.Int.{ℤ}
use package.shinzo_scheduler_service.Base.Time.{Runtime}
use package.shinzo_scheduler_service.Base.Float.{Float64}
use package.shinzo_scheduler_service.Store.Records.{IndexerRecord}
use package.shinzo_scheduler_service.Store.Status
use package.shinzo_scheduler_service.Registry.Indexers.{
  RegisterIndexerRequest, HeartbeatRequest, register, heartbeat, deregister,
}
use package.shinzo_scheduler_service.Probe.Prober.{Prober, State, probe_all}

-- The calls that write indexer records, each with its time.
pub data Call (F : Type 0) : Type 0 where
  registers : RegisterIndexerRequest → ℤ → Call F
  heartbeats : String → HeartbeatRequest → ℤ → Call F
  deregisters : String → Call F
  probes : (IndexerRecord F → ℤ × ℤ) → Call F

module _ {F D P C K S : Type 0} ⦃fl : Float64 F⦄ (rt : Runtime) (p : Prober F D P C K S) where
  unfoldable pub run : Call F → State D P C → State D P C
  run (registers req now) s = record s {
    indexers = (register rt p.indexer_reg req now s.indexers).1;
  }
  run (heartbeats peer_id req now) s = record s {
    indexers = (heartbeat rt p.indexer_reg peer_id req now s.indexers).1;
  }
  run (deregisters peer_id) s = record s {
    indexers = (deregister rt p.indexer_reg peer_id s.indexers).1;
  }
  run (probes times) s = probe_all rt p times s

  unfoldable pub run_all : List (Call F) → State D P C → State D P C
  run_all [] s = s
  run_all (call ∷ calls) s = run_all calls (run call s)

-- What a heartbeat and a deregistration write.
abbrev pub heard : {F : Type 0} → Runtime → HeartbeatRequest → ℤ → IndexerRecord F → IndexerRecord F
heard rt req now i = record i {
  current_tip = req.current_tip;
  snapshot_ranges = req.snapshot_ranges;
  last_heartbeat = rt.format_time now;
  status = Status.active;
}

abbrev pub left : {F : Type 0} → IndexerRecord F → IndexerRecord F
left i = record i { status = Status.inactive }
