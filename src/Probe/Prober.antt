-- ===== src/Probe/Prober.antt =====
-- pkg/probe/prober.go. The health requests of a round run side by side in the source; here a round
-- makes them one after another, in the order of the list, each with the times at which it starts and
-- ends.
pub mod Effects
pub mod Scores
pub mod Rounds
pub mod Changes
pub mod Runs
pub mod Silence
pub mod Loop
use Prim.Native.String.{◌++◌}
use package.shinzo_scheduler_service.Base.{
  ℕ, zero, suc, ◌/◌, String, Bool, true, false, ◌&&◌, not, Option, none, some, is_some, List, [],
  ◌∷◌, Result, ok, err, Action, ◌>>◌, pure, attempt, attempt_if, ◌==◌, if◌then◌else◌,
}
use package.shinzo_scheduler_service.Base.Int.{ℤ, pos, negsuc, ltb_ℤ, eqb_ℤ}
use package.shinzo_scheduler_service.Base.Time.{Runtime, minutes, since}
use package.shinzo_scheduler_service.Base.Float.{Float64}
use package.shinzo_scheduler_service.Store.Records.{
  IndexerRecord, ProbeResultRecord, ContradictionRecord,
}
use package.shinzo_scheduler_service.Store.Db.{Db}
use package.shinzo_scheduler_service.Store.Status
use package.shinzo_scheduler_service.Store.IndexerStore
use package.shinzo_scheduler_service.Store.ProbeStore
use package.shinzo_scheduler_service.Store.ContradictionStore
use package.shinzo_scheduler_service.Registry.Indexers.{IndexerRegistry, update_reliability}
use package.shinzo_scheduler_service.Discovery.Pricing.{update_ema}
use package.shinzo_scheduler_service.Config.{ProbeConfig}

-- The answer to `GET /health`: its status, and the current block, if the body can be decoded.
pub record HealthAnswer : Type 0 where
  pub status_code : ℤ
  pub current_block : Option ℤ

-- `get` is `httpClient.Get`, `none` if it fails. `show_millis` is `%d` of a time in milliseconds.
-- `contradiction_st` is `none` where contradictions are not recorded.
pub record Prober (F D P C K S : Type 0) : Type 0 where
  pub cfg : ProbeConfig
  pub indexer_reg : IndexerRegistry F D K S
  pub indexer_st : Db D (IndexerRecord F)
  pub probe_st : Db P ProbeResultRecord
  pub contradiction_st : Option (Db C ContradictionRecord)
  pub get : String → Option HealthAnswer
  pub show_millis : ℤ → String

-- The collections of indexers, probe results and contradictions.
pub record State (D P C : Type 0) : Type 0 where
  pub indexers : D
  pub probes : P
  pub contradictions : C

module _ {D P C T : Type 0} where
  abbrev pub on_indexers : Action D T → Action (State D P C) T
  on_indexers m s = let (r, d) = m s.indexers in (r, record s { indexers = d })

  abbrev pub on_probes : Action P T → Action (State D P C) T
  on_probes m s = let (r, d) = m s.probes in (r, record s { probes = d })

  abbrev pub on_contradictions : Action C T → Action (State D P C) T
  on_contradictions m s = let (r, d) = m s.contradictions in (r, record s { contradictions = d })

-- `d.Milliseconds()`, rounded towards 0.
unfoldable pub milliseconds : ℤ → ℤ
milliseconds (pos n) = pos (n / 1000000)
milliseconds (negsuc n) = elim (suc n / 1000000) [ zero ↦ pos 0 | suc m ↦ negsuc m ]

-- The tip and whether the answer counts: it has the status 200 and a body that can be decoded.
unfoldable pub health_of : Option HealthAnswer → ℤ × Bool
health_of none = (pos 0, false)
health_of (some answer) =
    if not (eqb_ℤ answer.status_code (pos 200))
    then (pos 0, false)
    else elim (answer.current_block) [ none ↦ (pos 0, false) | some block ↦ (block, true) ]

module _ {F D P C K S : Type 0} ⦃fl : Float64 F⦄ (rt : Runtime) (p : Prober F D P C K S) where
  unfoldable pub fetch_health : String → ℤ × Bool
  unfolding health_of
  fetch_health http_url = health_of (p.get (http_url ++ "/health"))

  -- `newStatus`: "inactive" after a heartbeat silence longer than the threshold, or "".
  unfoldable pub new_status : IndexerRecord F → ℤ → ℤ → String
  new_status idx threshold now =
      if idx.last_heartbeat == "" then "" else elim (rt.parse_time idx.last_heartbeat) [
        | none ↦ ""
        | some last ↦
            if ltb_ℤ threshold (since now last) && idx.status == Status.active
            then Status.inactive
            else ""
      ]

  abbrev pub result_of : IndexerRecord F → ℤ → ℤ → ProbeResultRecord
  result_of idx start now = record {
    doc_id = "";
    indexer_id = idx.peer_id;
    probed_at = rt.format_time start;
    success = (fetch_health idx.http_url).1;
    tip = (fetch_health idx.http_url).0;
    latency_ms = milliseconds (since now start);
  }

  abbrev pub contradiction_of : IndexerRecord F → ℤ → ContradictionRecord
  contradiction_of idx now = record {
    doc_id = "";
    evidence_id = "probe-" ++ idx.peer_id ++ "-" ++ p.show_millis now;
    indexer_id = idx.peer_id;
    snapshot_range = idx.snapshot_ranges;
    probed_at = rt.format_time now;
    resolved = false;
  }

  -- Snapshots are declared.
  abbrev pub declares_snapshots : IndexerRecord F → Bool
  declares_snapshots idx = not (idx.snapshot_ranges == "") && not (idx.snapshot_ranges == "[]")

  unfoldable pub record_contradiction :
      Option (Db C ContradictionRecord) → IndexerRecord F → ℤ → Action (State D P C) (Unit {0})
  record_contradiction none idx now = pure tt
  record_contradiction (some st) idx now =
      attempt (on_contradictions (ContradictionStore.create st (contradiction_of idx now)))

  -- Errors of single steps are logged and dropped.
  unfoldable pub probe_one : IndexerRecord F → ℤ → ℤ → ℤ → Action (State D P C) (Unit {0})
  unfolding fetch_health new_status record_contradiction
  probe_one idx threshold start now = do
    let health = fetch_health idx.http_url
    attempt (on_probes (ProbeStore.insert p.probe_st (result_of idx start now)))
    attempt (on_probes (ProbeStore.prune_oldest p.probe_st idx.peer_id p.cfg.probe_history_limit))
    attempt_if (not health.1 && declares_snapshots idx)
        (record_contradiction p.contradiction_st idx now)
    attempt (
        on_indexers (
          update_reliability rt p.indexer_reg idx.doc_id (update_ema idx.reliability_score health.1)
            health.0 (new_status idx threshold now) now))

  -- `times` gives the times at which the probe of an indexer starts and ends.
  unfoldable pub probe_each :
      List (IndexerRecord F) → ℤ → (IndexerRecord F → ℤ × ℤ) → State D P C → State D P C
  probe_each [] threshold times s = s
  probe_each (idx ∷ indexers) threshold times s =
      probe_each indexers threshold times (probe_one idx threshold (times idx).0 (times idx).1 s).1

  unfoldable pub probe_all : (IndexerRecord F → ℤ × ℤ) → State D P C → State D P C
  probe_all times s = elim (IndexerStore.list_all_active p.indexer_st s.indexers) [
    | err e ↦ s
    | ok indexers ↦ probe_each indexers (minutes p.cfg.inactive_after_minutes) times s
  ]
