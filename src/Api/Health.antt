-- ===== src/Api/Health.antt =====
-- pkg/api/handlers/health.go and metrics.go: counts of the nodes and subscriptions on record.
pub mod Counts
use package.shinzo_scheduler_service.Base.{ℕ, ◌+◌, String, List, Result, ok, err, length}
use package.shinzo_scheduler_service.Base.Int.{ℤ, pos}
use package.shinzo_scheduler_service.Base.Float.{Float64, zero_F}
use package.shinzo_scheduler_service.Store.Records.{
  IndexerRecord, HostRecord, SubscriptionRecord, ProbeResultRecord,
}
use package.shinzo_scheduler_service.Store.Db.{Db}
use package.shinzo_scheduler_service.Store.Status
use package.shinzo_scheduler_service.Store.IndexerStore
use package.shinzo_scheduler_service.Store.HostStore
use package.shinzo_scheduler_service.Store.SubscriptionStore
use package.shinzo_scheduler_service.Store.ProbeStore
use package.shinzo_scheduler_service.Api.Reply.{
  Reply, write_json, write_error, status_ok, status_internal_server_error,
}

-- pkg/api/dto/types.go
pub record StatsResponse : Type 0 where
  pub active_indexers : ℕ
  pub active_hosts : ℕ
  pub subscriptions : ℕ

pub record MetricsResponse (F : Type 0) : Type 0 where
  pub active_indexers : ℕ
  pub inactive_indexers : ℕ
  pub active_hosts : ℕ
  pub active_subs : ℕ
  pub pending_subs : ℕ
  pub expired_subs : ℕ
  pub probe_success_rate : F

-- The stores of `HealthHandler` and `MetricsHandler`.
pub record HealthHandler (F D H S P : Type 0) : Type 0 where
  pub indexer_st : Db D (IndexerRecord F)
  pub host_st : Db H HostRecord
  pub sub_st : Db S SubscriptionRecord
  pub probe_st : Db P ProbeResultRecord

-- The collections that the handlers read.
pub record Collections (D H S P : Type 0) : Type 0 where
  pub indexers : D
  pub hosts : H
  pub subs : S
  pub probes : P

-- The number of an answer whose error is logged only.
abbrev pub number_of : {A : Type 0} → A → Result A → A
number_of zero_value (ok n) = n
number_of zero_value (err e) = zero_value

unfoldable pub health : Reply String
health = write_json status_ok "ok"

module _ {F D H S P : Type 0} ⦃fl : Float64 F⦄ (h : HealthHandler F D H S P) where
  unfoldable pub count_subs : S → Result ℕ
  count_subs d = elim (SubscriptionStore.list_by_status h.sub_st Status.active d) [
    | err e ↦ err e
    | ok active ↦ elim (SubscriptionStore.list_by_status h.sub_st Status.pending d) [
      | err e ↦ err e
      | ok pending ↦ ok (length active + length pending)
    ]
  ]

  unfoldable pub stats : Collections D H S P → Reply StatsResponse
  stats c = elim (IndexerStore.count h.indexer_st Status.active c.indexers) [
    | err e ↦ write_error status_internal_server_error "internal error"
    | ok ai ↦ elim (HostStore.count h.host_st Status.active c.hosts) [
      | err e ↦ write_error status_internal_server_error "internal error"
      | ok ah ↦ elim (count_subs c.subs) [
        | err e ↦ write_error status_internal_server_error "internal error"
        | ok subs ↦
            write_json status_ok
              (record { active_indexers = ai; active_hosts = ah; subscriptions = subs })
      ]
    ]
  ]

  -- The length of the list that comes with an error is 0.
  unfoldable pub sub_count : String → S → ℕ
  sub_count status d = number_of 0 (elim (SubscriptionStore.list_by_status h.sub_st status d) [
    | err e ↦ err e
    | ok recs ↦ ok (length recs)
  ])

  unfoldable pub metrics : Collections D H S P → Reply (MetricsResponse F)
  unfolding sub_count
  metrics c = write_json status_ok (record {
    active_indexers = number_of 0 (IndexerStore.count h.indexer_st Status.active c.indexers);
    inactive_indexers = number_of 0 (IndexerStore.count h.indexer_st Status.inactive c.indexers);
    active_hosts = number_of 0 (HostStore.count h.host_st Status.active c.hosts);
    active_subs = sub_count Status.active c.subs;
    pending_subs = sub_count Status.pending c.subs;
    expired_subs = sub_count Status.expired c.subs;
    probe_success_rate =
        number_of zero_F (ProbeStore.recent_success_rate h.probe_st (pos 100) c.probes);
  })
