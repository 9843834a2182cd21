-- ===== src/Api/Health/Counts.antt =====
-- What the counts of pkg/api/handlers/health.go count.
use package.shinzo_scheduler_service.Base.{
  ℕ, ◌+◌, String, ◌≡◌, refl, ap, ◌∙◌, inl, inr, Result, ok, err, Result-cases, List, length, filter,
  ◌==◌, arith,
}
use package.shinzo_scheduler_service.Base.Float.{Float64}
use package.shinzo_scheduler_service.Store.Records.{IndexerRecord, HostRecord, SubscriptionRecord}
use package.shinzo_scheduler_service.Store.Db.{LawfulDb}
use package.shinzo_scheduler_service.Store.Documents.{
  indexer_document, host_document, subscription_document,
}
use package.shinzo_scheduler_service.Store.Status
use package.shinzo_scheduler_service.Store.Queries.{query_many-ok, count_of}
use package.shinzo_scheduler_service.Store.IndexerStore
use package.shinzo_scheduler_service.Store.HostStore
use package.shinzo_scheduler_service.Store.SubscriptionStore
use package.shinzo_scheduler_service.Store.SubscriptionStore.Answers.{list_by_status-ok}
use package.shinzo_scheduler_service.Api.Reply.{write_json}
use package.shinzo_scheduler_service.Api.Health.{
  HealthHandler, Collections, StatsResponse, count_subs, stats,
}

count_of-ok :
    {R : Type 0} (r : Result (List R)) (n : ℕ)
    → count_of r ≡ ok n
    → (rs : List R) × (r ≡ ok rs) × (n ≡ length rs)
count_of-ok (ok rs) n h = (rs, refl, ground arith)
count_of-ok (err e) n h = absurd (cc)

module _ {F D H S P : Type 0} ⦃fl : Float64 F⦄ (h : HealthHandler F D H S P)
    (indexers : D → List (IndexerRecord F))
    (lawful_indexers : LawfulDb indexer_document h.indexer_st indexers)
    (hosts : H → List HostRecord) (lawful_hosts : LawfulDb host_document h.host_st hosts)
    (subs : S → List SubscriptionRecord)
    (lawful_subs : LawfulDb subscription_document h.sub_st subs) where
  indexer_count-ok :
      (status : String) (d : D) (n : ℕ)
      → IndexerStore.count h.indexer_st status d ≡ ok n
      → n ≡ length (filter (λ r. r.status == status) (indexers d))
  unfolding IndexerStore.count
  indexer_count-ok status d n e =
      let (rs, q, counted) = count_of-ok _ n e in
      counted ∙ ap length (query_many-ok lawful_indexers "query indexer" _ d rs q)

  host_count-ok :
      (status : String) (d : H) (n : ℕ)
      → HostStore.count h.host_st status d ≡ ok n
      → n ≡ length (filter (λ r. r.status == status) (hosts d))
  unfolding HostStore.count
  host_count-ok status d n e =
      let (rs, q, counted) = count_of-ok _ n e in
      counted ∙ ap length (query_many-ok lawful_hosts "query host" _ d rs q)

  abbrev with_status : String → S → ℕ
  with_status status d = length (filter (λ r. r.status == status) (subs d))

  count_subs-ok :
      (d : S) (n : ℕ)
      → count_subs h d ≡ ok n
      → n ≡ with_status Status.active d + with_status Status.pending d
  unfolding count_subs
  count_subs-ok d n e =
      elim (Result-cases (SubscriptionStore.list_by_status h.sub_st Status.active d)) [
        | inr (t, q) ↦ absurd (ground arith)
        | inl (active, q) ↦
            elim (Result-cases (SubscriptionStore.list_by_status h.sub_st Status.pending d)) [
              | inr (t, r) ↦ absurd (ground arith)
              | inl (pending, r) ↦ omega (
                arith,
                total active pending q r,
                ap length (list_by_status-ok h.sub_st subs lawful_subs Status.active d active q),
                ap length (list_by_status-ok h.sub_st subs lawful_subs Status.pending d pending r),
              )
            ]
      ]
    where
      total :
          (active pending : List SubscriptionRecord)
          → SubscriptionStore.list_by_status h.sub_st Status.active d ≡ ok active
          → SubscriptionStore.list_by_status h.sub_st Status.pending d ≡ ok pending
          → n ≡ length active + length pending
      total active pending q r = ground arith

  -- Statistics that are given count the active indexers and hosts on record, and the subscriptions
  -- that are active or pending.
  pub stats-counts :
      (c : Collections D H S P) (answer : StatsResponse)
      → stats h c ≡ write_json 200 answer
      → (answer.active_indexers
          ≡ length (filter (λ r. r.status == Status.active) (indexers c.indexers)))
        × (answer.active_hosts ≡ length (filter (λ r. r.status == Status.active) (hosts c.hosts)))
        × (answer.subscriptions
            ≡ length (filter (λ r. r.status == Status.active) (subs c.subs))
              + length (filter (λ r. r.status == Status.pending) (subs c.subs)))
  unfolding stats
  stats-counts c answer e =
      elim (Result-cases (IndexerStore.count h.indexer_st Status.active c.indexers)) [
        | inr (t, q) ↦ absurd (ground arith)
        | inl (ai, q) ↦ elim (Result-cases (HostStore.count h.host_st Status.active c.hosts)) [
          | inr (t, r) ↦ absurd (ground arith)
          | inl (ah, r) ↦ elim (Result-cases (count_subs h c.subs)) [
            | inr (t, v) ↦ absurd (ground arith)
            | inl (n, v) ↦ (
              ground (arith, indexer_count-ok Status.active c.indexers ai q),
              ground (arith, host_count-ok Status.active c.hosts ah r),
              ground (arith, count_subs-ok c.subs n v),
            )
          ]
        ]
      ]
