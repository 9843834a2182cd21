-- ===== src/Probe/Prober/Silence.antt =====
-- The silence after which the prober of pkg/probe/prober.go marks an indexer inactive, and what the
-- prober itself makes of it.
use package.shinzo_scheduler_service.Base.{
  String, ◌≡◌, refl, ap, ◌∙◌, inl, inr, false, List, [], ◌∷◌, map, some, arith, eq_iff, first,
  filter, ok, ◌==◌,
}
use package.shinzo_scheduler_service.Base.Int.{ℤ, ltb_ℤ}
use package.shinzo_scheduler_service.Base.Time.{Runtime, since}
use package.shinzo_scheduler_service.Base.Float.{Float64}
use package.shinzo_scheduler_service.Store.Records.{IndexerRecord}
use package.shinzo_scheduler_service.Store.Db.{LawfulDb, write_at}
use package.shinzo_scheduler_service.Store.Documents.{indexer_document}
use package.shinzo_scheduler_service.Store.IndexerStore.Answers.{update-ok}
use package.shinzo_scheduler_service.Registry.Indexers.{update_reliability}
use package.shinzo_scheduler_service.Discovery.Pricing.{update_ema}
use package.shinzo_scheduler_service.Probe.Prober.{
  Prober, State, new_status, probe_one, fetch_health,
}
use package.shinzo_scheduler_service.Probe.Prober.Effects.{
  probed, probe_one-docs, probe_one-indexers,
}

abbrev pub statuses : {F : Type 0} → List (IndexerRecord F) → List String
statuses rs = map (λ i. i.status) rs

module _ {F D P C K S : Type 0} ⦃fl : Float64 F⦄ (rt : Runtime) (p : Prober F D P C K S)
    (docs : D → List (IndexerRecord F))
    (lawful : LawfulDb indexer_document p.indexer_reg.indexer_st docs) where
  new_status-recent :
      (idx : IndexerRecord F) (threshold now last : ℤ)
      → rt.parse_time idx.last_heartbeat ≡ some last
      → ltb_ℤ threshold (since now last) ≡ false
      → new_status rt p idx threshold now ≡ ""
  unfolding new_status
  new_status-recent idx threshold now last e recent = ground arith

  statuses-write :
      (id : String) (idx : IndexerRecord F) (threshold now : ℤ)
      → new_status rt p idx threshold now ≡ ""
      → (rs : List (IndexerRecord F))
      → statuses (map (write_at indexer_document id (probed rt p idx threshold now)) rs)
        ≡ statuses rs
  statuses-write id idx threshold now e [] = refl
  statuses-write id idx threshold now e (r ∷ rs) = ground (
    arith,
    eq_iff (new_status rt p idx threshold now) "",
    statuses-write id idx threshold now e rs,
  )

  -- The write of a probe leaves the time of the probe as that of the last heartbeat.
  probed-heartbeat :
      (listed found : IndexerRecord F) (threshold before : ℤ) (rs : List (IndexerRecord F))
      → first (
          filter
            (λ r. r.doc_id == listed.doc_id)
            (map
              (write_at indexer_document listed.doc_id (probed rt p listed threshold before))
              rs))
        ≡ some found
      → found.last_heartbeat ≡ rt.format_time before
  probed-heartbeat listed found threshold before [] h = absurd (cc)
  probed-heartbeat listed found threshold before (r ∷ rs) h =
      ground (arith, probed-heartbeat listed found threshold before rs)

  probe_one-written :
      (listed : IndexerRecord F) (threshold start now : ℤ) (s : State D P C)
      → (update_reliability rt p.indexer_reg listed.doc_id
          (update_ema listed.reliability_score (fetch_health rt p listed.http_url).1)
          (fetch_health rt p listed.http_url).0
          (new_status rt p listed threshold now)
          now
          s.indexers).0
        ≡ ok tt
      → docs (probe_one rt p listed threshold start now s).1.indexers
        ≡ map
            (write_at indexer_document listed.doc_id (probed rt p listed threshold now))
            (docs s.indexers)
  unfolding update_reliability
  probe_one-written listed threshold start now s w =
      rw (probe_one-indexers rt p listed threshold start now s) (
        update-ok p.indexer_reg.indexer_st docs lawful listed.doc_id
          (probed rt p listed threshold now) s.indexers w)

  -- A probe, successful or not, whose write to the indexer succeeds, and then another of the record
  -- that it left: if the time from the one to the other is within the threshold, the second changes
  -- no status, however long the indexer has sent no heartbeat.
  pub probe_again-statuses :
      (listed found : IndexerRecord F) (threshold start before start_again now last : ℤ)
      (s after : State D P C)
      → (probe_one rt p listed threshold start before s).1 ≡ after
      → (update_reliability rt p.indexer_reg listed.doc_id
          (update_ema listed.reliability_score (fetch_health rt p listed.http_url).1)
          (fetch_health rt p listed.http_url).0
          (new_status rt p listed threshold before)
          before
          s.indexers).0
        ≡ ok tt
      → first (filter (λ r. r.doc_id == listed.doc_id) (docs after.indexers)) ≡ some found
      → rt.parse_time (rt.format_time before) ≡ some last
      → ltb_ℤ threshold (since now last) ≡ false
      → statuses (docs (probe_one rt p found threshold start_again now after).1.indexers)
        ≡ statuses (docs after.indexers)
  probe_again-statuses listed found threshold start before start_again now last s after first_probe
        written on_file e recent =
      let left = probe_one-written listed threshold start before s written in
      let beat : found.last_heartbeat ≡ rt.format_time before =
        probed-heartbeat listed found threshold before (docs s.indexers)
          (rw (← left, first_probe) on_file) in
      elim (probe_one-docs rt p docs lawful found threshold start_again now after) [
        | inl same ↦ ap statuses same
        | inr again ↦
            ap statuses again
            ∙ statuses-write found.doc_id found threshold now
                (new_status-recent found threshold now last (rw beat e) recent)
                (docs after.indexers)
      ]
