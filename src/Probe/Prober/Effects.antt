-- ===== src/Probe/Prober/Effects.antt =====
-- What a probe of pkg/probe/prober.go writes to the collections.
use package.shinzo_scheduler_service.Base.{
  String, ◌≡◌, refl, ap, ◌⊎◌, inl, inr, Bool, true, false, ◌&&◌, not, Option, none, some, List, [],
  ◌∷◌, ◌++◌, map, ◌==◌, if◌then◌else◌, arith,
}
use package.shinzo_scheduler_service.Base.Int.{ℤ}
use package.shinzo_scheduler_service.Base.Time.{Runtime}
use package.shinzo_scheduler_service.Base.Float.{Float64}
use package.shinzo_scheduler_service.Store.Records.{IndexerRecord, ContradictionRecord}
use package.shinzo_scheduler_service.Store.Db.{Db, LawfulDb, write_at}
use package.shinzo_scheduler_service.Store.Documents.{indexer_document, contradiction_document}
use package.shinzo_scheduler_service.Store.IndexerStore.Answers.{update_docs}
use package.shinzo_scheduler_service.Store.ContradictionStore
use package.shinzo_scheduler_service.Store.ContradictionStore.Answers as Contradictions
use package.shinzo_scheduler_service.Registry.Indexers.{update_reliability}
use package.shinzo_scheduler_service.Discovery.Pricing.{update_ema}
use package.shinzo_scheduler_service.Probe.Prober.{
  Prober, State, fetch_health, new_status, declares_snapshots, contradiction_of,
  record_contradiction, probe_one,
}

module _ {F D P C K S : Type 0} ⦃fl : Float64 F⦄ (rt : Runtime) (p : Prober F D P C K S) where
  -- What the probe of a listed indexer writes to its document: the tip is 0 if the probe fails, and
  -- the time of the last heartbeat is that of the probe.
  abbrev pub probed : IndexerRecord F → ℤ → ℤ → IndexerRecord F → IndexerRecord F
  probed idx threshold now i = record i {
    reliability_score = update_ema idx.reliability_score (fetch_health rt p idx.http_url).1;
    current_tip = (fetch_health rt p idx.http_url).0;
    last_heartbeat = rt.format_time now;
    status =
        if new_status rt p idx threshold now == ""
        then i.status
        else new_status rt p idx threshold now;
  }

  recording-indexers :
      (st : Option (Db C ContradictionRecord)) (idx : IndexerRecord F) (now : ℤ) (c : Bool)
      (s : State D P C)
      → (if c then (record_contradiction rt p st idx now s).1 else s).indexers ≡ s.indexers
  unfolding record_contradiction
  recording-indexers none idx now true s = refl
  recording-indexers none idx now false s = refl
  recording-indexers (some st) idx now true s = refl
  recording-indexers (some st) idx now false s = refl

  -- Only the last step writes to the indexers.
  pub probe_one-indexers :
      (idx : IndexerRecord F) (threshold start now : ℤ) (s : State D P C)
      → (probe_one rt p idx threshold start now s).1.indexers
        ≡ (update_reliability rt p.indexer_reg idx.doc_id
            (update_ema idx.reliability_score (fetch_health rt p idx.http_url).1)
            (fetch_health rt p idx.http_url).0
            (new_status rt p idx threshold now)
            now
            s.indexers).1
  unfolding probe_one
  probe_one-indexers idx threshold start now s =
      ap
        (λ d.
          (update_reliability rt p.indexer_reg idx.doc_id
            (update_ema idx.reliability_score (fetch_health rt p idx.http_url).1)
            (fetch_health rt p idx.http_url).0 (new_status rt p idx threshold now) now d).1)
        (recording-indexers p.contradiction_st idx now _ _)

  module _ (docs : D → List (IndexerRecord F))
      (lawful : LawfulDb indexer_document p.indexer_reg.indexer_st docs) where
    pub probe_one-docs :
        (idx : IndexerRecord F) (threshold start now : ℤ) (s : State D P C)
        → (docs (probe_one rt p idx threshold start now s).1.indexers ≡ docs s.indexers)
          ⊎ (docs (probe_one rt p idx threshold start now s).1.indexers
              ≡ map
                  (write_at indexer_document idx.doc_id (probed idx threshold now))
                  (docs s.indexers))
    unfolding update_reliability
    probe_one-docs idx threshold start now s = rw (probe_one-indexers idx threshold start now s) (
        update_docs p.indexer_reg.indexer_st docs lawful idx.doc_id (probed idx threshold now)
          s.indexers)

  -- The contradictions after the steps on the probes' history.
  probe_one-contradictions :
      (idx : IndexerRecord F) (threshold start now : ℤ) (s : State D P C)
      (st : Db C ContradictionRecord)
      → p.contradiction_st ≡ some st
      → (probe_one rt p idx threshold start now s).1.contradictions ≡ (
          if not (fetch_health rt p idx.http_url).1 && declares_snapshots rt p idx
          then (ContradictionStore.create st (contradiction_of rt p idx now) s.contradictions).1
          else s.contradictions)
  unfolding probe_one record_contradiction
  probe_one-contradictions idx threshold start now s st e = ground arith

  module _ (st : Db C ContradictionRecord) (recorded : p.contradiction_st ≡ some st)
      (docs : C → List ContradictionRecord) (lawful : LawfulDb contradiction_document st docs) where
    -- A contradiction is recorded only if the health request fails and snapshots are declared; it
    -- names the indexer and its snapshots and is not resolved.
    pub probe_one-contradictions-docs :
        (idx : IndexerRecord F) (threshold start now : ℤ) (s : State D P C)
        → (docs (probe_one rt p idx threshold start now s).1.contradictions ≡ docs s.contradictions)
          ⊎ (((fetch_health rt p idx.http_url).1 ≡ false)
              × (declares_snapshots rt p idx ≡ true)
              × (id : String) × (docs (probe_one rt p idx threshold start now s).1.contradictions
                  ≡ docs s.contradictions
                    ++ record (contradiction_of rt p idx now) { doc_id = id } ∷ []))
    probe_one-contradictions-docs idx threshold start now s =
        rw (probe_one-contradictions idx threshold start now s st recorded)
          (written (fetch_health rt p idx.http_url).1 (declares_snapshots rt p idx))
      where
        written :
            (success declared : Bool)
            → (docs (
                  if not success && declared
                  then (ContradictionStore.create st
                      (contradiction_of rt p idx now)
                      s.contradictions).1
                  else s.contradictions)
                ≡ docs s.contradictions)
              ⊎ ((success ≡ false)
                  × (declared ≡ true)
                  × (id : String) × (docs (
                        if not success && declared
                        then (ContradictionStore.create st
                            (contradiction_of rt p idx now)
                            s.contradictions).1
                        else s.contradictions)
                      ≡ docs s.contradictions
                        ++ record (contradiction_of rt p idx now) { doc_id = id } ∷ []))
        written true declared = inl refl
        written false false = inl refl
        written false true =
            elim (Contradictions.create_docs st docs lawful (contradiction_of rt p idx now)
              s.contradictions) [
                | inl same ↦ inl same
                | inr (id, grown) ↦ inr (refl, refl, id, grown)
              ]
