-- ===== src/Probe/Prober/Runs.antt =====
-- The calls of pkg/registry/indexer_registry.go and pkg/probe/prober.go as steps of the indexers on
-- record.
use package.shinzo_scheduler_service.Base.{
  String, ◌≡◌, refl, inl, inr, List, [], ◌∷◌, none, some, Result-cases, arith, sym, subst, All,
}
use package.shinzo_scheduler_service.Base.Int.{ℤ}
use package.shinzo_scheduler_service.Base.Time.{Runtime, minutes}
use package.shinzo_scheduler_service.Base.Float.{Float64}
use package.shinzo_scheduler_service.Base.Unique.{All-filter}
use package.shinzo_scheduler_service.Store.Records.{IndexerRecord}
use package.shinzo_scheduler_service.Store.Db.{LawfulDb}
use package.shinzo_scheduler_service.Store.Documents.{indexer_document}
use package.shinzo_scheduler_service.Store.IndexerStore
use package.shinzo_scheduler_service.Store.IndexerStore.Answers.{
  get_by_peer_id-ok, list_all_active-ok, create_docs, update_docs,
}
use package.shinzo_scheduler_service.Registry.Indexers.{
  RegisterIndexerRequest, HeartbeatRequest, register, heartbeat, deregister, verify_registration,
  indexer_of, reregistered,
}
use package.shinzo_scheduler_service.Probe.Prober.{Prober, State, probe_one, probe_each, probe_all}
use package.shinzo_scheduler_service.Probe.Prober.Effects.{probed, probe_one-docs}
use package.shinzo_scheduler_service.Probe.Prober.Rounds.{
  Call, registers, heartbeats, deregisters, probes, run, run_all, heard, left,
}
use package.shinzo_scheduler_service.Probe.Prober.Changes.{
  Change, Changes, written, Changes-append, one, Changes-All,
}

-- `P` holds of what a registration makes, and each write keeps it.
module _ {F D P' C K S : Type 0} ⦃fl : Float64 F⦄ (rt : Runtime) (p : Prober F D P' C K S)
    (docs : D → List (IndexerRecord F))
    (lawful : LawfulDb indexer_document p.indexer_reg.indexer_st docs)
    (lawful_listing : LawfulDb indexer_document p.indexer_st docs) (P : IndexerRecord F → Type 0)
    (registered_P : (req : RegisterIndexerRequest) (now : ℤ) (id : String)
      → P (record (indexer_of rt p.indexer_reg req now) { doc_id = id }))
    (reregistered_P : (req : RegisterIndexerRequest) (i : IndexerRecord F)
      → P i
      → P (reregistered rt p.indexer_reg req i))
    (heard_P : (req : HeartbeatRequest) (now : ℤ) (i : IndexerRecord F)
      → P i
      → P (heard rt req now i))
    (left_P : (i : IndexerRecord F) → P i → P (left i))
    (probed_P : (idx : IndexerRecord F) (threshold now : ℤ)
      → P idx
      → (i : IndexerRecord F) → P i
      → P (probed rt p idx threshold now i)) where
  register-Change :
      (req : RegisterIndexerRequest) (now : ℤ) (d : D)
      → Change P (docs d) (docs (register rt p.indexer_reg req now d).1)
  unfolding register
  register-Change req now d = elim (Result-cases (verify_registration rt p.indexer_reg req)) [
    | inr (e, q) ↦
        let same : (register rt p.indexer_reg req now d).1 ≡ d = ground arith in
        rw same (Change.kept _ refl)
    | inl (t, q) ↦
        elim (Result-cases (IndexerStore.get_by_peer_id p.indexer_reg.indexer_st req.peer_id d)) [
          | inr (e, q') ↦
              let same : (register rt p.indexer_reg req now d).1 ≡ d = ground arith in
              rw same (Change.kept _ refl)
          | inl (none, q') ↦
              let new = indexer_of rt p.indexer_reg req now in
              let same : (register rt p.indexer_reg req now d).1
                  ≡ (IndexerStore.create p.indexer_reg.indexer_st new d).1 =
                ground arith in
              rw same (elim (create_docs p.indexer_reg.indexer_st docs lawful new d) [
                | inl e ↦ Change.kept _ e
                | inr (id, e) ↦
                    Change.added (record new { doc_id = id }) _
                      (sym (
                        get_by_peer_id-ok p.indexer_reg.indexer_st docs lawful req.peer_id d none
                          q'))
                      (registered_P req now id) e
              ])
          | inl (some found, q') ↦
              let f = reregistered rt p.indexer_reg req in
              let same : (register rt p.indexer_reg req now d).1
                  ≡ (IndexerStore.update p.indexer_reg.indexer_st found.doc_id f d).1 =
                ground arith in
              rw same (
                written P found.doc_id f (docs d) _ (λ i. refl) (λ i. refl) (reregistered_P req)
                  (update_docs p.indexer_reg.indexer_st docs lawful found.doc_id f d))
        ]
  ]

  heartbeat-Change :
      (peer_id : String) (req : HeartbeatRequest) (now : ℤ) (d : D)
      → Change P (docs d) (docs (heartbeat rt p.indexer_reg peer_id req now d).1)
  unfolding heartbeat
  heartbeat-Change peer_id req now d =
      elim (Result-cases (IndexerStore.get_by_peer_id p.indexer_reg.indexer_st peer_id d)) [
        | inr (e, q) ↦
            let same : (heartbeat rt p.indexer_reg peer_id req now d).1 ≡ d = ground arith in
            rw same (Change.kept _ refl)
        | inl (none, q) ↦
            let same : (heartbeat rt p.indexer_reg peer_id req now d).1 ≡ d = ground arith in
            rw same (Change.kept _ refl)
        | inl (some found, q) ↦
            let f = heard rt req now in
            let same : (heartbeat rt p.indexer_reg peer_id req now d).1
                ≡ (IndexerStore.update p.indexer_reg.indexer_st found.doc_id f d).1 =
              ground arith in
            rw same (
              written P found.doc_id f (docs d) _ (λ i. refl) (λ i. refl) (heard_P req now)
                (update_docs p.indexer_reg.indexer_st docs lawful found.doc_id f d))
      ]

  deregister-Change :
      (peer_id : String) (d : D)
      → Change P (docs d) (docs (deregister rt p.indexer_reg peer_id d).1)
  unfolding deregister
  deregister-Change peer_id d =
      elim (Result-cases (IndexerStore.get_by_peer_id p.indexer_reg.indexer_st peer_id d)) [
        | inr (e, q) ↦
            let same : (deregister rt p.indexer_reg peer_id d).1 ≡ d = ground arith in
            rw same (Change.kept _ refl)
        | inl (none, q) ↦
            let same : (deregister rt p.indexer_reg peer_id d).1 ≡ d = ground arith in
            rw same (Change.kept _ refl)
        | inl (some found, q) ↦
            let same : (deregister rt p.indexer_reg peer_id d).1
                ≡ (IndexerStore.update p.indexer_reg.indexer_st found.doc_id left d).1 =
              ground arith in
            rw same (
              written P found.doc_id left (docs d) _ (λ i. refl) (λ i. refl) left_P
                (update_docs p.indexer_reg.indexer_st docs lawful found.doc_id left d))
      ]

  probe_each-Changes :
      (indexers : List (IndexerRecord F)) (threshold : ℤ) (times : IndexerRecord F → ℤ × ℤ)
      (s : State D P' C)
      → All P indexers
      → Changes P (docs s.indexers) (docs (probe_each rt p indexers threshold times s).indexers)
  unfolding probe_each
  probe_each-Changes [] threshold times s listed = Changes.done _
  probe_each-Changes (idx ∷ indexers) threshold times s listed =
      Changes.step (docs s.indexers) _ _
        (written P idx.doc_id (probed rt p idx threshold (times idx).1) (docs s.indexers) _
          (λ i. refl) (λ i. refl) (probed_P idx threshold (times idx).1 listed.0)
          (probe_one-docs rt p docs lawful idx threshold (times idx).0 (times idx).1 s))
        (probe_each-Changes indexers threshold times
          (probe_one rt p idx threshold (times idx).0 (times idx).1 s).1 listed.1)

  probe_all-Changes :
      (times : IndexerRecord F → ℤ × ℤ) (s : State D P' C)
      → All P (docs s.indexers)
      → Changes P (docs s.indexers) (docs (probe_all rt p times s).indexers)
  unfolding probe_all
  probe_all-Changes times s h =
      elim (Result-cases (IndexerStore.list_all_active p.indexer_st s.indexers)) [
        | inr (e, q) ↦
            let same : probe_all rt p times s ≡ s = ground arith in rw same (Changes.done _)
        | inl (indexers, q) ↦
            let same : probe_all rt p times s
                ≡ probe_each rt p indexers (minutes p.cfg.inactive_after_minutes) times s =
              ground arith in
            rw same (
              probe_each-Changes indexers (minutes p.cfg.inactive_after_minutes) times s (
                subst (All P)
                  (sym (list_all_active-ok p.indexer_st docs lawful_listing s.indexers indexers q))
                  (All-filter (λ i. i.doc_id) P _ (docs s.indexers) h)))
      ]

  run-Changes :
      (call : Call F) (s : State D P' C)
      → All P (docs s.indexers)
      → Changes P (docs s.indexers) (docs (run rt p call s).indexers)
  unfolding run
  run-Changes (registers req now) s h = one P _ _ (register-Change req now s.indexers)
  run-Changes (heartbeats peer_id req now) s h =
      one P _ _ (heartbeat-Change peer_id req now s.indexers)
  run-Changes (deregisters peer_id) s h = one P _ _ (deregister-Change peer_id s.indexers)
  run-Changes (probes times) s h = probe_all-Changes times s h

  pub run_all-Changes :
      (calls : List (Call F)) (s : State D P' C)
      → All P (docs s.indexers)
      → Changes P (docs s.indexers) (docs (run_all rt p calls s).indexers)
  unfolding run_all
  run_all-Changes [] s h = Changes.done _
  run_all-Changes (call ∷ calls) s h =
      let first_call = run-Changes call s h in
      Changes-append P _ _ _ first_call
        (run_all-Changes calls (run rt p call s) (Changes-All P _ _ first_call h))
