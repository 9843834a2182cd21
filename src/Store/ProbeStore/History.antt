-- ===== src/Store/ProbeStore/History.antt =====
-- What `PruneOldest` of pkg/store/probe_store.go leaves of the history of the probes.
use package.shinzo_scheduler_service.Base.{
  ℕ, ◌-◌, ◌≤◌, String, ◌≡◌, ap, sym, ◌∙◌, false, List, [], ◌∷◌, filter, length, take, arith, Result,
  ok, err, Bool-cases, inl, inr, ◌==◌, subst, Result-cases, leb, leb→le, ◌≢◌,
}
use package.shinzo_scheduler_service.Base.Int.{ℤ, pos}
use package.shinzo_scheduler_service.Base.Perms.{filter_kept}
use package.shinzo_scheduler_service.Store.Records.{ProbeResultRecord}
use package.shinzo_scheduler_service.Store.Db.{Db, LawfulDb, has_errors}
use package.shinzo_scheduler_service.Store.Documents.{probe_result_document}
use package.shinzo_scheduler_service.Store.Queries.{query_many-ok}
use package.shinzo_scheduler_service.Store.ProbeStore.{
  sort_probe_results_asc, list_by_indexer, delete_all, prune, prune_oldest,
}
use package.shinzo_scheduler_service.Store.ProbeStore.Pruning.{
  not_in, UniqueProbes, none_in_nil, filter-filter-not_in, Pruned, pruned, untouched_history,
}

module _ {D : Type 0} (db : Db D ProbeResultRecord) (docs : D → List ProbeResultRecord)
    (lawful : LawfulDb probe_result_document db docs) where
  delete_all_step :
      (g : ProbeResultRecord) (gone : List ProbeResultRecord) (d : D)
      → has_errors (db.delete g.doc_id d).0 ≡ false
      → delete_all db (g ∷ gone) d ≡ delete_all db gone (db.delete g.doc_id d).1
  unfolding delete_all
  delete_all_step g gone d e = ground arith

  delete_all-ok :
      (gone : List ProbeResultRecord) (d : D)
      → (delete_all db gone d).0 ≡ ok tt
      → docs (delete_all db gone d).1 ≡ filter (not_in gone) (docs d)
  unfolding delete_all
  delete_all-ok [] d h = sym (filter_kept _ (docs d) (none_in_nil (docs d)))
  delete_all-ok (g ∷ gone) d h = elim (Bool-cases (has_errors (db.delete g.doc_id d).0)) [
    | inl e ↦ absurd (ground arith)
    | inr e ↦
        let step = delete_all_step g gone d e in
        ap (λ (p : Result (Unit {0}) × D). docs p.1) step
        ∙ (delete_all-ok gone (db.delete g.doc_id d).1
              (sym (ap (λ (p : Result (Unit {0}) × D). p.0) step) ∙ h)
            ∙ (ap (filter (not_in gone)) (lawful.delete_docs g.doc_id d e)
                ∙ filter-filter-not_in g gone (docs d)))
  ]

  prune_step :
      (limit : ℕ) (recs : List ProbeResultRecord) (d : D)
      → leb (length recs) limit ≡ false
      → prune db (pos limit) recs d
        ≡ delete_all db (take (length recs - limit) (sort_probe_results_asc recs)) d
  unfolding prune
  prune_step limit recs d many = ground arith

  prune-Pruned :
      (indexer_id : String) (limit : ℕ) (recs : List ProbeResultRecord) (d : D)
      → UniqueProbes (docs d)
      → recs ≡ filter (λ r. r.indexer_id == indexer_id) (docs d)
      → (prune db (pos limit) recs d).0 ≡ ok tt
      → Pruned indexer_id limit (docs d) (docs (prune db (pos limit) recs d).1)
  unfolding prune
  prune-Pruned indexer_id limit recs d u e h = elim (Bool-cases (leb (length recs) limit)) [
    | inl few ↦
        let same : prune db (pos limit) recs d ≡ (ok tt, d) = ground arith in
        rw same (
          untouched_history indexer_id limit (docs d)
            (subst (λ xs. length xs ≤ limit) e (leb→le _ _ few)))
    | inr many ↦
        let step = prune_step limit recs d many in
        rw (step, delete_all-ok _ d (rw step at h))
          (subst
            (λ xs.
              Pruned indexer_id limit (docs d)
                (filter (not_in (take (length xs - limit) (sort_probe_results_asc xs))) (docs d)))
            (sym e) (pruned indexer_id limit (docs d) u))
  ]

  listed :
      (indexer_id : String) (d : D) (recs : List ProbeResultRecord)
      → list_by_indexer db indexer_id d ≡ ok recs
      → recs ≡ filter (λ r. r.indexer_id == indexer_id) (docs d)
  unfolding list_by_indexer
  listed indexer_id d recs e = query_many-ok lawful "query probe results" _ d recs e

  prune_oldest_failed :
      (indexer_id : String) (limit : ℤ) (d : D) (t : String)
      → list_by_indexer db indexer_id d ≡ err t
      → (prune_oldest db indexer_id limit d).0 ≢ ok tt
  unfolding prune_oldest
  prune_oldest_failed indexer_id limit d t e h = ground arith

  prune_oldest_step :
      (indexer_id : String) (limit : ℤ) (d : D) (recs : List ProbeResultRecord)
      → list_by_indexer db indexer_id d ≡ ok recs
      → prune_oldest db indexer_id limit d ≡ prune db limit recs d
  unfolding prune_oldest
  prune_oldest_step indexer_id limit d recs e = ground arith

  -- In a collection whose document ids are unique, a pruning that succeeds keeps at most `limit` results
  -- of the indexer, none of which was probed before one that it deletes; it deletes no more than it
  -- must, and nothing of other indexers. The limit is not negative.
  pub prune_oldest-Pruned :
      (indexer_id : String) (limit : ℕ) (d : D)
      → UniqueProbes (docs d)
      → (prune_oldest db indexer_id (pos limit) d).0 ≡ ok tt
      → Pruned indexer_id limit (docs d) (docs (prune_oldest db indexer_id (pos limit) d).1)
  prune_oldest-Pruned indexer_id limit d u h =
      elim (Result-cases (list_by_indexer db indexer_id d)) [
        | inl (recs, e) ↦
            let step = prune_oldest_step indexer_id (pos limit) d recs e in
            rw step
              (prune-Pruned indexer_id limit recs d u (listed indexer_id d recs e) (rw step at h))
        | inr (t, e) ↦ absurd (prune_oldest_failed indexer_id (pos limit) d t e h)
      ]
