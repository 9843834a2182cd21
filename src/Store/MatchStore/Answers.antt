-- ===== src/Store/MatchStore/Answers.antt =====
-- What the `MatchStore` (pkg/store/match_store.go) answers and writes over a lawful collection.
use package.shinzo_scheduler_service.Base.{List, String, [], filter, ok, ◌++◌, ◌==◌, ◌∷◌, ◌≡◌, ◌⊎◌}
use package.shinzo_scheduler_service.Store.Records.{MatchHistoryRecord}
use package.shinzo_scheduler_service.Store.Db.{Db, LawfulDb}
use package.shinzo_scheduler_service.Store.Documents.{match_document}
use package.shinzo_scheduler_service.Store.Queries.{mutate_one_docs, query_many-ok}
use package.shinzo_scheduler_service.Store.MatchStore

module _ {D F : Type 0} (db : Db D (MatchHistoryRecord F)) (docs : D → List (MatchHistoryRecord F))
    (lawful : LawfulDb match_document db docs) where
  pub create_docs :
      (r : (MatchHistoryRecord F)) (d : D)
      → (docs (MatchStore.create db r d).1 ≡ docs d)
        ⊎ ((id : String) × (docs (MatchStore.create db r d).1
              ≡ docs d ++ record r { doc_id = id } ∷ []))
  unfolding MatchStore.create
  create_docs r d = mutate_one_docs lawful "mutate match history" r d

  pub list_by_host-ok :
      (host_id : String) (d : D) (rs : List (MatchHistoryRecord F))
      → MatchStore.list_by_host db host_id d ≡ ok rs
      → rs ≡ filter (λ r. r.host_id == host_id) (docs d)
  unfolding MatchStore.list_by_host
  list_by_host-ok host_id d rs h = query_many-ok lawful "query match history" _ d rs h
