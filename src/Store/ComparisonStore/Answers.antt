-- ===== src/Store/ComparisonStore/Answers.antt =====
-- What the `ComparisonStore` (pkg/store/comparison_store.go) answers and writes over a lawful collection.
use package.shinzo_scheduler_service.Base.{List, String, [], filter, ok, ◌++◌, ◌==◌, ◌∷◌, ◌≡◌, ◌⊎◌}
use package.shinzo_scheduler_service.Store.Records.{ComparisonResultRecord}
use package.shinzo_scheduler_service.Store.Db.{Db, LawfulDb}
use package.shinzo_scheduler_service.Store.Documents.{comparison_document}
use package.shinzo_scheduler_service.Store.Queries.{mutate_one_docs, query_many-ok}
use package.shinzo_scheduler_service.Store.ComparisonStore

module _ {D : Type 0} (db : Db D ComparisonResultRecord) (docs : D → List ComparisonResultRecord)
    (lawful : LawfulDb comparison_document db docs) where
  pub create_docs :
      (r : ComparisonResultRecord) (d : D)
      → (docs (ComparisonStore.create db r d).1 ≡ docs d)
        ⊎ ((id : String) × (docs (ComparisonStore.create db r d).1
              ≡ docs d ++ record r { doc_id = id } ∷ []))
  unfolding ComparisonStore.create
  create_docs r d = mutate_one_docs lawful "mutate comparison result" r d

  pub list_by_session-ok :
      (session_id : String) (d : D) (rs : List ComparisonResultRecord)
      → ComparisonStore.list_by_session db session_id d ≡ ok rs
      → rs ≡ filter (λ r. r.session_id == session_id) (docs d)
  unfolding ComparisonStore.list_by_session
  list_by_session-ok session_id d rs h = query_many-ok lawful "query comparison result" _ d rs h
