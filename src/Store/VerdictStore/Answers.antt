-- ===== src/Store/VerdictStore/Answers.antt =====
-- What the `VerdictStore` (pkg/store/verdict_store.go) answers and writes over a lawful collection.
use package.shinzo_scheduler_service.Base.{
  List, Option, String, [], filter, first, map, ok, ◌++◌, ◌==◌, ◌∷◌, ◌≡◌, ◌⊎◌,
}
use package.shinzo_scheduler_service.Store.Records.{VerdictRecord}
use package.shinzo_scheduler_service.Store.Db.{Db, LawfulDb, write_at}
use package.shinzo_scheduler_service.Store.Documents.{verdict_document}
use package.shinzo_scheduler_service.Store.Queries.{
  mutate_one_docs, query_many-ok, query_single-ok, update_fields-ok, update_fields_docs,
}
use package.shinzo_scheduler_service.Store.VerdictStore

module _ {D : Type 0} (db : Db D VerdictRecord) (docs : D → List VerdictRecord)
    (lawful : LawfulDb verdict_document db docs) where
  pub create_docs :
      (r : VerdictRecord) (d : D)
      → (docs (VerdictStore.create db r d).1 ≡ docs d)
        ⊎ ((id : String) × (docs (VerdictStore.create db r d).1
              ≡ docs d ++ record r { doc_id = id } ∷ []))
  unfolding VerdictStore.create
  create_docs r d = mutate_one_docs lawful "mutate verdict" r d

  pub get_by_session-ok :
      (session_id : String) (d : D) (o : Option VerdictRecord)
      → VerdictStore.get_by_session db session_id d ≡ ok o
      → o ≡ first (filter (λ r. r.session_id == session_id) (docs d))
  unfolding VerdictStore.get_by_session
  get_by_session-ok session_id d o h = query_single-ok lawful "query verdict" _ d o h

  pub list_by_session-ok :
      (session_id : String) (d : D) (rs : List VerdictRecord)
      → VerdictStore.list_by_session db session_id d ≡ ok rs
      → rs ≡ filter (λ r. r.session_id == session_id) (docs d)
  unfolding VerdictStore.list_by_session
  list_by_session-ok session_id d rs h = query_many-ok lawful "query verdict" _ d rs h

  pub update_docs :
      (id : String) (f : VerdictRecord → VerdictRecord) (d : D)
      → (docs (VerdictStore.update db id f d).1 ≡ docs d)
        ⊎ (docs (VerdictStore.update db id f d).1 ≡ map (write_at verdict_document id f) (docs d))
  unfolding VerdictStore.update
  update_docs id f d = update_fields_docs lawful "update verdict" id f d

  pub update-ok :
      (id : String) (f : VerdictRecord → VerdictRecord) (d : D)
      → (VerdictStore.update db id f d).0 ≡ ok tt
      → docs (VerdictStore.update db id f d).1 ≡ map (write_at verdict_document id f) (docs d)
  unfolding VerdictStore.update
  update-ok id f d h = update_fields-ok lawful "update verdict" id f d h
