-- ===== src/Store/LedgerStore/Answers.antt =====
-- What the `LedgerStore` (pkg/store/ledger_store.go) answers and writes over a lawful collection.
use package.shinzo_scheduler_service.Base.{
  List, Option, String, [], filter, first, map, ok, ◌++◌, ◌==◌, ◌∷◌, ◌≡◌, ◌⊎◌,
}
use package.shinzo_scheduler_service.Store.Records.{SessionLedgerRecord}
use package.shinzo_scheduler_service.Store.Db.{Db, LawfulDb, write_at}
use package.shinzo_scheduler_service.Store.Documents.{ledger_document}
use package.shinzo_scheduler_service.Store.Queries.{
  mutate_one_docs, query_single-ok, update_fields-ok, update_fields_docs,
}
use package.shinzo_scheduler_service.Store.LedgerStore

module _ {D F : Type 0} (db : Db D (SessionLedgerRecord F))
    (docs : D → List (SessionLedgerRecord F)) (lawful : LawfulDb ledger_document db docs) where
  pub create_docs :
      (r : (SessionLedgerRecord F)) (d : D)
      → (docs (LedgerStore.create db r d).1 ≡ docs d)
        ⊎ ((id : String) × (docs (LedgerStore.create db r d).1
              ≡ docs d ++ record r { doc_id = id } ∷ []))
  unfolding LedgerStore.create
  create_docs r d = mutate_one_docs lawful "mutate session ledger" r d

  pub get_by_session-ok :
      (session_id : String) (d : D) (o : Option (SessionLedgerRecord F))
      → LedgerStore.get_by_session db session_id d ≡ ok o
      → o ≡ first (filter (λ r. r.session_id == session_id) (docs d))
  unfolding LedgerStore.get_by_session
  get_by_session-ok session_id d o h = query_single-ok lawful "query session ledger" _ d o h

  pub update_docs :
      (id : String) (f : (SessionLedgerRecord F) → (SessionLedgerRecord F)) (d : D)
      → (docs (LedgerStore.update db id f d).1 ≡ docs d)
        ⊎ (docs (LedgerStore.update db id f d).1 ≡ map (write_at ledger_document id f) (docs d))
  unfolding LedgerStore.update
  update_docs id f d = update_fields_docs lawful "update session ledger" id f d

  pub update-ok :
      (id : String) (f : (SessionLedgerRecord F) → (SessionLedgerRecord F)) (d : D)
      → (LedgerStore.update db id f d).0 ≡ ok tt
      → docs (LedgerStore.update db id f d).1 ≡ map (write_at ledger_document id f) (docs d)
  unfolding LedgerStore.update
  update-ok id f d h = update_fields-ok lawful "update session ledger" id f d h
