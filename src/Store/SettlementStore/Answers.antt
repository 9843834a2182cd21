-- ===== src/Store/SettlementStore/Answers.antt =====
-- What the `SettlementStore` (pkg/store/settlement_store.go) answers and writes over a lawful collection.
use package.shinzo_scheduler_service.Base.{
  List, String, [], filter, map, ok, ◌++◌, ◌==◌, ◌∷◌, ◌≡◌, ◌⊎◌,
}
use package.shinzo_scheduler_service.Store.Records.{SettlementRecord}
use package.shinzo_scheduler_service.Store.Db.{Db, LawfulDb, write_at}
use package.shinzo_scheduler_service.Store.Documents.{settlement_document}
use package.shinzo_scheduler_service.Store.Queries.{
  mutate_one_docs, query_many-ok, update_fields-ok, update_fields_docs,
}
use package.shinzo_scheduler_service.Store.SettlementStore

module _ {D F : Type 0} (db : Db D (SettlementRecord F)) (docs : D → List (SettlementRecord F))
    (lawful : LawfulDb settlement_document db docs) where
  pub create_docs :
      (r : (SettlementRecord F)) (d : D)
      → (docs (SettlementStore.create db r d).1 ≡ docs d)
        ⊎ ((id : String) × (docs (SettlementStore.create db r d).1
              ≡ docs d ++ record r { doc_id = id } ∷ []))
  unfolding SettlementStore.create
  create_docs r d = mutate_one_docs lawful "mutate settlement" r d

  pub list_by_session-ok :
      (session_id : String) (d : D) (rs : List (SettlementRecord F))
      → SettlementStore.list_by_session db session_id d ≡ ok rs
      → rs ≡ filter (λ r. r.session_id == session_id) (docs d)
  unfolding SettlementStore.list_by_session
  list_by_session-ok session_id d rs h = query_many-ok lawful "query settlement" _ d rs h

  pub update_docs :
      (id : String) (f : (SettlementRecord F) → (SettlementRecord F)) (d : D)
      → (docs (SettlementStore.update db id f d).1 ≡ docs d)
        ⊎ (docs (SettlementStore.update db id f d).1
            ≡ map (write_at settlement_document id f) (docs d))
  unfolding SettlementStore.update
  update_docs id f d = update_fields_docs lawful "update settlement" id f d

  pub update-ok :
      (id : String) (f : (SettlementRecord F) → (SettlementRecord F)) (d : D)
      → (SettlementStore.update db id f d).0 ≡ ok tt
      → docs (SettlementStore.update db id f d).1 ≡ map (write_at settlement_document id f) (docs d)
  unfolding SettlementStore.update
  update-ok id f d h = update_fields-ok lawful "update settlement" id f d h
