-- ===== src/Store/EscrowStore/Answers.antt =====
-- What the `EscrowStore` (pkg/store/escrow_store.go) answers and writes over a lawful collection.
use package.shinzo_scheduler_service.Base.{
  List, Option, String, [], filter, first, map, ok, ◌++◌, ◌==◌, ◌∷◌, ◌≡◌, ◌⊎◌,
}
use package.shinzo_scheduler_service.Store.Records.{EscrowAccountRecord}
use package.shinzo_scheduler_service.Store.Status
use package.shinzo_scheduler_service.Store.Db.{Db, LawfulDb, write_at}
use package.shinzo_scheduler_service.Store.Documents.{escrow_document}
use package.shinzo_scheduler_service.Store.Queries.{
  mutate_one_docs, query_many-ok, query_single-ok, update_fields-ok, update_fields_docs,
}
use package.shinzo_scheduler_service.Store.EscrowStore

module _ {D F : Type 0} (db : Db D (EscrowAccountRecord F))
    (docs : D → List (EscrowAccountRecord F)) (lawful : LawfulDb escrow_document db docs) where
  pub create_docs :
      (r : (EscrowAccountRecord F)) (d : D)
      → (docs (EscrowStore.create db r d).1 ≡ docs d)
        ⊎ ((id : String) × (docs (EscrowStore.create db r d).1
              ≡ docs d ++ record r { doc_id = id } ∷ []))
  unfolding EscrowStore.create
  create_docs r d = mutate_one_docs lawful "mutate escrow account" r d

  pub get_by_session-ok :
      (session_id : String) (d : D) (o : Option (EscrowAccountRecord F))
      → EscrowStore.get_by_session db session_id d ≡ ok o
      → o ≡ first (filter (λ r. r.session_id == session_id) (docs d))
  unfolding EscrowStore.get_by_session
  get_by_session-ok session_id d o h = query_single-ok lawful "query escrow account" _ d o h

  pub list_active-ok :
      (d : D) (rs : List (EscrowAccountRecord F))
      → EscrowStore.list_active db d ≡ ok rs
      → rs ≡ filter (λ r. r.status == Status.active) (docs d)
  unfolding EscrowStore.list_active
  list_active-ok d rs h = query_many-ok lawful "query escrow account" _ d rs h

  pub update_docs :
      (id : String) (f : (EscrowAccountRecord F) → (EscrowAccountRecord F)) (d : D)
      → (docs (EscrowStore.update db id f d).1 ≡ docs d)
        ⊎ (docs (EscrowStore.update db id f d).1 ≡ map (write_at escrow_document id f) (docs d))
  unfolding EscrowStore.update
  update_docs id f d = update_fields_docs lawful "update escrow account" id f d

  pub update-ok :
      (id : String) (f : (EscrowAccountRecord F) → (EscrowAccountRecord F)) (d : D)
      → (EscrowStore.update db id f d).0 ≡ ok tt
      → docs (EscrowStore.update db id f d).1 ≡ map (write_at escrow_document id f) (docs d)
  unfolding EscrowStore.update
  update-ok id f d h = update_fields-ok lawful "update escrow account" id f d h
