-- ===== src/Store/IndexerStore/Answers.antt =====
-- What the `IndexerStore` (pkg/store/indexer_store.go) answers and writes over a lawful collection.
use package.shinzo_scheduler_service.Base.{
  List, Option, String, [], filter, first, map, ok, ◌&&◌, ◌++◌, ◌==◌, ◌∷◌, ◌≡◌, ◌⊎◌,
}
use package.shinzo_scheduler_service.Store.Records.{IndexerRecord}
use package.shinzo_scheduler_service.Store.Status
use package.shinzo_scheduler_service.Store.Db.{Db, LawfulDb, write_at}
use package.shinzo_scheduler_service.Store.Documents.{indexer_document}
use package.shinzo_scheduler_service.Store.Queries.{
  mutate_one_docs, mutate_one-ok, query_many-ok, query_single-ok, update_fields-ok,
  update_fields_docs,
}
use package.shinzo_scheduler_service.Store.IndexerStore

module _ {D F : Type 0} (db : Db D (IndexerRecord F)) (docs : D → List (IndexerRecord F))
    (lawful : LawfulDb indexer_document db docs) where
  pub get_by_peer_id-ok :
      (peer_id : String) (d : D) (o : Option (IndexerRecord F))
      → IndexerStore.get_by_peer_id db peer_id d ≡ ok o
      → o ≡ first (filter (λ r. r.peer_id == peer_id) (docs d))
  unfolding IndexerStore.get_by_peer_id
  get_by_peer_id-ok peer_id d o h = query_single-ok lawful "query indexer" _ d o h

  pub get_by_defra_pk-ok :
      (defra_pk : String) (d : D) (o : Option (IndexerRecord F))
      → IndexerStore.get_by_defra_pk db defra_pk d ≡ ok o
      → o ≡ first (filter (λ r. r.defra_pk == defra_pk) (docs d))
  unfolding IndexerStore.get_by_defra_pk
  get_by_defra_pk-ok defra_pk d o h = query_single-ok lawful "query indexer" _ d o h

  pub list_active-ok :
      (chain : String) (network : String) (d : D) (rs : List (IndexerRecord F))
      → IndexerStore.list_active db chain network d ≡ ok rs
      → rs
        ≡ filter
            (λ r. r.chain == chain && (r.network == network && r.status == Status.active))
            (docs d)
  unfolding IndexerStore.list_active
  list_active-ok chain network d rs h = query_many-ok lawful "query indexer" _ d rs h

  pub list_all_active-ok :
      (d : D) (rs : List (IndexerRecord F))
      → IndexerStore.list_all_active db d ≡ ok rs
      → rs ≡ filter (λ r. r.status == Status.active) (docs d)
  unfolding IndexerStore.list_all_active
  list_all_active-ok d rs h = query_many-ok lawful "query indexer" _ d rs h

  pub create_docs :
      (r : (IndexerRecord F)) (d : D)
      → (docs (IndexerStore.create db r d).1 ≡ docs d)
        ⊎ ((id : String) × (docs (IndexerStore.create db r d).1
              ≡ docs d ++ record r { doc_id = id } ∷ []))
  unfolding IndexerStore.create
  create_docs r d = mutate_one_docs lawful "mutate indexer" r d

  pub update_docs :
      (id : String) (f : (IndexerRecord F) → (IndexerRecord F)) (d : D)
      → (docs (IndexerStore.update db id f d).1 ≡ docs d)
        ⊎ (docs (IndexerStore.update db id f d).1 ≡ map (write_at indexer_document id f) (docs d))
  unfolding IndexerStore.update
  update_docs id f d = update_fields_docs lawful "update indexer" id f d

  pub update-ok :
      (id : String) (f : (IndexerRecord F) → (IndexerRecord F)) (d : D)
      → (IndexerStore.update db id f d).0 ≡ ok tt
      → docs (IndexerStore.update db id f d).1 ≡ map (write_at indexer_document id f) (docs d)
  unfolding IndexerStore.update
  update-ok id f d h = update_fields-ok lawful "update indexer" id f d h

  pub create-ok :
      (r : IndexerRecord F) (d : D) (x : IndexerRecord F)
      → (IndexerStore.create db r d).0 ≡ ok x
      → (id : String) × (docs (IndexerStore.create db r d).1
          ≡ docs d ++ record r { doc_id = id } ∷ [])
        × (x ≡ record r { doc_id = id })
  unfolding IndexerStore.create
  create-ok r d x h = mutate_one-ok lawful "mutate indexer" r d x h
