-- ===== src/Store/HostStore/Answers.antt =====
-- What the `HostStore` (pkg/store/host_store.go) answers and writes over a lawful collection.
use package.shinzo_scheduler_service.Base.{
  List, Option, String, [], filter, first, map, ok, ◌++◌, ◌==◌, ◌∷◌, ◌≡◌, ◌⊎◌,
}
use package.shinzo_scheduler_service.Store.Records.{HostRecord}
use package.shinzo_scheduler_service.Store.Db.{Db, LawfulDb, write_at}
use package.shinzo_scheduler_service.Store.Documents.{host_document}
use package.shinzo_scheduler_service.Store.Queries.{
  mutate_one_docs, query_single-ok, update_fields-ok, update_fields_docs,
}
use package.shinzo_scheduler_service.Store.HostStore

module _ {D : Type 0} (db : Db D HostRecord) (docs : D → List HostRecord)
    (lawful : LawfulDb host_document db docs) where
  pub get_by_peer_id-ok :
      (peer_id : String) (d : D) (o : Option HostRecord)
      → HostStore.get_by_peer_id db peer_id d ≡ ok o
      → o ≡ first (filter (λ r. r.peer_id == peer_id) (docs d))
  unfolding HostStore.get_by_peer_id
  get_by_peer_id-ok peer_id d o h = query_single-ok lawful "query host" _ d o h

  pub get_by_defra_pk-ok :
      (defra_pk : String) (d : D) (o : Option HostRecord)
      → HostStore.get_by_defra_pk db defra_pk d ≡ ok o
      → o ≡ first (filter (λ r. r.defra_pk == defra_pk) (docs d))
  unfolding HostStore.get_by_defra_pk
  get_by_defra_pk-ok defra_pk d o h = query_single-ok lawful "query host" _ d o h

  pub create_docs :
      (r : HostRecord) (d : D)
      → (docs (HostStore.create db r d).1 ≡ docs d)
        ⊎ ((id : String) × (docs (HostStore.create db r d).1
              ≡ docs d ++ record r { doc_id = id } ∷ []))
  unfolding HostStore.create
  create_docs r d = mutate_one_docs lawful "mutate host" r d

  pub update_docs :
      (id : String) (f : HostRecord → HostRecord) (d : D)
      → (docs (HostStore.update db id f d).1 ≡ docs d)
        ⊎ (docs (HostStore.update db id f d).1 ≡ map (write_at host_document id f) (docs d))
  unfolding HostStore.update
  update_docs id f d = update_fields_docs lawful "update host" id f d

  pub update-ok :
      (id : String) (f : HostRecord → HostRecord) (d : D)
      → (HostStore.update db id f d).0 ≡ ok tt
      → docs (HostStore.update db id f d).1 ≡ map (write_at host_document id f) (docs d)
  unfolding HostStore.update
  update-ok id f d h = update_fields-ok lawful "update host" id f d h
