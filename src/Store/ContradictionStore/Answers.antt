-- ===== src/Store/ContradictionStore/Answers.antt =====
-- What the `ContradictionStore` (pkg/store/contradiction_store.go) answers and writes over a lawful collection.
use package.shinzo_scheduler_service.Base.{
  List, String, [], filter, map, not, ok, true, ◌++◌, ◌∷◌, ◌≡◌, ◌⊎◌,
}
use package.shinzo_scheduler_service.Store.Records.{ContradictionRecord}
use package.shinzo_scheduler_service.Store.Db.{Db, LawfulDb, write_at}
use package.shinzo_scheduler_service.Store.Documents.{contradiction_document}
use package.shinzo_scheduler_service.Store.Queries.{
  mutate_one_docs, query_many-ok, update_fields-ok, update_fields_docs,
}
use package.shinzo_scheduler_service.Store.ContradictionStore

module _ {D : Type 0} (db : Db D ContradictionRecord) (docs : D → List ContradictionRecord)
    (lawful : LawfulDb contradiction_document db docs) where
  pub create_docs :
      (r : ContradictionRecord) (d : D)
      → (docs (ContradictionStore.create db r d).1 ≡ docs d)
        ⊎ ((id : String) × (docs (ContradictionStore.create db r d).1
              ≡ docs d ++ record r { doc_id = id } ∷ []))
  unfolding ContradictionStore.create
  create_docs r d = mutate_one_docs lawful "mutate contradiction" r d

  pub list_unresolved-ok :
      (d : D) (rs : List ContradictionRecord)
      → ContradictionStore.list_unresolved db d ≡ ok rs
      → rs ≡ filter (λ r. not r.resolved) (docs d)
  unfolding ContradictionStore.list_unresolved
  list_unresolved-ok d rs h = query_many-ok lawful "query contradiction" _ d rs h

  pub update_docs :
      (id : String) (f : ContradictionRecord → ContradictionRecord) (d : D)
      → (docs (ContradictionStore.update db id f d).1 ≡ docs d)
        ⊎ (docs (ContradictionStore.update db id f d).1
            ≡ map (write_at contradiction_document id f) (docs d))
  unfolding ContradictionStore.update
  update_docs id f d = update_fields_docs lawful "update contradiction" id f d

  pub update-ok :
      (id : String) (f : ContradictionRecord → ContradictionRecord) (d : D)
      → (ContradictionStore.update db id f d).0 ≡ ok tt
      → docs (ContradictionStore.update db id f d).1
        ≡ map (write_at contradiction_document id f) (docs d)
  unfolding ContradictionStore.update
  update-ok id f d h = update_fields-ok lawful "update contradiction" id f d h

  pub mark_resolved_docs :
      (id : String) (d : D)
      → (docs (ContradictionStore.mark_resolved db id d).1 ≡ docs d)
        ⊎ (docs (ContradictionStore.mark_resolved db id d).1
            ≡ map (write_at contradiction_document id (λ r. record r { resolved = true })) (docs d))
  unfolding ContradictionStore.mark_resolved
  mark_resolved_docs id d = update_docs id _ d
