-- ===== src/Store/SubscriptionStore/Answers.antt =====
-- What the `SubscriptionStore` (pkg/store/subscription_store.go) answers and writes over a lawful collection.
use package.shinzo_scheduler_service.Base.{
  List, Option, String, [], filter, first, map, ok, ◌++◌, ◌==◌, ◌∷◌, ◌≡◌, ◌⊎◌,
}
use package.shinzo_scheduler_service.Store.Records.{SubscriptionRecord}
use package.shinzo_scheduler_service.Store.Db.{Db, LawfulDb, write_at}
use package.shinzo_scheduler_service.Store.Documents.{subscription_document}
use package.shinzo_scheduler_service.Store.Queries.{
  mutate_one-ok, mutate_one_docs, query_many-ok, query_single-ok, update_fields-ok,
  update_fields_docs,
}
use package.shinzo_scheduler_service.Store.SubscriptionStore

module _ {D : Type 0} (db : Db D SubscriptionRecord) (docs : D → List SubscriptionRecord)
    (lawful : LawfulDb subscription_document db docs) where
  pub get_by_id-ok :
      (sub_id : String) (d : D) (o : Option SubscriptionRecord)
      → SubscriptionStore.get_by_id db sub_id d ≡ ok o
      → o ≡ first (filter (λ r. r.subscription_id == sub_id) (docs d))
  unfolding SubscriptionStore.get_by_id
  get_by_id-ok sub_id d o h = query_single-ok lawful "query subscription" _ d o h

  pub list_by_host-ok :
      (host_id : String) (d : D) (rs : List SubscriptionRecord)
      → SubscriptionStore.list_by_host db host_id d ≡ ok rs
      → rs ≡ filter (λ r. r.host_id == host_id) (docs d)
  unfolding SubscriptionStore.list_by_host
  list_by_host-ok host_id d rs h = query_many-ok lawful "query subscription" _ d rs h

  pub list_by_status-ok :
      (status : String) (d : D) (rs : List SubscriptionRecord)
      → SubscriptionStore.list_by_status db status d ≡ ok rs
      → rs ≡ filter (λ r. r.status == status) (docs d)
  unfolding SubscriptionStore.list_by_status
  list_by_status-ok status d rs h = query_many-ok lawful "query subscription" _ d rs h

  pub create_docs :
      (r : SubscriptionRecord) (d : D)
      → (docs (SubscriptionStore.create db r d).1 ≡ docs d)
        ⊎ ((id : String) × (docs (SubscriptionStore.create db r d).1
              ≡ docs d ++ record r { doc_id = id } ∷ []))
  unfolding SubscriptionStore.create
  create_docs r d = mutate_one_docs lawful "mutate subscription" r d

  pub update_docs :
      (id : String) (f : SubscriptionRecord → SubscriptionRecord) (d : D)
      → (docs (SubscriptionStore.update db id f d).1 ≡ docs d)
        ⊎ (docs (SubscriptionStore.update db id f d).1
            ≡ map (write_at subscription_document id f) (docs d))
  unfolding SubscriptionStore.update
  update_docs id f d = update_fields_docs lawful "update subscription" id f d

  pub update-ok :
      (id : String) (f : SubscriptionRecord → SubscriptionRecord) (d : D)
      → (SubscriptionStore.update db id f d).0 ≡ ok tt
      → docs (SubscriptionStore.update db id f d).1
        ≡ map (write_at subscription_document id f) (docs d)
  unfolding SubscriptionStore.update
  update-ok id f d h = update_fields-ok lawful "update subscription" id f d h

  pub create-ok :
      (r : SubscriptionRecord) (d : D) (x : SubscriptionRecord)
      → (SubscriptionStore.create db r d).0 ≡ ok x
      → (id : String) × (docs (SubscriptionStore.create db r d).1
          ≡ docs d ++ record r { doc_id = id } ∷ [])
        × (x ≡ record r { doc_id = id })
  unfolding SubscriptionStore.create
  create-ok r d x h = mutate_one-ok lawful "mutate subscription" r d x h
