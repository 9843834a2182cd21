-- ===== src/Store/ClaimStore/Answers.antt =====
-- What the `ClaimStore` (pkg/store/claim_store.go) answers and writes over a lawful collection.
use package.shinzo_scheduler_service.Base.{
  List, Option, String, [], filter, first, map, ok, ◌&&◌, ◌++◌, ◌==◌, ◌∷◌, ◌≡◌, ◌⊎◌,
}
use package.shinzo_scheduler_service.Base.Int.{eqb_ℤ, ℤ}
use package.shinzo_scheduler_service.Store.Records.{DeliveryClaimRecord}
use package.shinzo_scheduler_service.Store.Status
use package.shinzo_scheduler_service.Store.Db.{Db, LawfulDb, write_at}
use package.shinzo_scheduler_service.Store.Documents.{claim_document}
use package.shinzo_scheduler_service.Store.Queries.{
  mutate_one_docs, query_many-ok, query_single-ok, update_fields-ok, update_fields_docs,
}
use package.shinzo_scheduler_service.Store.ClaimStore

module _ {D : Type 0} (db : Db D DeliveryClaimRecord) (docs : D → List DeliveryClaimRecord)
    (lawful : LawfulDb claim_document db docs) where
  pub create_docs :
      (r : DeliveryClaimRecord) (d : D)
      → (docs (ClaimStore.create db r d).1 ≡ docs d)
        ⊎ ((id : String) × (docs (ClaimStore.create db r d).1
              ≡ docs d ++ record r { doc_id = id } ∷ []))
  unfolding ClaimStore.create
  create_docs r d = mutate_one_docs lawful "mutate claim" r d

  pub get_by_session_and_block-ok :
      (session_id : String) (block_n : ℤ) (d : D) (o : Option DeliveryClaimRecord)
      → ClaimStore.get_by_session_and_block db session_id block_n d ≡ ok o
      → o
        ≡ first (filter (λ r. r.session_id == session_id && eqb_ℤ r.block_number block_n) (docs d))
  unfolding ClaimStore.get_by_session_and_block
  get_by_session_and_block-ok session_id block_n d o h =
      query_single-ok lawful "query claim" _ d o h

  pub list_by_session-ok :
      (session_id : String) (d : D) (rs : List DeliveryClaimRecord)
      → ClaimStore.list_by_session db session_id d ≡ ok rs
      → rs ≡ filter (λ r. r.session_id == session_id) (docs d)
  unfolding ClaimStore.list_by_session
  list_by_session-ok session_id d rs h = query_many-ok lawful "query claim" _ d rs h

  pub list_pending-ok :
      (d : D) (rs : List DeliveryClaimRecord)
      → ClaimStore.list_pending db d ≡ ok rs
      → rs ≡ filter (λ r. r.status == Status.pending) (docs d)
  unfolding ClaimStore.list_pending
  list_pending-ok d rs h = query_many-ok lawful "query claim" _ d rs h

  pub update_docs :
      (id : String) (f : DeliveryClaimRecord → DeliveryClaimRecord) (d : D)
      → (docs (ClaimStore.update db id f d).1 ≡ docs d)
        ⊎ (docs (ClaimStore.update db id f d).1 ≡ map (write_at claim_document id f) (docs d))
  unfolding ClaimStore.update
  update_docs id f d = update_fields_docs lawful "update claim" id f d

  pub update-ok :
      (id : String) (f : DeliveryClaimRecord → DeliveryClaimRecord) (d : D)
      → (ClaimStore.update db id f d).0 ≡ ok tt
      → docs (ClaimStore.update db id f d).1 ≡ map (write_at claim_document id f) (docs d)
  unfolding ClaimStore.update
  update-ok id f d h = update_fields-ok lawful "update claim" id f d h

  pub update_status_docs :
      (id status : String) (d : D)
      → (docs (ClaimStore.update_status db id status d).1 ≡ docs d)
        ⊎ (docs (ClaimStore.update_status db id status d).1
            ≡ map (write_at claim_document id (λ r. record r { status = status })) (docs d))
  unfolding ClaimStore.update_status
  update_status_docs id status d = update_docs id _ d
