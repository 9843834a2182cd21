-- ===== src/Store/AttestationStore/Answers.antt =====
-- What the `AttestationStore` (pkg/store/attestation_store.go) answers and writes over a lawful collection.
use package.shinzo_scheduler_service.Base.{
  List, Option, String, [], filter, first, map, ok, ◌&&◌, ◌++◌, ◌==◌, ◌∷◌, ◌≡◌, ◌⊎◌,
}
use package.shinzo_scheduler_service.Base.Int.{eqb_ℤ, ℤ}
use package.shinzo_scheduler_service.Store.Records.{AttestationRecord}
use package.shinzo_scheduler_service.Store.Status
use package.shinzo_scheduler_service.Store.Db.{Db, LawfulDb, write_at}
use package.shinzo_scheduler_service.Store.Documents.{attestation_document}
use package.shinzo_scheduler_service.Store.Queries.{
  mutate_one_docs, query_many-ok, query_single-ok, update_fields-ok, update_fields_docs,
}
use package.shinzo_scheduler_service.Store.AttestationStore

module _ {D : Type 0} (db : Db D AttestationRecord) (docs : D → List AttestationRecord)
    (lawful : LawfulDb attestation_document db docs) where
  pub create_docs :
      (r : AttestationRecord) (d : D)
      → (docs (AttestationStore.create db r d).1 ≡ docs d)
        ⊎ ((id : String) × (docs (AttestationStore.create db r d).1
              ≡ docs d ++ record r { doc_id = id } ∷ []))
  unfolding AttestationStore.create
  create_docs r d = mutate_one_docs lawful "mutate attestation" r d

  pub get_by_session_and_block-ok :
      (session_id : String) (block_n : ℤ) (d : D) (o : Option AttestationRecord)
      → AttestationStore.get_by_session_and_block db session_id block_n d ≡ ok o
      → o
        ≡ first (filter (λ r. r.session_id == session_id && eqb_ℤ r.block_number block_n) (docs d))
  unfolding AttestationStore.get_by_session_and_block
  get_by_session_and_block-ok session_id block_n d o h =
      query_single-ok lawful "query attestation" _ d o h

  pub list_by_session-ok :
      (session_id : String) (d : D) (rs : List AttestationRecord)
      → AttestationStore.list_by_session db session_id d ≡ ok rs
      → rs ≡ filter (λ r. r.session_id == session_id) (docs d)
  unfolding AttestationStore.list_by_session
  list_by_session-ok session_id d rs h = query_many-ok lawful "query attestation" _ d rs h

  pub list_pending-ok :
      (d : D) (rs : List AttestationRecord)
      → AttestationStore.list_pending db d ≡ ok rs
      → rs ≡ filter (λ r. r.status == Status.pending) (docs d)
  unfolding AttestationStore.list_pending
  list_pending-ok d rs h = query_many-ok lawful "query attestation" _ d rs h

  pub update_docs :
      (id : String) (f : AttestationRecord → AttestationRecord) (d : D)
      → (docs (AttestationStore.update db id f d).1 ≡ docs d)
        ⊎ (docs (AttestationStore.update db id f d).1
            ≡ map (write_at attestation_document id f) (docs d))
  unfolding AttestationStore.update
  update_docs id f d = update_fields_docs lawful "update attestation" id f d

  pub update-ok :
      (id : String) (f : AttestationRecord → AttestationRecord) (d : D)
      → (AttestationStore.update db id f d).0 ≡ ok tt
      → docs (AttestationStore.update db id f d).1
        ≡ map (write_at attestation_document id f) (docs d)
  unfolding AttestationStore.update
  update-ok id f d h = update_fields-ok lawful "update attestation" id f d h

  pub update_status_docs :
      (id status : String) (d : D)
      → (docs (AttestationStore.update_status db id status d).1 ≡ docs d)
        ⊎ (docs (AttestationStore.update_status db id status d).1
            ≡ map (write_at attestation_document id (λ r. record r { status = status })) (docs d))
  unfolding AttestationStore.update_status
  update_status_docs id status d = update_docs id _ d
