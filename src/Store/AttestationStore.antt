-- ===== src/Store/AttestationStore.antt =====
-- The `AttestationStore` of pkg/store/attestation_store.go: the collection of attestation records, by its queries and
-- mutations.
pub mod Answers
use package.shinzo_scheduler_service.Base.{Action, List, Option, Result, String, ◌&&◌, ◌==◌}
use package.shinzo_scheduler_service.Base.Int.{eqb_ℤ, ℤ}
use package.shinzo_scheduler_service.Store.Records.{AttestationRecord}
use package.shinzo_scheduler_service.Store.Status
use package.shinzo_scheduler_service.Store.Db.{Db}
use package.shinzo_scheduler_service.Store.Queries.{
  mutate_one, query_many, query_single, update_fields,
}

module _ {D : Type 0} (db : Db D AttestationRecord) where
  unfoldable pub create : AttestationRecord → Action D AttestationRecord
  unfolding mutate_one
  create r = mutate_one db "mutate attestation" r

  unfoldable pub get_by_session_and_block : String → ℤ → D → Result (Option AttestationRecord)
  unfolding query_single
  get_by_session_and_block session_id block_n d =
      query_single db "query attestation"
        (λ r. r.session_id == session_id && eqb_ℤ r.block_number block_n) d

  unfoldable pub list_by_session : String → D → Result (List AttestationRecord)
  unfolding query_many
  list_by_session session_id d =
      query_many db "query attestation" (λ r. r.session_id == session_id) d

  unfoldable pub list_pending : D → Result (List AttestationRecord)
  unfolding query_many
  list_pending d = query_many db "query attestation" (λ r. r.status == Status.pending) d

  unfoldable pub update : String → (AttestationRecord → AttestationRecord) → Action D (Unit {0})
  unfolding update_fields
  update doc_id fields = update_fields db "update attestation" doc_id fields

  unfoldable pub update_status : String → String → Action D (Unit {0})
  unfolding update
  update_status doc_id status = update doc_id (λ r. record r { status = status })
