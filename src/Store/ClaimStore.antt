-- ===== src/Store/ClaimStore.antt =====
-- The `ClaimStore` of pkg/store/claim_store.go: the collection of claim records, by its queries and
-- mutations.
pub mod Answers
use package.shinzo_scheduler_service.Base.{Action, List, Option, Result, String, ◌&&◌, ◌==◌}
use package.shinzo_scheduler_service.Base.Int.{eqb_ℤ, ℤ}
use package.shinzo_scheduler_service.Store.Records.{DeliveryClaimRecord}
use package.shinzo_scheduler_service.Store.Status
use package.shinzo_scheduler_service.Store.Db.{Db}
use package.shinzo_scheduler_service.Store.Queries.{
  mutate_one, query_many, query_single, update_fields,
}

module _ {D : Type 0} (db : Db D DeliveryClaimRecord) where
  unfoldable pub create : DeliveryClaimRecord → Action D DeliveryClaimRecord
  unfolding mutate_one
  create r = mutate_one db "mutate claim" r

  unfoldable pub get_by_session_and_block : String → ℤ → D → Result (Option DeliveryClaimRecord)
  unfolding query_single
  get_by_session_and_block session_id block_n d =
      query_single db "query claim"
        (λ r. r.session_id == session_id && eqb_ℤ r.block_number block_n) d

  unfoldable pub list_by_session : String → D → Result (List DeliveryClaimRecord)
  unfolding query_many
  list_by_session session_id d = query_many db "query claim" (λ r. r.session_id == session_id) d

  unfoldable pub list_pending : D → Result (List DeliveryClaimRecord)
  unfolding query_many
  list_pending d = query_many db "query claim" (λ r. r.status == Status.pending) d

  unfoldable pub update : String → (DeliveryClaimRecord → DeliveryClaimRecord) → Action D (Unit {0})
  unfolding update_fields
  update doc_id fields = update_fields db "update claim" doc_id fields

  unfoldable pub update_status : String → String → Action D (Unit {0})
  unfolding update
  update_status doc_id status = update doc_id (λ r. record r { status = status })
