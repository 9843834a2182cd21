-- ===== src/Store/EscrowStore.antt =====
-- The `EscrowStore` of pkg/store/escrow_store.go: the collection of escrow account records, by its queries and
-- mutations.
pub mod Answers
use package.shinzo_scheduler_service.Base.{Action, List, Option, Result, String, ◌==◌}
use package.shinzo_scheduler_service.Store.Records.{EscrowAccountRecord}
use package.shinzo_scheduler_service.Store.Status
use package.shinzo_scheduler_service.Store.Db.{Db}
use package.shinzo_scheduler_service.Store.Queries.{
  mutate_one, query_many, query_single, update_fields,
}

module _ {D F : Type 0} (db : Db D (EscrowAccountRecord F)) where
  unfoldable pub create : (EscrowAccountRecord F) → Action D (EscrowAccountRecord F)
  unfolding mutate_one
  create r = mutate_one db "mutate escrow account" r

  unfoldable pub get_by_session : String → D → Result (Option (EscrowAccountRecord F))
  unfolding query_single
  get_by_session session_id d =
      query_single db "query escrow account" (λ r. r.session_id == session_id) d

  unfoldable pub list_active : D → Result (List (EscrowAccountRecord F))
  unfolding query_many
  list_active d = query_many db "query escrow account" (λ r. r.status == Status.active) d

  unfoldable pub update :
      String → ((EscrowAccountRecord F) → (EscrowAccountRecord F)) → Action D (Unit {0})
  unfolding update_fields
  update doc_id fields = update_fields db "update escrow account" doc_id fields
