-- ===== src/Store/SettlementStore.antt =====
-- The `SettlementStore` of pkg/store/settlement_store.go: the collection of settlement records, by its queries and
-- mutations.
pub mod Answers
use package.shinzo_scheduler_service.Base.{Action, List, Result, String, ◌==◌}
use package.shinzo_scheduler_service.Store.Records.{SettlementRecord}
use package.shinzo_scheduler_service.Store.Db.{Db}
use package.shinzo_scheduler_service.Store.Queries.{mutate_one, query_many, update_fields}

module _ {D F : Type 0} (db : Db D (SettlementRecord F)) where
  unfoldable pub create : (SettlementRecord F) → Action D (SettlementRecord F)
  unfolding mutate_one
  create r = mutate_one db "mutate settlement" r

  unfoldable pub list_by_session : String → D → Result (List (SettlementRecord F))
  unfolding query_many
  list_by_session session_id d =
      query_many db "query settlement" (λ r. r.session_id == session_id) d

  unfoldable pub list_by_batch : String → D → Result (List (SettlementRecord F))
  unfolding query_many
  list_by_batch batch_id d = query_many db "query settlement" (λ r. r.batch_id == batch_id) d

  unfoldable pub update :
      String → ((SettlementRecord F) → (SettlementRecord F)) → Action D (Unit {0})
  unfolding update_fields
  update doc_id fields = update_fields db "update settlement" doc_id fields
