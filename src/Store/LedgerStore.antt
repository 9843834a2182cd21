-- ===== src/Store/LedgerStore.antt =====
-- The `LedgerStore` of pkg/store/ledger_store.go: the collection of session ledger records, by its queries and
-- mutations.
pub mod Answers
use package.shinzo_scheduler_service.Base.{Action, List, Option, Result, String, true, ◌==◌}
use package.shinzo_scheduler_service.Store.Records.{SessionLedgerRecord}
use package.shinzo_scheduler_service.Store.Db.{Db}
use package.shinzo_scheduler_service.Store.Queries.{
  mutate_one, query_many, query_single, update_fields,
}

module _ {D F : Type 0} (db : Db D (SessionLedgerRecord F)) where
  unfoldable pub create : (SessionLedgerRecord F) → Action D (SessionLedgerRecord F)
  unfolding mutate_one
  create r = mutate_one db "mutate session ledger" r

  unfoldable pub get_by_session : String → D → Result (Option (SessionLedgerRecord F))
  unfolding query_single
  get_by_session session_id d =
      query_single db "query session ledger" (λ r. r.session_id == session_id) d

  unfoldable pub update :
      String → ((SessionLedgerRecord F) → (SessionLedgerRecord F)) → Action D (Unit {0})
  unfolding update_fields
  update doc_id fields = update_fields db "update session ledger" doc_id fields

  unfoldable pub list_all : D → Result (List (SessionLedgerRecord F))
  unfolding query_many
  list_all d = query_many db "query session ledger" (λ _. true) d
