-- ===== src/Store/VerdictStore.antt =====
-- The `VerdictStore` of pkg/store/verdict_store.go: the collection of verdict records, by its queries and
-- mutations.
pub mod Answers
use package.shinzo_scheduler_service.Base.{Action, List, Option, Result, String, not, ◌==◌}
use package.shinzo_scheduler_service.Store.Records.{VerdictRecord}
use package.shinzo_scheduler_service.Store.Db.{Db}
use package.shinzo_scheduler_service.Store.Queries.{
  mutate_one, query_many, query_single, update_fields,
}

module _ {D : Type 0} (db : Db D VerdictRecord) where
  unfoldable pub create : VerdictRecord → Action D VerdictRecord
  unfolding mutate_one
  create r = mutate_one db "mutate verdict" r

  unfoldable pub get_by_session : String → D → Result (Option VerdictRecord)
  unfolding query_single
  get_by_session session_id d = query_single db "query verdict" (λ r. r.session_id == session_id) d

  unfoldable pub list_by_session : String → D → Result (List VerdictRecord)
  unfolding query_many
  list_by_session session_id d = query_many db "query verdict" (λ r. r.session_id == session_id) d

  unfoldable pub list_unsubmitted : D → Result (List VerdictRecord)
  unfolding query_many
  list_unsubmitted d = query_many db "query verdict" (λ r. not r.submitted_to_hub) d

  unfoldable pub update : String → (VerdictRecord → VerdictRecord) → Action D (Unit {0})
  unfolding update_fields
  update doc_id fields = update_fields db "update verdict" doc_id fields
