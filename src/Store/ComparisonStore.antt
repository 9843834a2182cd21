-- ===== src/Store/ComparisonStore.antt =====
-- The `ComparisonStore` of pkg/store/comparison_store.go: the collection of comparison result records, by its queries and
-- mutations.
pub mod Answers
use package.shinzo_scheduler_service.Base.{Action, List, Result, String, ◌==◌}
use package.shinzo_scheduler_service.Store.Records.{ComparisonResultRecord}
use package.shinzo_scheduler_service.Store.Db.{Db}
use package.shinzo_scheduler_service.Store.Queries.{mutate_one, query_many}

module _ {D : Type 0} (db : Db D ComparisonResultRecord) where
  unfoldable pub create : ComparisonResultRecord → Action D ComparisonResultRecord
  unfolding mutate_one
  create r = mutate_one db "mutate comparison result" r

  unfoldable pub list_by_session : String → D → Result (List ComparisonResultRecord)
  unfolding query_many
  list_by_session session_id d =
      query_many db "query comparison result" (λ r. r.session_id == session_id) d
