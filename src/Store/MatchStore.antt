-- ===== src/Store/MatchStore.antt =====
-- The `MatchStore` of pkg/store/match_store.go: the collection of match history records, by its queries and
-- mutations.
pub mod Answers
use package.shinzo_scheduler_service.Base.{Action, List, Result, String, ◌&&◌, ◌==◌}
use package.shinzo_scheduler_service.Store.Records.{MatchHistoryRecord}
use package.shinzo_scheduler_service.Store.Db.{Db}
use package.shinzo_scheduler_service.Store.Queries.{mutate_one, query_many}

module _ {D F : Type 0} (db : Db D (MatchHistoryRecord F)) where
  unfoldable pub create : (MatchHistoryRecord F) → Action D (MatchHistoryRecord F)
  unfolding mutate_one
  create r = mutate_one db "mutate match history" r

  unfoldable pub list_by_host : String → D → Result (List (MatchHistoryRecord F))
  unfolding query_many
  list_by_host host_id d = query_many db "query match history" (λ r. r.host_id == host_id) d

  unfoldable pub list_by_host_and_indexer :
      String → String → D → Result (List (MatchHistoryRecord F))
  unfolding query_many
  list_by_host_and_indexer host_id indexer_id d =
      query_many db "query match history" (λ r. r.host_id == host_id && r.indexer_id == indexer_id)
        d
