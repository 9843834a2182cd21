-- ===== src/Store/RatingStore.antt =====
-- The `RatingStore` of pkg/store/rating_store.go: the collection of ratings.
use package.shinzo_scheduler_service.Base.{
  Action, List, Result, String, ok, err, ◌==◌, if◌then◌else◌,
}
use package.shinzo_scheduler_service.Store.Records.{RatingRecord}
use package.shinzo_scheduler_service.Store.Db.{Db, has_errors}
use package.shinzo_scheduler_service.Store.Queries.{query_many}

module _ {D F : Type 0} (db : Db D (RatingRecord F)) where
  unfoldable pub create : RatingRecord F → Action D (Unit {0})
  create r d =
      let (res, d') = db.create r d in (if has_errors res then err "create rating" else ok tt, d')

  unfoldable pub list_by_indexer : String → D → Result (List (RatingRecord F))
  unfolding query_many
  list_by_indexer indexer_id d = query_many db "query ratings" (λ r. r.indexer_id == indexer_id) d
