-- ===== src/Store/ContradictionStore.antt =====
-- The `ContradictionStore` of pkg/store/contradiction_store.go: the collection of contradiction records, by its queries and
-- mutations.
pub mod Answers
use package.shinzo_scheduler_service.Base.{Action, List, Result, String, not, true, ◌==◌}
use package.shinzo_scheduler_service.Store.Records.{ContradictionRecord}
use package.shinzo_scheduler_service.Store.Db.{Db}
use package.shinzo_scheduler_service.Store.Queries.{mutate_one, query_many, update_fields}

module _ {D : Type 0} (db : Db D ContradictionRecord) where
  unfoldable pub create : ContradictionRecord → Action D ContradictionRecord
  unfolding mutate_one
  create r = mutate_one db "mutate contradiction" r

  unfoldable pub list_by_indexer : String → D → Result (List ContradictionRecord)
  unfolding query_many
  list_by_indexer indexer_id d =
      query_many db "query contradiction" (λ r. r.indexer_id == indexer_id) d

  unfoldable pub list_unresolved : D → Result (List ContradictionRecord)
  unfolding query_many
  list_unresolved d = query_many db "query contradiction" (λ r. not r.resolved) d

  unfoldable pub update : String → (ContradictionRecord → ContradictionRecord) → Action D (Unit {0})
  unfolding update_fields
  update doc_id fields = update_fields db "update contradiction" doc_id fields

  unfoldable pub mark_resolved : String → Action D (Unit {0})
  unfolding update
  mark_resolved doc_id = update doc_id (λ r. record r { resolved = true })
