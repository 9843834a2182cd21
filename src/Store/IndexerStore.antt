-- ===== src/Store/IndexerStore.antt =====
-- The `IndexerStore` of pkg/store/indexer_store.go: the collection of indexer records, by its queries and
-- mutations.
pub mod Answers
use package.shinzo_scheduler_service.Base.{Action, List, Option, Result, String, ℕ, ◌&&◌, ◌==◌}
use package.shinzo_scheduler_service.Store.Records.{IndexerRecord}
use package.shinzo_scheduler_service.Store.Status
use package.shinzo_scheduler_service.Store.Db.{Db}
use package.shinzo_scheduler_service.Store.Queries.{
  count_of, delete_one, mutate_one, query_many, query_single, update_fields,
}

module _ {D F : Type 0} (db : Db D (IndexerRecord F)) where
  unfoldable pub get_by_peer_id : String → D → Result (Option (IndexerRecord F))
  unfolding query_single
  get_by_peer_id peer_id d = query_single db "query indexer" (λ r. r.peer_id == peer_id) d

  unfoldable pub get_by_defra_pk : String → D → Result (Option (IndexerRecord F))
  unfolding query_single
  get_by_defra_pk defra_pk d = query_single db "query indexer" (λ r. r.defra_pk == defra_pk) d

  unfoldable pub list_active : String → String → D → Result (List (IndexerRecord F))
  unfolding query_many
  list_active chain network d =
      query_many db "query indexer"
        (λ r. r.chain == chain && (r.network == network && r.status == Status.active)) d

  unfoldable pub list_all_active : D → Result (List (IndexerRecord F))
  unfolding query_many
  list_all_active d = query_many db "query indexer" (λ r. r.status == Status.active) d

  unfoldable pub create : (IndexerRecord F) → Action D (IndexerRecord F)
  unfolding mutate_one
  create r = mutate_one db "mutate indexer" r

  unfoldable pub update : String → ((IndexerRecord F) → (IndexerRecord F)) → Action D (Unit {0})
  unfolding update_fields
  update doc_id fields = update_fields db "update indexer" doc_id fields

  unfoldable pub delete : String → Action D (Unit {0})
  unfolding delete_one
  delete doc_id = delete_one db "delete indexer" doc_id

  unfoldable pub count : String → D → Result ℕ
  unfolding query_many
  count status d = count_of (query_many db "query indexer" (λ r. r.status == status) d)
