-- ===== src/Store/HostStore.antt =====
-- The `HostStore` of pkg/store/host_store.go: the collection of host records, by its queries and
-- mutations.
pub mod Answers
use package.shinzo_scheduler_service.Base.{Action, Option, Result, String, ℕ, ◌==◌}
use package.shinzo_scheduler_service.Store.Records.{HostRecord}
use package.shinzo_scheduler_service.Store.Db.{Db}
use package.shinzo_scheduler_service.Store.Queries.{
  count_of, delete_one, mutate_one, query_many, query_single, update_fields,
}

module _ {D : Type 0} (db : Db D HostRecord) where
  unfoldable pub get_by_peer_id : String → D → Result (Option HostRecord)
  unfolding query_single
  get_by_peer_id peer_id d = query_single db "query host" (λ r. r.peer_id == peer_id) d

  unfoldable pub get_by_defra_pk : String → D → Result (Option HostRecord)
  unfolding query_single
  get_by_defra_pk defra_pk d = query_single db "query host" (λ r. r.defra_pk == defra_pk) d

  unfoldable pub create : HostRecord → Action D HostRecord
  unfolding mutate_one
  create r = mutate_one db "mutate host" r

  unfoldable pub update : String → (HostRecord → HostRecord) → Action D (Unit {0})
  unfolding update_fields
  update doc_id fields = update_fields db "update host" doc_id fields

  unfoldable pub delete : String → Action D (Unit {0})
  unfolding delete_one
  delete doc_id = delete_one db "delete host" doc_id

  unfoldable pub count : String → D → Result ℕ
  unfolding query_many
  count status d = count_of (query_many db "query host" (λ r. r.status == status) d)
