-- ===== src/Store/SubscriptionStore.antt =====
-- The `SubscriptionStore` of pkg/store/subscription_store.go: the collection of subscription records, by its queries and
-- mutations.
pub mod Answers
use package.shinzo_scheduler_service.Base.{Action, List, Option, Result, String, ◌==◌}
use package.shinzo_scheduler_service.Store.Records.{SubscriptionRecord}
use package.shinzo_scheduler_service.Store.Db.{Db}
use package.shinzo_scheduler_service.Store.Queries.{
  mutate_one, query_many, query_single, update_fields,
}

module _ {D : Type 0} (db : Db D SubscriptionRecord) where
  unfoldable pub get_by_id : String → D → Result (Option SubscriptionRecord)
  unfolding query_single
  get_by_id sub_id d = query_single db "query subscription" (λ r. r.subscription_id == sub_id) d

  unfoldable pub list_by_host : String → D → Result (List SubscriptionRecord)
  unfolding query_many
  list_by_host host_id d = query_many db "query subscription" (λ r. r.host_id == host_id) d

  unfoldable pub list_by_status : String → D → Result (List SubscriptionRecord)
  unfolding query_many
  list_by_status status d = query_many db "query subscription" (λ r. r.status == status) d

  unfoldable pub create : SubscriptionRecord → Action D SubscriptionRecord
  unfolding mutate_one
  create r = mutate_one db "mutate subscription" r

  unfoldable pub update : String → (SubscriptionRecord → SubscriptionRecord) → Action D (Unit {0})
  unfolding update_fields
  update doc_id fields = update_fields db "update subscription" doc_id fields
