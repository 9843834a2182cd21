-- ===== src/Tests/Subscriptions.antt =====
-- The theorems on pkg/subscription at two subscriptions.
use package.shinzo_scheduler_service.Base.{◌≡◌, refl, inr, ◌↔◌, [], ◌∷◌, List, ok, some}
use package.shinzo_scheduler_service.Base.Int.{ℤ, pos}
use package.shinzo_scheduler_service.Store.Records.{
  SubscriptionRecord, IndexerRecord, MatchHistoryRecord,
}
use package.shinzo_scheduler_service.Store.Documents.{
  subscription_document, indexer_document, match_document,
}
use package.shinzo_scheduler_service.Store.Status
use package.shinzo_scheduler_service.Subscription.Manager.{
  CreateRequest, Manager, State, validate_create,
}
use package.shinzo_scheduler_service.Subscription.Manager.Validation.{
  IsRequest, validate_create-IsRequest,
}
use package.shinzo_scheduler_service.Subscription.Manager.Lifecycle.{subscription_on_record}
use package.shinzo_scheduler_service.Subscription.Manager.Operations.{Advanced}
use package.shinzo_scheduler_service.Subscription.Manager.Runs.{
  Call, creates, activates, cancels, expires, run_all, run_all-Over,
}
use package.shinzo_scheduler_service.Subscription.Manager.Traces.{Trace, run_all-Traced}
use package.shinzo_scheduler_service.Tests.Collections.{
  all_docs, list_db, list_db-LawfulDb, list_db-FreshIds,
}
use package.shinzo_scheduler_service.Tests.Numbers.{whole}
use package.shinzo_scheduler_service.Tests.Clock.{clock, noon}

abbrev pub manager :
    Manager ℤ (List SubscriptionRecord) (List (IndexerRecord ℤ)) (List (MatchHistoryRecord ℤ))
manager = record {
  sub_st = list_db subscription_document;
  indexer_st = list_db indexer_document;
  match_st = some (list_db match_document);
}

abbrev indexer : IndexerRecord ℤ
indexer = record {
  doc_id = "bae-0";
  peer_id = "indexer";
  defra_pk = "pk";
  http_url = "http://indexer";
  multiaddr = "";
  chain = "ethereum";
  network = "mainnet";
  current_tip = pos 100;
  snapshot_ranges = "[]";
  pricing = "";
  reliability_score = pos 1;
  last_heartbeat = "";
  registered_at = "";
  status = Status.active;
}

-- A subscription that ends at noon, and one that has been cancelled.
abbrev pub running : SubscriptionRecord
running = record {
  doc_id = "bae-0";
  subscription_id = "running";
  host_id = "host";
  indexer_id = "indexer";
  sub_type = "tip";
  block_from = pos 0;
  block_to = pos 0;
  status = Status.active;
  payment_ref = "ref";
  created_at = "";
  activated_at = "";
  expires_at = "1970-01-01T12:00:00Z";
  metadata = "";
}

abbrev pub gone : SubscriptionRecord
gone = record running { doc_id = "bae-1"; subscription_id = "gone"; status = Status.cancelled }

abbrev pub on_file :
    State (List SubscriptionRecord) (List (IndexerRecord ℤ)) (List (MatchHistoryRecord ℤ))
on_file = record { subs = running ∷ gone ∷ []; indexers = indexer ∷ []; matches = [] }

abbrev snapshot_request : CreateRequest
snapshot_request = record {
  host_id = "host";
  indexer_id = "indexer";
  sub_type = "snapshot";
  block_from = pos 1;
  block_to = pos 100;
  metadata = "";
}

-- An activation of what is cancelled, the end of the other one, and a new request.
abbrev day : List Call
day =
    activates (record { subscription_id = "gone"; payment_ref = "ref"; expires_at = "" }) (pos 0)
    ∷ expires (pos 43200000000001)
    ∷ creates snapshot_request "new" "match" noon
    ∷ cancels "running"
    ∷ []

validate_create-IsRequest_example :
    (validate_create snapshot_request ≡ ok tt) ↔ IsRequest snapshot_request
validate_create-IsRequest_example = validate_create-IsRequest snapshot_request

run_all-Traced_example :
    Trace clock manager all_docs day on_file
    × Advanced (running ∷ gone ∷ []) (run_all clock manager day on_file).subs
run_all-Traced_example =
    run_all-Traced clock manager all_docs (list_db-LawfulDb subscription_document)
      (list_db-FreshIds subscription_document (λ id r. refl)) day on_file ((refl, tt), (tt, tt))

run_all-Over_example :
    subscription_on_record "gone" (run_all clock manager day on_file).subs ≡ some gone
run_all-Over_example =
    run_all-Over clock manager all_docs (list_db-LawfulDb subscription_document)
      (list_db-FreshIds subscription_document (λ id r. refl)) day on_file "gone" gone
      ((refl, tt), (tt, tt)) refl (inr refl)
