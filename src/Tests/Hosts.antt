-- ===== src/Tests/Hosts.antt =====
-- The theorems on the requests of hosts (pkg/api/handlers) and on the events of the hub
-- (cmd/scheduler/main.go) at one host and its subscriptions.
use package.shinzo_scheduler_service.Base.{
  String, ◌≡◌, ◌≢◌, ◌⊎◌, refl, false, true, List, [], ◌∷◌, none, some, ok, All, arith, eq_iff,
}
use package.shinzo_scheduler_service.Base.Int.{ℤ, pos}
use package.shinzo_scheduler_service.Store.Records.{
  IndexerRecord, HostRecord, SubscriptionRecord, MatchHistoryRecord,
}
use package.shinzo_scheduler_service.Store.Documents.{
  host_document, indexer_document, subscription_document,
}
use package.shinzo_scheduler_service.Store.Status
use package.shinzo_scheduler_service.Registry.Hosts.{HostRegistry, verify_request}
use package.shinzo_scheduler_service.Subscription.Manager.Operations.{Advanced}
use package.shinzo_scheduler_service.Subscription.Manager.Runs.{Call}
use package.shinzo_scheduler_service.Subscription.Manager.Activations.{HasCause}
use package.shinzo_scheduler_service.Payment.Hub.{calls_created, calls_expired}
use package.shinzo_scheduler_service.Api.Reply.{succeeds}
use package.shinzo_scheduler_service.Api.Discovery.{Strconv}
use package.shinzo_scheduler_service.Api.Subscriptions.{
  SubscriptionHandler, State, auth_host, get, list,
}
use package.shinzo_scheduler_service.Api.Subscriptions.Ownership.{
  IsFrom, OwnChange, cancel_request, handle, handle-OwnChange,
}
use package.shinzo_scheduler_service.Api.Subscriptions.Privacy.{ShowsOwn, ListsOwn, answers_own}
use package.shinzo_scheduler_service.Api.Payments.{
  PaymentHandler, VerifyPaymentRequest, verify_payment,
}
use package.shinzo_scheduler_service.Api.Payments.Activation.{
  IsPaid, Activates, verify_payment-IsPaid,
}
use package.shinzo_scheduler_service.Scheduler.Service.{
  Service, Event, asks_cancel, pays, reacts, ticks, happen_all,
}
use package.shinzo_scheduler_service.Scheduler.Service.Causes.{
  Calls, CausedBy, happen_all-Advanced, happen_all-HasCause,
}
use package.shinzo_scheduler_service.Tests.Collections.{
  all_docs, list_db, list_db-LawfulDb, list_db-FreshIds,
}
use package.shinzo_scheduler_service.Tests.Numbers.{whole}
use package.shinzo_scheduler_service.Tests.Clock.{clock, noon}
use package.shinzo_scheduler_service.Tests.Peers.{crypto}
use package.shinzo_scheduler_service.Tests.Subscriptions.{manager, running, gone, on_file}
use package.shinzo_scheduler_service.Tests.Offers.{client, created_event}

abbrev host_registry : HostRegistry (List HostRecord) String String
host_registry = record {
  host_st = list_db host_document;
  crypto = crypto;
  chain = "ethereum";
  network = "mainnet";
  heartbeat_interval_seconds = pos 30;
}

-- The host whose id the token of the tests carries.
abbrev host : HostRecord
host = record {
  doc_id = "bae-0";
  peer_id = "indexer";
  defra_pk = "key";
  http_url = "http://host";
  multiaddr = "multiaddr";
  chain = "ethereum";
  network = "mainnet";
  last_heartbeat = "";
  registered_at = "";
  budget = "";
  status = Status.active;
}

abbrev handler :
    SubscriptionHandler ℤ
      (List SubscriptionRecord)
      (List (IndexerRecord ℤ))
      (List (MatchHistoryRecord ℤ))
      (List HostRecord)
      String
      String
handler = record { mgr = manager; host_reg = host_registry }

-- The host owns what runs, and not what was cancelled.
abbrev hosted :
    State
      (List SubscriptionRecord)
      (List (IndexerRecord ℤ))
      (List (MatchHistoryRecord ℤ))
      (List HostRecord)
hosted = record {
  managed = record on_file { subs = record running { host_id = "indexer" } ∷ gone ∷ [] };
  hosts = host ∷ [];
}

handle-OwnChange_example :
    (handle clock handler "indexer.100.key" (pos 130) (cancel_request "running") hosted ≡ hosted)
    ⊎ ((h : HostRecord) × IsFrom clock handler h "indexer.100.key" (pos 130) hosted
        × OwnChange clock handler h hosted
            (handle clock handler "indexer.100.key" (pos 130) (cancel_request "running") hosted))
handle-OwnChange_example =
    handle-OwnChange clock handler "indexer.100.key" (pos 130) (cancel_request "running") hosted

answers_own_example :
    (succeeds (get clock handler "indexer.100.key" (pos 130) "running" hosted).0 ≡ true
      → (h : HostRecord) × (auth_host clock handler "indexer.100.key" (pos 130) hosted ≡ ok h)
        × ShowsOwn h (get clock handler "indexer.100.key" (pos 130) "running" hosted).0)
    × (succeeds (list clock handler "indexer.100.key" (pos 130) "" hosted).0 ≡ true
        → (h : HostRecord) × (auth_host clock handler "indexer.100.key" (pos 130) hosted ≡ ok h)
          × ListsOwn h (list clock handler "indexer.100.key" (pos 130) "" hosted).0)
answers_own_example =
    answers_own clock handler all_docs (list_db-LawfulDb subscription_document) "indexer.100.key"
      (pos 130) "running" "" hosted

abbrev numbers : Strconv ℤ
numbers = record { parse_float = λ s. (pos 0, false); atoi = λ s. pos 0 }

abbrev payments :
    PaymentHandler ℤ
      (List SubscriptionRecord)
      (List (IndexerRecord ℤ))
      (List (MatchHistoryRecord ℤ))
      (List HostRecord)
      String
      String
payments = record {
  mgr = manager;
  indexer_st = list_db indexer_document;
  host_reg = host_registry;
  tx_verifier = some client;
  floor_tip_per_1k_blocks = pos 0;
  floor_snapshot_per_range = pos 0;
  decode_pricing = λ s. none;
}

abbrev paid : VerifyPaymentRequest
paid = record {
  subscription_id = "sub";
  payment_ref = "ref";
  expires_at = "1970-01-01T12:00:00Z";
  tx_hash = "tx";
}

-- A subscription of another host waits for its payment.
abbrev waiting :
    State
      (List SubscriptionRecord)
      (List (IndexerRecord ℤ))
      (List (MatchHistoryRecord ℤ))
      (List HostRecord)
waiting = record hosted {
  managed = record on_file {
    subs = record running { subscription_id = "sub"; status = Status.pending } ∷ [];
  };
}

verify_payment-IsPaid_example :
    ((verify_payment clock numbers payments "indexer.100.key" (pos 130) (some paid) noon waiting).1
      ≡ waiting)
    ⊎ ((h : HostRecord) × (req : VerifyPaymentRequest) × (verify_request clock host_registry
            "indexer.100.key"
            (pos 130)
            waiting.hosts
          ≡ ok h)
        × (some paid ≡ some req)
        × (req.subscription_id ≢ "")
        × (req.payment_ref ≢ "")
        × IsPaid clock numbers payments (some client) req
        × Activates clock numbers payments req noon waiting
            (verify_payment clock numbers payments "indexer.100.key"
              (pos 130)
              (some paid)
              noon
              waiting).1)
verify_payment-IsPaid_example =
    verify_payment-IsPaid clock numbers payments "indexer.100.key" (pos 130) (some paid) noon
      waiting

abbrev service :
    Service ℤ
      (List SubscriptionRecord)
      (List (IndexerRecord ℤ))
      (List (MatchHistoryRecord ℤ))
      (List HostRecord)
      String
      String
service = record {
  sub_mgr = manager;
  host_reg = host_registry;
  tx_verifier = some client;
  floor_tip_per_1k_blocks = pos 0;
  floor_snapshot_per_range = pos 0;
  decode_pricing = λ text. none;
}

-- A subscription is paid for, is created on the hub too, is cancelled by its host, and ends there.
abbrev events : List Event
events =
    pays "indexer.100.key" (pos 130) (some paid) noon
    ∷ reacts (calls_created created_event) noon
    ∷ asks_cancel "indexer.100.key" (pos 130) "sub"
    ∷ ticks noon
    ∷ reacts (calls_expired "sub") noon
    ∷ []

happen_all-Advanced_example :
    ((calls : List Call) × Calls clock numbers service events waiting calls)
    × Advanced waiting.managed.subs (happen_all clock numbers service events waiting).managed.subs
happen_all-Advanced_example =
    happen_all-Advanced clock numbers service all_docs (list_db-LawfulDb subscription_document)
      (list_db-FreshIds subscription_document (λ id r. refl)) events waiting (tt, tt)

happen_all-HasCause_example :
    All
      (HasCause (CausedBy clock numbers service events))
      (happen_all clock numbers service events waiting).managed.subs
happen_all-HasCause_example =
    happen_all-HasCause clock numbers service all_docs (list_db-LawfulDb subscription_document)
      (list_db-FreshIds subscription_document (λ id r. refl)) events waiting (tt, tt)
      (λ e. ground (arith, eq_iff Status.pending Status.active), tt)
