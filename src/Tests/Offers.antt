-- ===== src/Tests/Offers.antt =====
-- The theorems on pkg/discovery, pkg/payment and config/config.go at small values.
use package.shinzo_scheduler_service.Base.{
  String, Action, ◌⊎◌, inr, arith, ◌≤◌, ◌≡◌, ◌↔◌, refl, [], ◌∷◌, List, ok, err, Result, none, some,
  false, true, All, is_some,
}
use package.shinzo_scheduler_service.Base.Int.{ℤ, pos, ◌<ℤ◌, ◌+ℤ◌, wrap64, ◌-ℤ◌}
use package.shinzo_scheduler_service.Store.Records.{IndexerRecord, MatchHistoryRecord}
use package.shinzo_scheduler_service.Store.Documents.{indexer_document}
use package.shinzo_scheduler_service.Store.IndexerStore
use package.shinzo_scheduler_service.Discovery.Query.{
  Discoverer, TipQuery, SnapshotQuery, IndexerMatch,
}
use package.shinzo_scheduler_service.Discovery.Query.Tip.{
  reference_tip, candidates_of, find_for_tip,
}
use package.shinzo_scheduler_service.Discovery.Query.Tip.Offers.{
  IsSort, IsOffer, find_for_tip-IsOffer,
}
use package.shinzo_scheduler_service.Discovery.Query.Snapshot.{find_for_snapshot}
use package.shinzo_scheduler_service.Discovery.Query.Snapshot.Tiers.{
  HoldersFirst, MeetsRange, find_for_snapshot-HoldersFirst,
}
use package.shinzo_scheduler_service.Payment.Client.{
  Client, TxEvent, TxResult, event_subscription_created, event_subscription_expired,
  verify_subscription_payment,
}
use package.shinzo_scheduler_service.Payment.Client.Evidence.{
  HasPayment, verify_subscription_payment-HasPayment,
}
use package.shinzo_scheduler_service.Payment.Hub.Connection.{
  WsConn, WsDialer, subscribe_to, start, read_loop,
}
use package.shinzo_scheduler_service.Payment.Hub.Handshake.{Exchanged, Closed, start-cases}
use package.shinzo_scheduler_service.Payment.Hub.Reader.{reactions, read_loop-returns}
use package.shinzo_scheduler_service.Payment.Hub.{
  ShinzoHubSubscriber, SubscriptionCreatedEvent, calls_created, dispatch, wait_epoch,
}
use package.shinzo_scheduler_service.Payment.Hub.Dispatch.{
  IsDue, Reached, dispatch-IsDue, wait_epoch-Reached,
}
use package.shinzo_scheduler_service.Config.{defaults, validate}
use package.shinzo_scheduler_service.Config.Validation.{IsConfig, validate-IsConfig}
use package.shinzo_scheduler_service.Tests.Collections.{all_docs, list_db, list_db-LawfulDb}
use package.shinzo_scheduler_service.Tests.Numbers.{whole}
use package.shinzo_scheduler_service.Tests.Clock.{clock, noon}
use package.shinzo_scheduler_service.Discovery.Query.{
  is_stale, parse_pricing, load_diversity_map, apply_diversity, to_match, overlapping_ranges,
}
use package.shinzo_scheduler_service.Discovery.Query.Tip.{
  tip_filtered, tip_candidate, lags, tip_match,
}
use package.shinzo_scheduler_service.Discovery.Query.Snapshot.{
  snapshot_tiers, snapshot_candidate, snapshot_match,
}
use package.shinzo_scheduler_service.Discovery.Pricing.{price_overlaps}
use package.shinzo_scheduler_service.Base.Time.{since}
use package.shinzo_scheduler_service.Tests.Peers.{indexer}

-- An order that leaves lists as they are.
abbrev pub discoverer : Discoverer ℤ (List (IndexerRecord ℤ)) (List (MatchHistoryRecord ℤ))
discoverer = record {
  indexer_st = list_db indexer_document;
  match_st = none;
  cfg = record {
    staleness_window = pos 120000000000;
    tip_exclusion_threshold = pos 50;
    diversity_enabled = false;
    recency_window = pos 0;
  };
  sort = λ before xs. xs;
  decode_pricing = λ s. none;
  decode_ranges = λ s. none;
}

sort-IsSort : IsSort discoverer.sort
sort-IsSort = record { sort_All = λ before P xs h. h; sort_length = λ before xs. refl }

abbrev tip_query : TipQuery ℤ
tip_query = record {
  chain = "ethereum";
  network = "mainnet";
  min_reliability = pos 0;
  limit = pos 1;
  host_budget = none;
  host_id = "host";
}

abbrev pub offer : IndexerMatch ℤ
offer = record {
  peer_id = "indexer";
  http_url = "http://indexer";
  multiaddr = "multiaddr";
  chain = "ethereum";
  network = "mainnet";
  current_tip = pos 100;
  reliability_score = pos 1;
  pricing = none;
  snapshots = [];
  clearing_price = pos 0;
  snapshot_creation_required = false;
}

find_for_tip-IsOffer_example :
    All
      (IsOffer clock discoverer tip_query noon
        (reference_tip clock discoverer
          (pos 0)
          (candidates_of clock discoverer tip_query noon (indexer ∷ [])))
        (indexer ∷ []))
      (offer ∷ [])
    × (pos 0 <ℤ pos 1 → 1 ≤ 1)
unfolding find_for_tip IndexerStore.list_active tip_filtered candidates_of tip_candidate is_stale
    since parse_pricing price_overlaps reference_tip lags tip_match to_match load_diversity_map
    apply_diversity whole wrap64 ◌-ℤ◌
find_for_tip-IsOffer_example =
    find_for_tip-IsOffer clock discoverer all_docs (list_db-LawfulDb indexer_document) sort-IsSort
      tip_query noon (indexer ∷ []) [] (offer ∷ []) refl

abbrev snapshot_query : SnapshotQuery ℤ
snapshot_query = record {
  chain = "ethereum";
  network = "mainnet";
  block_from = pos 1;
  block_to = pos 100;
  limit = pos 5;
  host_budget = none;
  host_id = "host";
}

find_for_snapshot-HoldersFirst_example :
    HoldersFirst (record offer { snapshot_creation_required = true } ∷ [])
    × All (MeetsRange snapshot_query) (record offer { snapshot_creation_required = true } ∷ [])
unfolding find_for_snapshot IndexerStore.list_active snapshot_tiers snapshot_candidate
    snapshot_match is_stale since parse_pricing price_overlaps to_match load_diversity_map
    apply_diversity overlapping_ranges whole wrap64 ◌-ℤ◌
find_for_snapshot-HoldersFirst_example =
    find_for_snapshot-HoldersFirst clock discoverer sort-IsSort snapshot_query noon (indexer ∷ [])
      [] (record offer { snapshot_creation_required = true } ∷ []) refl

abbrev payment : TxEvent
payment = record {
  kind = "SubscriptionCreated";
  attributes = ("subscription_id", "sub") ∷ ("data", "text") ∷ [];
}

abbrev pub client : Client
client = record {
  trim_0x = λ s. s;
  decode_hex = λ s. some s;
  length = λ s. 64;
  fetch = λ s. ok (record { hash = s; events = payment ∷ [] });
}

verify_subscription_payment-HasPayment_example :
    (verify_subscription_payment client "tx" "sub" ≡ ok tt) ↔ (
      (tx : TxResult) × (is_some (client.decode_hex (client.trim_0x "tx")) ≡ true)
      × (client.length (client.trim_0x "tx") ≡ 64)
      × (client.fetch (client.trim_0x "tx") ≡ ok tx)
      × HasPayment client "sub" tx.events)
verify_subscription_payment-HasPayment_example =
    verify_subscription_payment-HasPayment client "tx" "sub"

abbrev pub created_event : SubscriptionCreatedEvent
created_event = record {
  subscription_id = "sub";
  host_id = "host";
  indexer_id = "indexer";
  sub_type = "tip";
  block_from = pos 0;
  block_to = pos 0;
  payment_amount = "5";
  expires_at = "1970-01-01T12:00:00Z";
}

abbrev pub subscriber : ShinzoHubSubscriber
subscriber = record {
  rpc_url = "node:26657";
  epoch_size = pos 10;
  on_created = true;
  on_expired = true;
  decode_created = λ text. some created_event;
  decode_envelope = λ raw. some (pos 7, payment ∷ []);
}

dispatch-IsDue_example : All (IsDue subscriber (pos 7)) (dispatch subscriber (pos 7) (payment ∷ []))
dispatch-IsDue_example = dispatch-IsDue subscriber (pos 7) (payment ∷ [])

-- A connection to a hub with some messages to send: it is closed when there is no other.
abbrev receive : Action (List String) String
receive [] = (err "closed", [])
receive (msg ∷ msgs) = (ok msg, msgs)

abbrev conn : WsConn (List String)
conn = record { write_json = λ msg msgs. (ok tt, msgs); read_message = receive; close = λ msgs. [] }

abbrev dialer : WsDialer (List String)
dialer = record { dial = λ url msgs. (ok conn, msgs) }

-- An event that comes between the two subscriptions is taken for the second answer.
abbrev messages : List String
messages = "ack" ∷ "event" ∷ "ack" ∷ []

start-cases_example :
    let t = start subscriber dialer messages in
    let dialled = dialer.dial subscriber.rpc_url messages in
    ((c : WsConn (List String)) × (between : List String) × (t.0 ≡ ok c)
      × (dialled.0 ≡ ok c)
      × Exchanged c (subscribe_to (pos 1) event_subscription_created) dialled.1 between
      × Exchanged c (subscribe_to (pos 2) event_subscription_expired) between t.1)
    ⊎ ((e : String) × (t.0 ≡ err e)
        × (((e' : String) × (dialled ≡ (err e', t.1)))
            ⊎ ((c : WsConn (List String)) × (dialled.0 ≡ ok c) × Closed c t.1)))
start-cases_example = start-cases subscriber dialer messages

read_loop-returns_example :
    read_loop subscriber conn (λ k. false) 3 ("event" ∷ "event" ∷ [])
    ≡ some (reactions subscriber ("event" ∷ "event" ∷ []), [])
read_loop-returns_example =
    read_loop-returns subscriber conn (λ k. false) ("event" ∷ "event" ∷ []) 3
      ("event" ∷ "event" ∷ []) [] [] (refl, refl, (refl, refl, refl))
      (inr (refl, "closed", refl, refl)) (omega arith)

abbrev polls : List (Result ℤ)
polls = err "status request" ∷ ok (pos 12) ∷ ok (pos 18) ∷ []

wait_epoch-Reached_example :
    (wait_epoch subscriber (pos 7) created_event polls ≡ some (calls_created created_event))
    ↔ Reached subscriber (wrap64 (pos 7 +ℤ pos 10)) polls
wait_epoch-Reached_example = wait_epoch-Reached subscriber (pos 7) created_event polls

validate-IsConfig_example :
    (validate (record (defaults {F = ℤ}) { chain = "ethereum"; network = "mainnet" }) ≡ ok tt)
    ↔ IsConfig (record (defaults {F = ℤ}) { chain = "ethereum"; network = "mainnet" })
validate-IsConfig_example =
    validate-IsConfig (record (defaults {F = ℤ}) { chain = "ethereum"; network = "mainnet" })
