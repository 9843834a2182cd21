-- ===== src/Tests/Probes.antt =====
-- The theorems on the prober and its history (pkg/probe, pkg/store/probe_store.go), and on the
-- bootstrap (cmd/scheduler/main.go), at one indexer.
use package.shinzo_scheduler_service.Base.{
  String, ◌≡◌, ◌≢◌, refl, true, List, [], ◌∷◌, Option, none, some, ap, subst, ◌==◌, if◌then◌else◌,
}
use package.shinzo_scheduler_service.Base.Decimal.{parse_int}
use package.shinzo_scheduler_service.Base.Int.{ℤ, pos, wrap64, ◌-ℤ◌}
use package.shinzo_scheduler_service.Base.Time.{since}
use package.shinzo_scheduler_service.Store.Records.{
  IndexerRecord, ProbeResultRecord, ContradictionRecord,
}
use package.shinzo_scheduler_service.Store.Documents.{
  indexer_document, probe_result_document, contradiction_document,
}
use package.shinzo_scheduler_service.Store.Queries.{query_many, delete_one}
use package.shinzo_scheduler_service.Store.IndexerStore
use package.shinzo_scheduler_service.Store.ProbeStore.{
  prune_oldest, prune, list_by_indexer, delete_all, sort_probe_results_asc, sort_rest, move_down,
}
use package.shinzo_scheduler_service.Store.ProbeStore.Pruning.{Pruned}
use package.shinzo_scheduler_service.Store.ProbeStore.History.{prune_oldest-Pruned}
use package.shinzo_scheduler_service.Auth.{
  verify_signature, check, out_of_window, verify_request_token, extract_peer_id, cut, split_token,
}
use package.shinzo_scheduler_service.Registry.Indexers.{
  RegisterIndexerRequest, register, update_reliability, verify_registration, verify_messages,
  verify_request,
}
use package.shinzo_scheduler_service.Config.{BootstrapIndexer, defaults}
use package.shinzo_scheduler_service.Probe.Prober.{Prober, State, probe_one}
use package.shinzo_scheduler_service.Probe.Prober.Effects.{probed}
use package.shinzo_scheduler_service.Probe.Prober.Rounds.{
  Call, registers, heartbeats, deregisters, probes, run, run_all,
}
use package.shinzo_scheduler_service.Probe.Prober.Scores.{HasScores, run_all-HasScores}
use package.shinzo_scheduler_service.Probe.Prober.Silence.{statuses, probe_again-statuses}
use package.shinzo_scheduler_service.Scheduler.{bootstrap_record, seed_one}
use package.shinzo_scheduler_service.Scheduler.Bootstrap.{seeded-never_verified}
use package.shinzo_scheduler_service.Tests.Collections.{all_docs, list_db, list_db-LawfulDb}
use package.shinzo_scheduler_service.Tests.Numbers.{whole, whole-IsIeee, whole-HasExactUnits}
use package.shinzo_scheduler_service.Tests.Clock.{clock, noon}
use package.shinzo_scheduler_service.Tests.Peers.{registry, indexer}

abbrev probe_at : String → String → ProbeResultRecord
probe_at id time = record {
  doc_id = id;
  indexer_id = "indexer";
  probed_at = time;
  success = true;
  tip = pos 100;
  latency_ms = pos 5;
}

-- Three probes of the indexer, not in order, and one of another.
abbrev history : List ProbeResultRecord
history =
    probe_at "b" "12:02"
    ∷ probe_at "a" "12:01"
    ∷ record (probe_at "x" "12:00") { indexer_id = "other" }
    ∷ probe_at "c" "12:03"
    ∷ []

prune_oldest-Pruned_example :
    Pruned "indexer" 2 history
      (prune_oldest (list_db probe_result_document) "indexer" (pos 2) history).1
unfolding prune_oldest prune list_by_indexer query_many delete_all delete_one sort_probe_results_asc
    sort_rest move_down
prune_oldest-Pruned_example =
    prune_oldest-Pruned (list_db probe_result_document) all_docs
      (list_db-LawfulDb probe_result_document) "indexer" 2 history
      ((refl, (refl, (refl, tt))), ((refl, (refl, tt)), ((refl, tt), (tt, tt)))) refl

-- The indexer answers nothing.
abbrev prober :
    Prober ℤ
      (List (IndexerRecord ℤ))
      (List ProbeResultRecord)
      (List ContradictionRecord)
      String
      String
prober = record {
  cfg = (defaults {F = ℤ}).probe;
  indexer_reg = registry;
  indexer_st = list_db indexer_document;
  probe_st = list_db probe_result_document;
  contradiction_st = some (list_db contradiction_document);
  get = λ url. none;
  show_millis = λ t. "0";
}

abbrev on_record :
    State (List (IndexerRecord ℤ)) (List ProbeResultRecord) (List ContradictionRecord)
on_record = record { indexers = indexer ∷ []; probes = history; contradictions = [] }

abbrev calls : List (Call ℤ)
calls =
    probes (λ i. (noon, noon))
    ∷ heartbeats "indexer" (record { current_tip = pos 101; snapshot_ranges = "[]" }) noon
    ∷ probes (λ i. (noon, noon))
    ∷ deregisters "indexer"
    ∷ []

run_all-HasScores_example : HasScores (run_all clock prober calls on_record).indexers
unfolding whole
run_all-HasScores_example =
    run_all-HasScores whole-IsIeee whole-HasExactUnits clock prober all_docs
      (list_db-LawfulDb indexer_document) (list_db-LawfulDb indexer_document) calls on_record
      ((refl, refl), tt)

-- A second probe at noon, of an indexer that has never answered.
probe_again-statuses_example :
    let after = (probe_one clock prober indexer (pos 60) noon noon on_record).1 in
    statuses
      (probe_one clock prober
        (probed clock prober indexer (pos 60) noon indexer)
        (pos 60)
        noon
        noon
        after).1.indexers
    ≡ statuses after.indexers
unfolding since wrap64 ◌-ℤ◌ probe_one update_reliability IndexerStore.update
probe_again-statuses_example =
    probe_again-statuses clock prober all_docs (list_db-LawfulDb indexer_document) indexer
      (probed clock prober indexer (pos 60) noon indexer) (pos 60) noon noon noon noon noon
      on_record (probe_one clock prober indexer (pos 60) noon noon on_record).1 refl refl refl refl
      refl

-- An empty text is no public key.
abbrev strict :
    Prober ℤ
      (List (IndexerRecord ℤ))
      (List ProbeResultRecord)
      (List ContradictionRecord)
      String
      String
strict = record prober {
  indexer_reg = record registry {
    crypto = record (registry.crypto) {
      parse_pub_key = λ key. if key == "" then none else some key;
    };
  };
}

abbrev text_of : Option String → String
text_of none = ""
text_of (some text) = text

empty-no_key :
    (bytes : String)
    → strict.indexer_reg.crypto.decode_hex "" ≡ some bytes
    → strict.indexer_reg.crypto.parse_pub_key bytes ≡ none
empty-no_key bytes e =
    subst (λ b. strict.indexer_reg.crypto.parse_pub_key b ≡ none) (ap text_of e) refl

abbrev seed : BootstrapIndexer
seed = record { peer_id = "seed"; http_url = "http://seed"; multiaddr = "multiaddr" }

-- The registration of the seeded peer with its own key.
abbrev registration : RegisterIndexerRequest
registration = record {
  peer_id = "seed";
  defra_pk = "seed_key";
  signed_messages = ("message", "seed_key") ∷ [];
  http_url = "http://seed";
  multiaddr = "multiaddr";
  chain = "ethereum";
  network = "mainnet";
  pricing = "";
}

seeded-never_verified_example : indexer.peer_id ≢ "seed"
unfolding run_all run register verify_registration verify_messages verify_signature
    IndexerStore.update verify_request extract_peer_id IndexerStore.get_by_peer_id
    verify_request_token split_token cut parse_int out_of_window check IndexerStore.create seed_one
    wrap64 ◌-ℤ◌
seeded-never_verified_example =
    seeded-never_verified clock strict all_docs (list_db-LawfulDb indexer_document)
      (list_db-LawfulDb indexer_document) empty-no_key (defaults {F = ℤ}) seed noon on_record
      (record (bootstrap_record clock (defaults {F = ℤ}) seed noon) { doc_id = "bae-0bae-" }) refl
      refl (registers registration noon ∷ []) "indexer.100.key" (pos 130) indexer refl
