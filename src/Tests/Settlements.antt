-- ===== src/Tests/Settlements.antt =====
-- The theorems on batches, verdicts and contradictions (pkg/settlement) at small collections.
use package.shinzo_scheduler_service.Base.{
  String, ◌≡◌, refl, ◌⊎◌, some, map, [], ◌∷◌, List, false, ok, err, elem,
}
use package.shinzo_scheduler_service.Base.Sets.{Distinct}
use package.shinzo_scheduler_service.Base.Int.{ℤ, pos}
use package.shinzo_scheduler_service.Store.Records.{
  ContradictionRecord, SettlementRecord, EscrowAccountRecord, SessionLedgerRecord,
}
use package.shinzo_scheduler_service.Store.Documents.{
  escrow_document, ledger_document, settlement_document, contradiction_document,
}
use package.shinzo_scheduler_service.Store.ContradictionStore
use package.shinzo_scheduler_service.Settlement.Batch.{BatchProcessor, Closing, process_batch}
use package.shinzo_scheduler_service.Settlement.Batch.Amounts.{ClosesAll}
use package.shinzo_scheduler_service.Settlement.Batch.Atomic.{Sent, Unwritten, process_batch_atomic}
use package.shinzo_scheduler_service.Settlement.Tendermint.{
  Encoding, TendermintBroadcaster, new_tendermint_broadcaster,
}
use package.shinzo_scheduler_service.Settlement.Tendermint.Posts.{
  Accepted, posting, process_batch-Accepted,
}
use package.shinzo_scheduler_service.Settlement.Batch.Records.{
  Appended, Settled, process_batch-Appended,
}
use package.shinzo_scheduler_service.Settlement.Contradiction.{
  ContradictionAggregator, check_and_slash,
}
use package.shinzo_scheduler_service.Settlement.Contradiction.Slashes.{
  send_all, message_on, is_due, check_and_slash-hub,
}
use package.shinzo_scheduler_service.Tests.Collections.{all_docs, list_db, list_db-LawfulDb}
use package.shinzo_scheduler_service.Tests.Numbers.{whole, whole-IsIeee}
use package.shinzo_scheduler_service.Tests.Clock.{clock, noon}
use package.shinzo_scheduler_service.Tests.Accounts.{notebook, config, paid_in}

abbrev batches :
    BatchProcessor ℤ
      (List (EscrowAccountRecord ℤ))
      (List (SessionLedgerRecord ℤ))
      (List (SettlementRecord ℤ))
      (List String)
batches = record {
  settle_st = list_db settlement_document;
  escrow_st = list_db escrow_document;
  ledger_st = list_db ledger_document;
  hub = notebook;
}

process_batch_atomic_example :
    let t =
      process_batch clock batches
        ("session" ∷ "gone" ∷ [])
        "expired"
        "batch"
        (λ k. "id")
        noon
        paid_in in
    ((t.0 ≡ ok tt)
      × ((cs : List (Closing ℤ)) × ClosesAll clock batches all_docs all_docs
            (list_db-LawfulDb escrow_document)
            (list_db-LawfulDb ledger_document)
            paid_in
            ("session" ∷ "gone" ∷ [])
            cs
          × Sent clock batches "batch" paid_in t.1 cs))
    ⊎ ((e : String) × (t.0 ≡ err e) × Unwritten clock batches paid_in t.1)
process_batch_atomic_example =
    process_batch_atomic clock batches all_docs all_docs (list_db-LawfulDb escrow_document)
      (list_db-LawfulDb ledger_document) "session" ("gone" ∷ []) "expired" "batch" (λ k. "id") noon
      paid_in whole-IsIeee

process_batch-Appended_example :
    Appended
      (Settled "batch")
      []
      (process_batch clock batches
        ("session" ∷ [])
        "expired"
        "batch"
        (λ k. "id")
        noon
        paid_in).1.settlements
process_batch-Appended_example =
    process_batch-Appended clock batches all_docs (list_db-LawfulDb settlement_document)
      ("session" ∷ []) "expired" "batch" (λ k. "id") noon paid_in

-- A node that notes the bodies of its requests and accepts all of them.
abbrev node : TendermintBroadcaster (List String)
node =
    new_tendermint_broadcaster "http://node:26657/" "scheduler-1"
      (λ url body h. (ok "accepted", body ∷ h))

-- A message is marshalled as the id of its session, batch or indexer.
abbrev wire : Encoding ℤ
wire = record {
  marshal_close_session = λ msg. some msg.session_id;
  marshal_batch_settlement = λ msg. some msg.batch_id;
  marshal_low_credit = λ msg. some msg.session_id;
  marshal_slash = λ msg. some msg.indexer_id;
  encode_base64 = λ text. text;
  unmarshal_response = λ body. some (record { code = pos 0; hash = body; log = "" });
}

process_batch-Accepted_example :
    let bp = posting clock wire node batches in
    let t = process_batch clock bp ("session" ∷ []) "expired" "batch" (λ k. "id") noon paid_in in
    ((t.0 ≡ ok tt)
      × ((cs : List (Closing ℤ)) × (tx_hash : String) × ClosesAll clock bp all_docs all_docs
            (list_db-LawfulDb escrow_document)
            (list_db-LawfulDb ledger_document)
            paid_in
            ("session" ∷ [])
            cs
          × Accepted wire node
              (wire.marshal_batch_settlement
                (record { batch_id = "batch"; sessions = map (λ c. c.msg) cs }))
              tx_hash
              []
              t.1.hub))
    ⊎ ((e : String) × (t.0 ≡ err e) × Unwritten clock bp paid_in t.1)
process_batch-Accepted_example =
    process_batch-Accepted clock wire node batches all_docs all_docs
      (list_db-LawfulDb escrow_document) (list_db-LawfulDb ledger_document) "session" [] "expired"
      "batch" (λ k. "id") noon paid_in whole-IsIeee

abbrev contradiction : ContradictionRecord
contradiction = record {
  doc_id = "bae-0";
  evidence_id = "evidence";
  indexer_id = "indexer";
  snapshot_range = "1-100";
  probed_at = "";
  resolved = false;
}

abbrev twice : List ContradictionRecord
twice = contradiction ∷ record contradiction { doc_id = "bae-1" } ∷ []

abbrev aggregator : ContradictionAggregator ℤ (List ContradictionRecord) (List String)
aggregator = record {
  contradiction_st = list_db contradiction_document;
  hub = notebook;
  cfg = config;
}

check_and_slash-hub_example :
    (ids : List String) × Distinct ids
    × ((i : String) → elem i ids ≡ is_due config.contradiction_threshold twice i)
    × ((check_and_slash clock aggregator
          (λ ids. ids)
          (record { contradictions = twice; hub = [] })).hub
        ≡ send_all clock aggregator (map (message_on clock twice) ids) [])
unfolding ContradictionStore.list_unresolved
check_and_slash-hub_example =
    check_and_slash-hub clock aggregator all_docs (list_db-LawfulDb contradiction_document)
      (λ ids. ids) (record { contradictions = twice; hub = [] }) twice (λ ids d. d, λ ids i. refl)
      refl
