-- ===== src/Store/Documents.antt =====
-- The document ids of the records (`_docID`), for the facts about a collection.
use package.shinzo_scheduler_service.Store.Db.{Document}
use package.shinzo_scheduler_service.Store.Records.{
  DeliveryClaimRecord, AttestationRecord, SessionLedgerRecord, ComparisonResultRecord,
  EscrowAccountRecord, SettlementRecord, VerdictRecord, ContradictionRecord, SubscriptionRecord,
  MatchHistoryRecord, IndexerRecord, HostRecord, ProbeResultRecord,
}

abbrev pub claim_document : Document DeliveryClaimRecord
claim_document = record { id = λ r. r.doc_id; with_id = λ id r. record r { doc_id = id } }

abbrev pub attestation_document : Document AttestationRecord
attestation_document = record { id = λ r. r.doc_id; with_id = λ id r. record r { doc_id = id } }

abbrev pub ledger_document : {F : Type 0} → Document (SessionLedgerRecord F)
ledger_document = record { id = λ r. r.doc_id; with_id = λ id r. record r { doc_id = id } }

abbrev pub comparison_document : Document ComparisonResultRecord
comparison_document = record { id = λ r. r.doc_id; with_id = λ id r. record r { doc_id = id } }

abbrev pub escrow_document : {F : Type 0} → Document (EscrowAccountRecord F)
escrow_document = record { id = λ r. r.doc_id; with_id = λ id r. record r { doc_id = id } }

abbrev pub settlement_document : {F : Type 0} → Document (SettlementRecord F)
settlement_document = record { id = λ r. r.doc_id; with_id = λ id r. record r { doc_id = id } }

abbrev pub verdict_document : Document VerdictRecord
verdict_document = record { id = λ r. r.doc_id; with_id = λ id r. record r { doc_id = id } }

abbrev pub contradiction_document : Document ContradictionRecord
contradiction_document = record { id = λ r. r.doc_id; with_id = λ id r. record r { doc_id = id } }

abbrev pub subscription_document : Document SubscriptionRecord
subscription_document = record { id = λ r. r.doc_id; with_id = λ id r. record r { doc_id = id } }

abbrev pub match_document : {F : Type 0} → Document (MatchHistoryRecord F)
match_document = record { id = λ r. r.doc_id; with_id = λ id r. record r { doc_id = id } }

abbrev pub indexer_document : {F : Type 0} → Document (IndexerRecord F)
indexer_document = record { id = λ r. r.doc_id; with_id = λ id r. record r { doc_id = id } }

abbrev pub host_document : Document HostRecord
host_document = record { id = λ r. r.doc_id; with_id = λ id r. record r { doc_id = id } }

abbrev pub probe_result_document : Document ProbeResultRecord
probe_result_document = record { id = λ r. r.doc_id; with_id = λ id r. record r { doc_id = id } }
