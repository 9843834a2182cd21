-- ===== src/Tests/Sessions.antt =====
-- A session under accounting: its claim, its attestation and its ledger, on record.
use package.shinzo_scheduler_service.Base.{String, some, List, [], ◌∷◌, true, ok}
use package.shinzo_scheduler_service.Base.Int.{ℤ, pos}
use package.shinzo_scheduler_service.Store.Records.{
  DeliveryClaimRecord, AttestationRecord, SessionLedgerRecord, ComparisonResultRecord,
}
use package.shinzo_scheduler_service.Store.Documents.{
  claim_document, attestation_document, ledger_document, comparison_document,
}
use package.shinzo_scheduler_service.Store.Status
use package.shinzo_scheduler_service.Accounting.Manager.{
  Manager, State, EscalationHandler, SubmitClaimRequest,
}
use package.shinzo_scheduler_service.Tests.Collections.{list_db}

abbrev pub claim_7 : DeliveryClaimRecord
claim_7 = record {
  doc_id = "bae-0";
  claim_id = "claim";
  session_id = "session";
  indexer_id = "indexer";
  block_number = pos 7;
  doc_cids = "[\"cid\"]";
  block_hash = "hash";
  batch_signature = "sig";
  submitted_at = "1970-01-01T00:00:00Z";
  status = Status.pending;
}

abbrev pub attestation_7 : AttestationRecord
attestation_7 = record {
  doc_id = "bae-0";
  attestation_id = "attestation";
  session_id = "session";
  host_id = "host";
  block_number = pos 7;
  doc_cids_received = "[\"cid\"]";
  batch_signature = "sig";
  submitted_at = "1970-01-01T00:00:00Z";
  status = Status.pending;
}

abbrev pub ledger : SessionLedgerRecord ℤ
ledger = record {
  doc_id = "bae-0";
  ledger_id = "ledger";
  session_id = "session";
  host_id = "host";
  indexer_id = "indexer";
  blocks_verified = pos 3;
  credit_remaining = pos 70;
  initial_escrow = pos 100;
  price_per_block = pos 10;
  last_compared_block = pos 6;
  updated_at = "";
}

-- A handler that notes the sessions that it is told of.
abbrev notes : EscalationHandler (List String)
notes = record {
  on_mismatch = λ session_id claim_id attest_id h. (ok tt, session_id ∷ h);
  on_under_report_expired = λ session_id claim_id attest_id h. (ok tt, session_id ∷ h);
}

abbrev pub manager :
    Manager ℤ
      (List DeliveryClaimRecord)
      (List AttestationRecord)
      (List (SessionLedgerRecord ℤ))
      (List ComparisonResultRecord)
      (List String)
manager = record {
  claim_st = list_db claim_document;
  attest_st = list_db attestation_document;
  ledger_st = list_db ledger_document;
  comp_st = list_db comparison_document;
  escalation = some notes;
  cfg = record {
    enabled = true;
    comparison_interval_seconds = pos 30;
    attestation_window_seconds = pos 300;
    under_report_grace_seconds = pos 600;
  };
}

abbrev pub delivered :
    State
      (List DeliveryClaimRecord)
      (List AttestationRecord)
      (List (SessionLedgerRecord ℤ))
      (List ComparisonResultRecord)
      (List String)
delivered = record {
  claims = claim_7 ∷ [];
  attests = attestation_7 ∷ [];
  ledgers = ledger ∷ [];
  comps = [];
  hub = [];
}

abbrev pub claim_request : SubmitClaimRequest
claim_request = record {
  session_id = "session";
  indexer_id = "indexer";
  block_number = pos 7;
  doc_cids = "[\"cid\"]";
  block_hash = "hash";
  batch_signature = "sig";
}
