-- ===== src/Tests/Accounts.antt =====
-- An escrow account with its ledger: 100 paid in, 10 for a block, 9 blocks verified.
use package.shinzo_scheduler_service.Base.{String, List, [], ◌∷◌, true, false, ok}
use package.shinzo_scheduler_service.Base.Int.{ℤ, pos}
use package.shinzo_scheduler_service.Store.Records.{
  EscrowAccountRecord, SessionLedgerRecord, SettlementRecord,
}
use package.shinzo_scheduler_service.Store.Documents.{escrow_document, ledger_document}
use package.shinzo_scheduler_service.Store.Status
use package.shinzo_scheduler_service.Settlement.Hub.{HubBroadcaster, SettlementConfig, State}
use package.shinzo_scheduler_service.Settlement.Escrow.{EscrowManager}
use package.shinzo_scheduler_service.Tests.Collections.{list_db}

-- A hub that notes the session, batch or indexer of each message.
abbrev pub notebook : HubBroadcaster ℤ (List String)
notebook = record {
  broadcast_close_session = λ msg h. (ok "tx", msg.session_id ∷ h);
  broadcast_batch_settlement = λ msg h. (ok "tx", msg.batch_id ∷ h);
  broadcast_low_credit = λ msg h. (ok "tx", msg.session_id ∷ h);
  broadcast_slash = λ msg h. (ok "tx", msg.indexer_id ∷ h);
}

abbrev pub config : SettlementConfig ℤ
config = record {
  enabled = true;
  drain_interval_seconds = pos 10;
  low_credit_multiplier = pos 2;
  grace_period_seconds = pos 300;
  settlement_window_blocks = pos 100;
  verdict_threshold_m = pos 2;
  verdict_threshold_n = pos 3;
  scheduler_key_path = "";
  contradiction_threshold = pos 2;
  contradiction_check_interval_seconds = pos 300;
}

abbrev pub account : EscrowAccountRecord ℤ
account = record {
  doc_id = "bae-0";
  escrow_id = "escrow";
  session_id = "session";
  host_id = "host";
  indexer_id = "indexer";
  initial_balance = pos 100;
  current_balance = pos 100;
  price_per_block = pos 10;
  low_water_threshold = pos 20;
  low_credit_signaled = false;
  grace_period_ends_at = "";
  status = Status.active;
  created_at = "";
  updated_at = "";
}

abbrev pub verified : SessionLedgerRecord ℤ
verified = record {
  doc_id = "bae-0";
  ledger_id = "ledger";
  session_id = "session";
  host_id = "host";
  indexer_id = "indexer";
  blocks_verified = pos 9;
  credit_remaining = pos 10;
  initial_escrow = pos 100;
  price_per_block = pos 10;
  last_compared_block = pos 9;
  updated_at = "";
}

abbrev pub escrows :
    EscrowManager ℤ (List (EscrowAccountRecord ℤ)) (List (SessionLedgerRecord ℤ)) (List String)
escrows = record {
  escrow_st = list_db escrow_document;
  ledger_st = list_db ledger_document;
  hub = notebook;
  cfg = config;
}

abbrev pub paid_in :
    State
      (List (EscrowAccountRecord ℤ))
      (List (SessionLedgerRecord ℤ))
      (List (SettlementRecord ℤ))
      (List String)
paid_in = record { escrows = account ∷ []; ledgers = verified ∷ []; settlements = []; hub = [] }
