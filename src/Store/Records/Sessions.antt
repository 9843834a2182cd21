-- ===== src/Store/Records/Sessions.antt =====
-- The records of a delivery session: claims, attestations, ledger, escrow, settlement, verdict
-- (pkg/store/types.go).
use Prim.Native.String.{String}
use mathlib.Core.Bool.{Bool}
use package.shinzo_scheduler_service.Base.Int.{ℤ}

pub record DeliveryClaimRecord : Type 0 where
  pub doc_id : String
  pub claim_id : String
  pub session_id : String
  pub indexer_id : String
  pub block_number : ℤ
  pub doc_cids : String
  pub block_hash : String
  pub batch_signature : String
  pub submitted_at : String
  pub status : String

pub record AttestationRecord : Type 0 where
  pub doc_id : String
  pub attestation_id : String
  pub session_id : String
  pub host_id : String
  pub block_number : ℤ
  pub doc_cids_received : String
  pub batch_signature : String
  pub submitted_at : String
  pub status : String

pub record SessionLedgerRecord (F : Type 0) : Type 0 where
  pub doc_id : String
  pub ledger_id : String
  pub session_id : String
  pub host_id : String
  pub indexer_id : String
  pub blocks_verified : ℤ
  pub credit_remaining : F
  pub initial_escrow : F
  pub price_per_block : F
  pub last_compared_block : ℤ
  pub updated_at : String

pub record ComparisonResultRecord : Type 0 where
  pub doc_id : String
  pub comparison_id : String
  pub session_id : String
  pub block_number : ℤ
  pub outcome : String
  pub claim_id : String
  pub attestation_id : String
  pub compared_at : String

pub record EscrowAccountRecord (F : Type 0) : Type 0 where
  pub doc_id : String
  pub escrow_id : String
  pub session_id : String
  pub host_id : String
  pub indexer_id : String
  pub initial_balance : F
  pub current_balance : F
  pub price_per_block : F
  pub low_water_threshold : F
  pub low_credit_signaled : Bool
  pub grace_period_ends_at : String
  pub status : String
  pub created_at : String
  pub updated_at : String

pub record SettlementRecord (F : Type 0) : Type 0 where
  pub doc_id : String
  pub settlement_id : String
  pub batch_id : String
  pub session_id : String
  pub blocks_verified : ℤ
  pub indexer_amount : F
  pub host_refund : F
  pub close_reason : String
  pub tx_hash : String
  pub status : String
  pub settled_at : String

pub record VerdictRecord : Type 0 where
  pub doc_id : String
  pub verdict_id : String
  pub session_id : String
  pub outcome : String
  pub evidence_cids : String
  pub scheduler_signatures : String
  pub created_at : String
  pub submitted_to_hub : Bool
