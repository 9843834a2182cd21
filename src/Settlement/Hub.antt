-- ===== src/Settlement/Hub.antt =====
-- pkg/settlement/hub.go and types.go: the messages to ShinzoHub, the broadcaster, and the state that
-- the managers of pkg/settlement share.
use package.shinzo_scheduler_service.Base.{String, Bool, List, ok, Action}
use package.shinzo_scheduler_service.Base.Int.{ℤ}

pub record MsgCloseSession (F : Type 0) : Type 0 where
  pub session_id : String
  pub close_reason : String
  pub blocks_verified : ℤ
  pub indexer_amount : F
  pub host_refund : F
  pub verdict_cid : String

pub record MsgBatchSettlement (F : Type 0) : Type 0 where
  pub batch_id : String
  pub sessions : List (MsgCloseSession F)

pub record MsgSignalLowCredit (F : Type 0) : Type 0 where
  pub session_id : String
  pub credit_remaining : F
  pub price_per_block : F

pub record MsgSlash : Type 0 where
  pub indexer_id : String
  pub evidence_cid : String
  pub reason : String

-- Each call returns the hash of the transaction.
pub record HubBroadcaster (F H : Type 0) : Type 0 where
  pub broadcast_close_session : MsgCloseSession F → Action H String
  pub broadcast_batch_settlement : MsgBatchSettlement F → Action H String
  pub broadcast_low_credit : MsgSignalLowCredit F → Action H String
  pub broadcast_slash : MsgSlash → Action H String

unfoldable pub noop_broadcaster : {F H : Type 0} → HubBroadcaster F H
noop_broadcaster = record {
  broadcast_close_session = λ msg h. (ok "", h);
  broadcast_batch_settlement = λ msg h. (ok "", h);
  broadcast_low_credit = λ msg h. (ok "", h);
  broadcast_slash = λ msg h. (ok "", h);
}

pub record SettlementConfig (F : Type 0) : Type 0 where
  pub enabled : Bool
  pub drain_interval_seconds : ℤ
  pub low_credit_multiplier : F
  pub grace_period_seconds : ℤ
  pub settlement_window_blocks : ℤ
  pub verdict_threshold_m : ℤ
  pub verdict_threshold_n : ℤ
  pub scheduler_key_path : String
  pub contradiction_threshold : ℤ
  pub contradiction_check_interval_seconds : ℤ

-- The collections of escrows, ledgers and settlements, and the hub.
pub record State (E L S H : Type 0) : Type 0 where
  pub escrows : E
  pub ledgers : L
  pub settlements : S
  pub hub : H

module _ {E L S H T : Type 0} where
  abbrev pub on_escrows : Action E T → Action (State E L S H) T
  on_escrows m s = let (r, e) = m s.escrows in (r, record s { escrows = e })

  abbrev pub on_settlements : Action S T → Action (State E L S H) T
  on_settlements m s = let (r, t) = m s.settlements in (r, record s { settlements = t })

  abbrev pub on_hub : Action H T → Action (State E L S H) T
  on_hub m s = let (r, h) = m s.hub in (r, record s { hub = h })
