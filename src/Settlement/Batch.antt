-- ===== src/Settlement/Batch.antt =====
-- pkg/settlement/batch.go and close.go: the settlement of a batch of sessions. The id of the batch
-- and those of its records are arguments; a call reads the clock once.
pub mod Amounts
pub mod Atomic
pub mod Records
use package.shinzo_scheduler_service.Base.{
  ℕ, zero, suc, String, none, some, Option, List, [], ◌∷◌, map, Result, ok, err, Action,
  Result-cases, ◌>>=◌, ◌>>◌, pure, reads, attempt, fail_if, ◌==◌, if◌then◌else◌,
}
use package.shinzo_scheduler_service.Base.Int.{ℤ}
use package.shinzo_scheduler_service.Base.Time.{Runtime}
use package.shinzo_scheduler_service.Base.Float.{Float64, ◌-F◌, ◌*F◌, ◌<F◌, zero_F}
use package.shinzo_scheduler_service.Store.Records.{
  EscrowAccountRecord, SessionLedgerRecord, SettlementRecord,
}
use package.shinzo_scheduler_service.Store.Db.{Db}
use package.shinzo_scheduler_service.Store.Status
use package.shinzo_scheduler_service.Store.EscrowStore
use package.shinzo_scheduler_service.Store.LedgerStore
use package.shinzo_scheduler_service.Store.SettlementStore
use package.shinzo_scheduler_service.Settlement.Hub.{
  HubBroadcaster, MsgCloseSession, State, on_escrows, on_settlements, on_hub,
}

pub record BatchProcessor (F E L S H : Type 0) : Type 0 where
  pub settle_st : Db S (SettlementRecord F)
  pub escrow_st : Db E (EscrowAccountRecord F)
  pub ledger_st : Db L (SessionLedgerRecord F)
  pub hub : HubBroadcaster F H

module _ {F : Type 0} ⦃fl : Float64 F⦄ where
  -- `indexerAmount`: the verified blocks at the ledger's price.
  unfoldable pub indexer_amount : SessionLedgerRecord F → F
  indexer_amount ledger = fl.of_int ledger.blocks_verified *F ledger.price_per_block

  -- `hostRefund`: what is left of the escrow, but not below 0.
  unfoldable pub host_refund : EscrowAccountRecord F → SessionLedgerRecord F → F
  host_refund escrow ledger =
      let refund = escrow.initial_balance -F indexer_amount ledger in
      if refund <F zero_F then zero_F else refund

-- The message and the record that the first loop makes for a session.
pub record Closing (F : Type 0) : Type 0 where
  pub msg : MsgCloseSession F
  pub rec : SettlementRecord F

module _ {F E L S H : Type 0} ⦃fl : Float64 F⦄ (rt : Runtime) (bp : BatchProcessor F E L S H) where
  abbrev pub closing_of :
      EscrowAccountRecord F
      → SessionLedgerRecord F
      → String
      → String
      → String
      → String
      → ℤ
      → Closing F
  closing_of escrow ledger session_id close_reason batch_id uuid now = record {
    msg = record {
      session_id = session_id;
      close_reason = close_reason;
      blocks_verified = ledger.blocks_verified;
      indexer_amount = indexer_amount ledger;
      host_refund = host_refund escrow ledger;
      verdict_cid = "";
    };
    rec = record {
      doc_id = "";
      settlement_id = uuid;
      batch_id = batch_id;
      session_id = session_id;
      blocks_verified = ledger.blocks_verified;
      indexer_amount = indexer_amount ledger;
      host_refund = host_refund escrow ledger;
      close_reason = close_reason;
      tx_hash = "";
      status = Status.pending;
      settled_at = rt.format_time now;
    };
  }

  -- One pass of the loop under "Validate all sessions before committing any".
  unfoldable pub validate_session :
      String → String → String → String → ℤ → State E L S H → Result (Closing F)
  validate_session session_id close_reason batch_id uuid now s =
      elim (EscrowStore.get_by_session bp.escrow_st session_id s.escrows) [
        | err e ↦ err "batch aborted: escrow lookup"
        | ok escrow_found ↦ elim escrow_found [
          | none ↦ err "batch aborted: no escrow for session"
          | some escrow ↦ elim (LedgerStore.get_by_session bp.ledger_st session_id s.ledgers) [
            | err e ↦ err "batch aborted: ledger lookup"
            | ok ledger_found ↦ elim ledger_found [
              | none ↦ err "batch aborted: no ledger for session"
              | some ledger ↦
                  ok (closing_of escrow ledger session_id close_reason batch_id uuid now)
            ]
          ]
        ]
      ]

  -- The whole loop. `ids k` is the id of the k-th record.
  unfoldable pub validate_all :
      List String
      → String
      → String
      → (ℕ → String)
      → ℕ
      → ℤ
      → State E L S H
      → Result (List (Closing F))
  validate_all [] close_reason batch_id ids k now s = ok []
  validate_all (session_id ∷ session_ids) close_reason batch_id ids k now s =
      elim (validate_session session_id close_reason batch_id (ids k) now s) [
        | err e ↦ err e
        | ok closing ↦ elim (validate_all session_ids close_reason batch_id ids (suc k) now s) [
          | err e ↦ err e
          | ok closings ↦ ok (closing ∷ closings)
        ]
      ]

  -- The record as it is written after the broadcast.
  abbrev pub settled_record : String → SettlementRecord F → SettlementRecord F
  settled_record tx_hash rec = record rec { tx_hash = tx_hash; status = Status.active }

  unfoldable pub record_all : String → List (Closing F) → Action (State E L S H) (Unit {0})
  record_all tx_hash [] = pure tt
  record_all tx_hash (c ∷ cs) = do
    attempt (on_settlements (SettlementStore.create bp.settle_st (settled_record tx_hash c.rec)))
    record_all tx_hash cs

  unfoldable pub mark_settled : String → ℤ → State E L S H → State E L S H
  mark_settled session_id now s =
      elim (EscrowStore.get_by_session bp.escrow_st session_id s.escrows) [
        | err e ↦ s
        | ok found ↦ elim found [
          | none ↦ s
          | some escrow ↦
              (on_escrows
                (EscrowStore.update bp.escrow_st escrow.doc_id
                  (λ r. record r { status = Status.settled; updated_at = rt.format_time now }))
                s).1
        ]
      ]

  unfoldable pub mark_all : List String → ℤ → Action (State E L S H) (Unit {0})
  mark_all [] now s = (ok tt, s)
  mark_all (session_id ∷ session_ids) now s =
      mark_all session_ids now (mark_settled session_id now s)

  unfoldable pub process_batch :
      List String → String → String → (ℕ → String) → ℤ → Action (State E L S H) (Unit {0})
  process_batch [] close_reason batch_id ids now = pure tt
  process_batch (session_id ∷ session_ids) close_reason batch_id ids now = do
    closings ← reads (validate_all (session_id ∷ session_ids) close_reason batch_id ids 0 now)
    tx_hash ← on_hub (
        bp.hub.broadcast_batch_settlement
          (record { batch_id = batch_id; sessions = map (λ c. c.msg) closings }))
    record_all tx_hash closings
    mark_all (session_id ∷ session_ids) now

  unfoldable pub close_session :
      String → String → String → (ℕ → String) → ℤ → Action (State E L S H) (Unit {0})
  close_session session_id reason batch_id ids now = do
    fail_if (session_id == "") "session_id is required"
    process_batch (session_id ∷ []) reason batch_id ids now
