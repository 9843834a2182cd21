-- ===== src/Api/Settlement.antt =====
-- pkg/api/handlers/settlement.go. These handlers do not verify the token of a request.
use package.shinzo_scheduler_service.Base.{String, none, some, List, ok, err, ◌==◌, if◌then◌else◌}
use package.shinzo_scheduler_service.Store.Records.{
  EscrowAccountRecord, SettlementRecord, VerdictRecord,
}
use package.shinzo_scheduler_service.Store.Db.{Db}
use package.shinzo_scheduler_service.Store.EscrowStore
use package.shinzo_scheduler_service.Store.SettlementStore
use package.shinzo_scheduler_service.Store.VerdictStore
use package.shinzo_scheduler_service.Api.Reply.{
  Reply, write_json, write_error, status_ok, status_bad_request, status_not_found,
  status_internal_server_error,
}

pub record SettlementHandler (F E S V : Type 0) : Type 0 where
  pub escrow_st : Db E (EscrowAccountRecord F)
  pub settlement_st : Db S (SettlementRecord F)
  pub verdict_st : Db V VerdictRecord

module _ {F E S V : Type 0} (h : SettlementHandler F E S V) where
  unfoldable pub escrow : String → E → Reply (EscrowAccountRecord F)
  escrow session_id d =
      if session_id == ""
      then write_error status_bad_request "session_id is required"
      else elim (EscrowStore.get_by_session h.escrow_st session_id d) [
        | err e ↦ write_error status_internal_server_error "internal error"
        | ok found ↦ elim found [
          | none ↦ write_error status_not_found "escrow account not found"
          | some rec ↦ write_json status_ok rec
        ]
      ]

  unfoldable pub settlements : String → S → Reply (List (SettlementRecord F))
  settlements session_id d =
      if session_id == ""
      then write_error status_bad_request "session_id is required"
      else elim (SettlementStore.list_by_session h.settlement_st session_id d) [
        | err e ↦ write_error status_internal_server_error "internal error"
        | ok recs ↦ write_json status_ok recs
      ]

  unfoldable pub verdicts : String → V → Reply (List VerdictRecord)
  verdicts session_id d =
      if session_id == ""
      then write_error status_bad_request "session_id is required"
      else elim (VerdictStore.list_by_session h.verdict_st session_id d) [
        | err e ↦ write_error status_internal_server_error "internal error"
        | ok recs ↦ write_json status_ok recs
      ]
