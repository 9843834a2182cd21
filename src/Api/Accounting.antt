-- ===== src/Api/Accounting.antt =====
-- pkg/api/handlers/accounting.go. These handlers do not verify the token of a request.
use package.shinzo_scheduler_service.Base.{
  String, Option, none, some, List, ok, err, ◌==◌, if◌then◌else◌,
}
use package.shinzo_scheduler_service.Base.Int.{ℤ}
use package.shinzo_scheduler_service.Base.Time.{Runtime}
use package.shinzo_scheduler_service.Base.Float.{Float64}
use package.shinzo_scheduler_service.Store.Records.{
  DeliveryClaimRecord, AttestationRecord, SessionLedgerRecord, ComparisonResultRecord,
}
use package.shinzo_scheduler_service.Accounting.Manager.{
  Manager, State, SubmitClaimRequest, SubmitAttestationRequest, submit_delivery_claim,
  get_session_ledger, get_comparisons,
}
use package.shinzo_scheduler_service.Accounting.Manager as Manager
use package.shinzo_scheduler_service.Api.Reply.{
  write_json, write_error, Handler, refuse, answer, reply_to, status_ok, status_created,
  status_bad_request, status_not_found, status_internal_server_error,
}

module _ {F C A L P E : Type 0} ⦃fl : Float64 F⦄ (rt : Runtime) (m : Manager F C A L P E) where
  unfoldable pub submit_claim :
      Option SubmitClaimRequest → String → ℤ → Handler (State C A L P E) DeliveryClaimRecord
  submit_claim none uuid now s = refuse status_bad_request "invalid request body" s
  submit_claim (some req) uuid now s =
      let (res, s') = submit_delivery_claim rt m req uuid now s in
      (reply_to res (write_error status_bad_request) (write_json status_created), s')

  unfoldable pub submit_attestation :
      Option SubmitAttestationRequest → String → ℤ → Handler (State C A L P E) AttestationRecord
  submit_attestation none uuid now s = refuse status_bad_request "invalid request body" s
  submit_attestation (some req) uuid now s =
      let (res, s') = Manager.submit_attestation rt m req uuid now s in
      (reply_to res (write_error status_bad_request) (write_json status_created), s')

  unfoldable pub session_ledger : String → Handler (State C A L P E) (SessionLedgerRecord F)
  session_ledger session_id s =
      if session_id == ""
      then refuse status_bad_request "session id is required" s
      else elim (get_session_ledger rt m session_id s) [
        | err e ↦ refuse status_internal_server_error "internal error" s
        | ok found ↦ elim found [
          | none ↦ refuse status_not_found "session ledger not found" s
          | some ledger ↦ answer status_ok ledger s
        ]
      ]

  unfoldable pub comparisons : String → Handler (State C A L P E) (List ComparisonResultRecord)
  comparisons session_id s =
      if session_id == ""
      then refuse status_bad_request "session id is required" s
      else elim (get_comparisons rt m session_id s) [
        | err e ↦ refuse status_internal_server_error "internal error" s
        | ok results ↦ answer status_ok results s
      ]
