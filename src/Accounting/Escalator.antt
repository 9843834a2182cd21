-- ===== src/Accounting/Escalator.antt =====
-- pkg/accounting/escalation.go: the escalation handler that slashes on ShinzoHub.
use Prim.Native.String.{◌++◌}
use package.shinzo_scheduler_service.Base.{String, Action}
use package.shinzo_scheduler_service.Accounting.Manager.{EscalationHandler}

-- `SlashBroadcaster`: the call with the indexer's id, the evidence and the reason.
pub record HubEscalator (E : Type 0) : Type 0 where
  pub broadcast_slash : String → String → String → Action E (Unit {0})

abbrev pub evidence_of : String → String → String
evidence_of claim_id attest_id = "claim:" ++ claim_id ++ ",attestation:" ++ attest_id

module _ {E : Type 0} (h : HubEscalator E) where
  unfoldable pub on_mismatch : String → String → String → Action E (Unit {0})
  on_mismatch session_id claim_id attest_id =
      h.broadcast_slash session_id (evidence_of claim_id attest_id)
        ("cid_mismatch in session " ++ session_id)

  unfoldable pub on_under_report_expired : String → String → String → Action E (Unit {0})
  on_under_report_expired session_id claim_id attest_id =
      h.broadcast_slash session_id (evidence_of claim_id attest_id)
        ("under_report_unresolved in session " ++ session_id)

  abbrev pub escalation_handler : EscalationHandler E
  escalation_handler = record {
    on_mismatch = on_mismatch;
    on_under_report_expired = on_under_report_expired;
  }
