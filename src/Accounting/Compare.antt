-- ===== src/Accounting/Compare.antt =====
-- `Compare` of pkg/accounting/manager.go, with `withinAttestationWindow` and `updateLedger`.
pub mod Effects
pub mod Ledgers
use package.shinzo_scheduler_service.Base.{
  String, Bool, false, Option, none, some, Result, ok, err, Action, ◌>>=◌, ◌>>◌, pure, reads,
  attempt, attempt_if, ◌==◌, if◌then◌else◌,
}
use package.shinzo_scheduler_service.Base.Int.{ℤ, pos, ◌+ℤ◌, ltb_ℤ, wrap64}
use package.shinzo_scheduler_service.Base.Time.{Runtime, seconds, since}
use package.shinzo_scheduler_service.Base.Float.{Float64, ◌-F◌, ◌<F◌, zero_F}
use package.shinzo_scheduler_service.Store.Records.{
  DeliveryClaimRecord, AttestationRecord, SessionLedgerRecord,
}
use package.shinzo_scheduler_service.Store.Status
use package.shinzo_scheduler_service.Store.Outcome
use package.shinzo_scheduler_service.Store.ClaimStore
use package.shinzo_scheduler_service.Store.AttestationStore
use package.shinzo_scheduler_service.Store.LedgerStore
use package.shinzo_scheduler_service.Store.ComparisonStore
use package.shinzo_scheduler_service.Accounting.Manager.{
  Manager, State, ComparisonResult, EscalationHandler, on_claims, on_attests, on_ledgers, on_comps,
  on_hub,
}
use package.shinzo_scheduler_service.Accounting.Cids.{compare_doc_cids}

-- `claimID` and `attestID`: the empty text where the side is missing.
abbrev pub claim_id_of : Option DeliveryClaimRecord → String
claim_id_of none = ""
claim_id_of (some c) = c.claim_id

abbrev pub attestation_id_of : Option AttestationRecord → String
attestation_id_of none = ""
attestation_id_of (some a) = a.attestation_id

-- `credit - price`, but 0 where that is negative.
unfoldable pub next_credit : {F : Type 0} ⦃fl : Float64 F⦄ → F → F → F
next_credit credit price = let c = credit -F price in if c <F zero_F then zero_F else c

module _ {F C A L P E : Type 0} ⦃fl : Float64 F⦄ (rt : Runtime) (m : Manager F C A L P E) where
  unfoldable pub within_attestation_window : String → ℤ → Bool
  within_attestation_window submitted_at now = elim (rt.parse_time submitted_at) [
    | none ↦ false
    | some submitted ↦ ltb_ℤ (since now submitted) (seconds (m.cfg.attestation_window_seconds))
  ]

  -- The `switch` of `Compare`: the outcome, or `none` while the comparison waits.
  unfoldable pub outcome_of :
      Option DeliveryClaimRecord → Option AttestationRecord → ℤ → Result (Option String)
  outcome_of none none now = ok none
  outcome_of (some c) (some a) now = elim (compare_doc_cids rt c.doc_cids a.doc_cids_received) [
    | ok outcome ↦ ok (some outcome)
    | err e ↦ err e
  ]
  outcome_of (some c) none now =
      if within_attestation_window c.submitted_at now
      then ok none
      else ok (some Outcome.host_silent)
  outcome_of none (some a) now =
      if within_attestation_window a.submitted_at now
      then ok none
      else ok (some Outcome.indexer_silent)

  -- What `updateLedger` writes, from the ledger that it has read.
  abbrev pub charge : SessionLedgerRecord F → ℤ → ℤ → SessionLedgerRecord F → SessionLedgerRecord F
  charge ledger block_n now r = record r {
    blocks_verified = wrap64 (ledger.blocks_verified +ℤ pos 1);
    credit_remaining = next_credit ledger.credit_remaining ledger.price_per_block;
    last_compared_block = block_n;
    updated_at = rt.format_time now;
  }

  unfoldable pub update_ledger : String → ℤ → ℤ → Action (State C A L P E) (Unit {0})
  update_ledger session_id block_n now s =
      elim (LedgerStore.get_by_session m.ledger_st session_id s.ledgers) [
        | err e ↦ (ok tt, s)
        | ok found ↦ elim found [
          | none ↦ (ok tt, s)
          | some ledger ↦
              attempt
                (on_ledgers
                  (LedgerStore.update m.ledger_st ledger.doc_id (charge ledger block_n now)))
                s
        ]
      ]

  -- "Mark documents as confirmed": an error is logged only.
  unfoldable pub confirm_claim : Option DeliveryClaimRecord → Action (State C A L P E) (Unit {0})
  confirm_claim none = pure tt
  confirm_claim (some c) =
      attempt (on_claims (ClaimStore.update_status m.claim_st c.doc_id Status.confirmed))

  unfoldable pub confirm_attestation :
      Option AttestationRecord → Action (State C A L P E) (Unit {0})
  confirm_attestation none = pure tt
  confirm_attestation (some a) =
      attempt (on_attests (AttestationStore.update_status m.attest_st a.doc_id Status.confirmed))

  unfoldable pub escalate_mismatch :
      Option (EscalationHandler E) → String → String → String → Action (State C A L P E) (Unit {0})
  escalate_mismatch none session_id claim_id attest_id = pure tt
  escalate_mismatch (some h) session_id claim_id attest_id =
      attempt (on_hub (h.on_mismatch session_id claim_id attest_id))

  -- The rest of `Compare`, once the outcome is known.
  unfoldable pub record_outcome :
      String
      → ℤ
      → Option DeliveryClaimRecord
      → Option AttestationRecord
      → String
      → String
      → ℤ
      → Action (State C A L P E) ComparisonResult
  unfolding confirm_claim confirm_attestation escalate_mismatch
  record_outcome session_id block_n claim attest outcome uuid now = do
    confirm_claim claim
    confirm_attestation attest
    attempt (
        on_comps (
          ComparisonStore.create m.comp_st (record {
            doc_id = "";
            comparison_id = uuid;
            session_id = session_id;
            block_number = block_n;
            outcome = outcome;
            claim_id = claim_id_of claim;
            attestation_id = attestation_id_of attest;
            compared_at = rt.format_time now;
          })))
    attempt_if (outcome == Outcome.clean) (update_ledger session_id block_n now)
    attempt_if (outcome == Outcome.mismatch)
        (escalate_mismatch m.escalation session_id (claim_id_of claim) (attestation_id_of attest))
    pure (record {
      session_id = session_id;
      block_number = block_n;
      outcome = outcome;
      claim_id = claim_id_of claim;
      attest_id = attestation_id_of attest;
    })

  -- `none` where the comparison is held back.
  unfoldable pub compare :
      String → ℤ → String → ℤ → Action (State C A L P E) (Option ComparisonResult)
  compare session_id block_n uuid now = do
    claim ← reads λ s. ClaimStore.get_by_session_and_block m.claim_st session_id block_n s.claims
    attest ←
        reads
          λ s. AttestationStore.get_by_session_and_block m.attest_st session_id block_n s.attests
    decided ← reads λ _. outcome_of claim attest now
    elim decided [
      | none ↦ pure none
      | some outcome ↦ do
        result ← record_outcome session_id block_n claim attest outcome uuid now
        pure (some result)
    ]
