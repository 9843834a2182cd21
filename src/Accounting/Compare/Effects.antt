-- ===== src/Accounting/Compare/Effects.antt =====
-- What a call of `Compare` (pkg/accounting/manager.go) does to the ledgers, the hub and the records.
use package.shinzo_scheduler_service.Base.{
  String, ◌≡◌, Option, none, some, Result, ok, err, arith, ◌==◌, if◌then◌else◌, Result-cases,
  Option-cases, inl, inr,
}
use package.shinzo_scheduler_service.Base.Int.{ℤ}
use package.shinzo_scheduler_service.Base.Time.{Runtime}
use package.shinzo_scheduler_service.Base.Float.{Float64}
use package.shinzo_scheduler_service.Store.Records.{DeliveryClaimRecord, AttestationRecord}
use package.shinzo_scheduler_service.Store.Outcome
use package.shinzo_scheduler_service.Store.ClaimStore
use package.shinzo_scheduler_service.Store.AttestationStore
use package.shinzo_scheduler_service.Accounting.Manager.{Manager, State, ComparisonResult}
use package.shinzo_scheduler_service.Accounting.Compare.{
  update_ledger, outcome_of, record_outcome, compare,
}

module _ {F C A L P E : Type 0} ⦃fl : Float64 F⦄ (rt : Runtime) (m : Manager F C A L P E) where
  -- The ledgers after an outcome, from those before it.
  abbrev pub ledgers_after : String → ℤ → ℤ → String → State C A L P E → L
  ledgers_after session_id block_n now outcome s =
      if outcome == Outcome.clean
      then (update_ledger rt m session_id block_n now s).1.ledgers
      else s.ledgers

  abbrev pub hub_after : String → ComparisonResult → State C A L P E → E
  hub_after session_id r s =
      if r.outcome == Outcome.mismatch
      then elim (m.escalation) [
        | none ↦ s.hub
        | some h ↦ (h.on_mismatch session_id r.claim_id r.attest_id s.hub).1
      ]
      else s.hub

  -- What a call has done, by what it returned.
  abbrev pub Compared :
      String → ℤ → ℤ → State C A L P E → Result (Option ComparisonResult) × State C A L P E → Type 0
  Compared session_id block_n now s (err e, s') = s' ≡ s
  Compared session_id block_n now s (ok none, s') = s' ≡ s
  Compared session_id block_n now s (ok (some r), s') =
      (s'.ledgers ≡ ledgers_after session_id block_n now r.outcome s)
      × (s'.hub ≡ hub_after session_id r s)
      × (r.session_id ≡ session_id)
      × (r.block_number ≡ block_n)

  -- `record_outcome` does not fail.
  abbrev Recorded :
      String → ℤ → ℤ → String → State C A L P E → Result ComparisonResult × State C A L P E → Type 0
  Recorded session_id block_n now outcome s (err e, s') = ⊥
  Recorded session_id block_n now outcome s (ok r, s') =
      Compared session_id block_n now s (ok (some r), s') × (r.outcome ≡ outcome)

  record_outcome-Recorded :
      (session_id : String) (block_n : ℤ) (claim : Option DeliveryClaimRecord)
      (attest : Option AttestationRecord) (outcome uuid : String) (now : ℤ) (s : State C A L P E)
      → Recorded session_id block_n now outcome s
          (record_outcome rt m session_id block_n claim attest outcome uuid now s)
  unfolding record_outcome update_ledger
  record_outcome-Recorded session_id block_n none attest outcome uuid now s = ground arith
  record_outcome-Recorded session_id block_n (some c) attest outcome uuid now s = ground arith

  -- A call that waits or fails changes nothing. One that decides charges the ledger exactly if the
  -- outcome is a clean delivery, and tells the escalation handler exactly if it is a mismatch.
  pub compare-Compared :
      (session_id : String) (block_n : ℤ) (uuid : String) (now : ℤ) (s : State C A L P E)
      → Compared session_id block_n now s (compare rt m session_id block_n uuid now s)
  unfolding compare
  compare-Compared session_id block_n uuid now s =
      elim (Result-cases
        (ClaimStore.get_by_session_and_block m.claim_st session_id block_n s.claims)) [
          | inr (e, q) ↦ ground arith
          | inl (claim, q) ↦
              elim (Result-cases (
                AttestationStore.get_by_session_and_block m.attest_st session_id block_n
                  s.attests)) [
                    | inr (e, q') ↦ ground arith
                    | inl (attest, q') ↦ elim (Result-cases (outcome_of rt m claim attest now)) [
                      | inr (e, q'') ↦ ground arith
                      | inl (decided, q'') ↦ elim (Option-cases decided) [
                        | inl e ↦ ground arith
                        | inr (outcome, e) ↦ ground (
                          arith,
                          record_outcome-Recorded session_id block_n claim attest outcome uuid now
                              s,
                        )
                      ]
                    ]
                  ]
        ]
