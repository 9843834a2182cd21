-- ===== src/Accounting/Cids.antt =====
-- `compareDocCids` of pkg/accounting/manager.go: the outcome from the two lists of content ids.
pub mod Outcomes
use package.shinzo_scheduler_service.Base.{
  String, ◌&&◌, none, some, List, Result, ok, err, length, all, elem, nat_eq, ltb, if◌then◌else◌,
}
use package.shinzo_scheduler_service.Base.Time.{Runtime}
use package.shinzo_scheduler_service.Store.Outcome

-- The two loops and the comparison of the lengths, on the decoded lists.
unfoldable pub compare_lists : List String → List String → String
compare_lists claimed attested =
    if nat_eq (length claimed) (length attested) && all (λ c. elem c attested) claimed
    then Outcome.clean
    else if ltb (length attested) (length claimed) && all (λ a. elem a claimed) attested
    then Outcome.under_report
    else Outcome.mismatch

module _ (rt : Runtime) where
  unfoldable pub compare_doc_cids : String → String → Result String
  compare_doc_cids claim_cids attest_cids = elim (rt.decode_strings claim_cids) [
    | none ↦ err "unmarshal claim CIDs"
    | some claimed ↦ elim (rt.decode_strings attest_cids) [
      | none ↦ err "unmarshal attestation CIDs"
      | some attested ↦ ok (compare_lists claimed attested)
    ]
  ]
