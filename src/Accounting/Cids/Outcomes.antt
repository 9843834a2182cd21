-- ===== src/Accounting/Cids/Outcomes.antt =====
-- What `compareDocCids` decides (pkg/accounting/manager.go), against the sets of content ids.
use package.shinzo_scheduler_service.Base.{
  String, ◌≡◌, List, [], ◌∷◌, if◌then◌else◌, arith, eq_refl,
}
use package.shinzo_scheduler_service.Base.Sets.{subset, Distinct, length-le_of_subset, subset_back}
use package.shinzo_scheduler_service.Store.Outcome
use package.shinzo_scheduler_service.Accounting.Cids.{compare_lists}

-- The outcome as a comparison of sets: equal, attested within claimed, or neither.
pub set_outcome : List String → List String → String
set_outcome claimed attested =
    if subset attested claimed
    then if subset claimed attested then Outcome.clean else Outcome.under_report
    else Outcome.mismatch

-- For lists that repeat no content id, the tests of the lengths and of one inclusion decide the
-- comparison of the two sets: clean exactly if they are equal, an under-report exactly if the host
-- attests a proper subset, a mismatch exactly if it attests something that was not claimed.
pub compare_lists-eq-set_outcome :
    (claimed attested : List String)
    → Distinct claimed
    → Distinct attested
    → compare_lists claimed attested ≡ set_outcome claimed attested
unfolding compare_lists set_outcome
compare_lists-eq-set_outcome cs as' dc da = ground (
  arith,
  length-le_of_subset cs as' dc,
  length-le_of_subset as' cs da,
  subset_back cs as' dc,
  subset_back as' cs da,
)

-- Repeated ids break this: a claim that lists one id twice passes as a clean delivery against an
-- attestation with any second id.
pub repeated_claim-clean : (c d : String) → compare_lists (c ∷ c ∷ []) (c ∷ d ∷ []) ≡ Outcome.clean
unfolding compare_lists
repeated_claim-clean c d = ground (arith, eq_refl c)
