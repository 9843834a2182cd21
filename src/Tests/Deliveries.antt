-- ===== src/Tests/Deliveries.antt =====
-- The theorems on pkg/accounting at a session with one claim and one attestation.
use package.shinzo_scheduler_service.Base.{
  String, ◌≡◌, ◌⊎◌, ◌==◌, refl, List, [], ◌∷◌, ok, err, arith, filter,
}
use package.shinzo_scheduler_service.Base.Int.{ℤ, pos}
use package.shinzo_scheduler_service.Base.Unique.{Unique}
use package.shinzo_scheduler_service.Store.Records.{DeliveryClaimRecord}
use package.shinzo_scheduler_service.Store.Status
use package.shinzo_scheduler_service.Store.ClaimStore
use package.shinzo_scheduler_service.Store.Documents.{claim_document, ledger_document}
use package.shinzo_scheduler_service.Accounting.Manager.{submit_delivery_claim}
use package.shinzo_scheduler_service.Accounting.Manager.OnePerBlock.{
  same_claim, submit_delivery_claim-Unique, submit_delivery_claim-recorded,
}
use package.shinzo_scheduler_service.Accounting.Cids.{compare_lists}
use package.shinzo_scheduler_service.Accounting.Cids.Outcomes.{
  set_outcome, compare_lists-eq-set_outcome,
}
use package.shinzo_scheduler_service.Accounting.Compare.{compare}
use package.shinzo_scheduler_service.Accounting.Compare.Effects.{Compared, compare-Compared}
use package.shinzo_scheduler_service.Accounting.Compare.Ledgers.{ChargedFor, compare-ChargedFor}
use package.shinzo_scheduler_service.Accounting.Rounds.{
  Key, run_comparisons, escalate_expired_under_reports,
}
use package.shinzo_scheduler_service.Accounting.Rounds.Order.{
  Growing, is_compared, is_claimed, compared_each, run_comparisons-Growing,
}
use package.shinzo_scheduler_service.Tests.Collections.{all_docs, list_db-LawfulDb}
use package.shinzo_scheduler_service.Tests.Numbers.{whole}
use package.shinzo_scheduler_service.Tests.Clock.{clock, noon}
use package.shinzo_scheduler_service.Tests.Sessions.{manager, delivered, claim_7, claim_request}

compare_lists-eq-set_outcome_example :
    compare_lists ("c1" ∷ "c2" ∷ []) ("c2" ∷ []) ≡ set_outcome ("c1" ∷ "c2" ∷ []) ("c2" ∷ [])
compare_lists-eq-set_outcome_example =
    compare_lists-eq-set_outcome ("c1" ∷ "c2" ∷ []) ("c2" ∷ []) (ground arith) (ground arith)

compare-Compared_example :
    Compared clock manager "session"
      (pos 7)
      noon
      delivered
      (compare clock manager "session" (pos 7) "id" noon delivered)
compare-Compared_example = compare-Compared clock manager "session" (pos 7) "id" noon delivered

compare-ChargedFor_example :
    let t = compare clock manager "session" (pos 7) "id" noon delivered in
    ChargedFor clock manager all_docs
      (list_db-LawfulDb ledger_document)
      t.0
      "session"
      (pos 7)
      noon
      delivered.ledgers
      t.1.ledgers
compare-ChargedFor_example =
    compare-ChargedFor clock manager all_docs (list_db-LawfulDb ledger_document) "session" (pos 7)
      "id" noon delivered

submit_delivery_claim-Unique_example :
    Unique same_claim
      (submit_delivery_claim clock manager claim_request "id" noon delivered).1.claims
submit_delivery_claim-Unique_example =
    submit_delivery_claim-Unique clock manager all_docs (list_db-LawfulDb claim_document)
      claim_request "id" noon delivered (tt, tt)

submit_delivery_claim-recorded_example :
    ((submit_delivery_claim clock manager claim_request "id" noon delivered).1 ≡ delivered)
    × ((x : DeliveryClaimRecord)
        → (submit_delivery_claim clock manager claim_request "id" noon delivered).0 ≡ ok x
        → (x ≡ claim_7) × (claim_7.doc_cids ≡ claim_request.doc_cids))
submit_delivery_claim-recorded_example =
    submit_delivery_claim-recorded clock manager all_docs (list_db-LawfulDb claim_document)
      claim_request "id" noon delivered claim_7 refl

run_comparisons-Growing_example :
    let t = run_comparisons clock manager (λ ids. ids) (λ k. "id") noon delivered in
    ((e : String) × (ClaimStore.list_pending manager.claim_st delivered.claims ≡ err e)
      × (t ≡ delivered))
    ⊎ ((ks : List Key) × Growing ks
        × ((session : String) (block : ℤ)
            → is_compared session block ks
              ≡ is_claimed session block
                  (filter (λ c. c.status == Status.pending) delivered.claims))
        × (t
            ≡ escalate_expired_under_reports clock manager
                (λ ids. ids)
                noon
                (compared_each clock manager ks (λ k. "id") noon delivered)))
run_comparisons-Growing_example =
    run_comparisons-Growing clock manager all_docs (list_db-LawfulDb claim_document) (λ ids. ids)
      (λ k. "id") noon delivered
