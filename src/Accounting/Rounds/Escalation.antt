-- ===== src/Accounting/Rounds/Escalation.antt =====
-- Which under-reports a round escalates (pkg/accounting/manager.go).
use package.shinzo_scheduler_service.Base.{
  String, ◌≡◌, refl, ◌∙◌, Bool, false, List, [], ◌∷◌, arith, ◌==◌, filter, All, Result-cases, inl,
  inr,
}
use package.shinzo_scheduler_service.Base.Int.{ℤ}
use package.shinzo_scheduler_service.Base.Time.{Runtime}
use package.shinzo_scheduler_service.Base.Float.{Float64}
use package.shinzo_scheduler_service.Store.Records.{DeliveryClaimRecord}
use package.shinzo_scheduler_service.Store.Db.{LawfulDb}
use package.shinzo_scheduler_service.Store.Documents.{claim_document}
use package.shinzo_scheduler_service.Store.Status
use package.shinzo_scheduler_service.Store.ClaimStore
use package.shinzo_scheduler_service.Store.ClaimStore.Answers.{list_pending-ok}
use package.shinzo_scheduler_service.Accounting.Manager.{Manager, State}
use package.shinzo_scheduler_service.Accounting.Rounds.{
  session_ids, escalate_sessions, escalate_expired_under_reports,
}

filter-none :
    {A : Type 0} (p : A → Bool) (xs : List A) → All (λ x. p x ≡ false) xs → filter p xs ≡ []
filter-none p [] h = refl
filter-none p (x ∷ xs) h = rw h.0 (filter-none p xs h.1)

module _ {F C A L P E : Type 0} ⦃fl : Float64 F⦄ (rt : Runtime) (m : Manager F C A L P E)
    (docs : C → List DeliveryClaimRecord) (lawful : LawfulDb claim_document m.claim_st docs) where
  -- The sessions are found through the claims that are still pending. A comparison confirms its
  -- claim, so once every claim has been compared no under-report is escalated, however old.
  pub escalate-none_pending :
      (order : List String → List String) (now : ℤ) (s : State C A L P E)
      → order [] ≡ []
      → All (λ c. (c.status == Status.pending) ≡ false) (docs s.claims)
      → escalate_expired_under_reports rt m order now s ≡ s
  unfolding escalate_expired_under_reports session_ids escalate_sessions
  escalate-none_pending order now s fixed h =
      elim (Result-cases (ClaimStore.list_pending m.claim_st s.claims)) [
        | inr (e, q) ↦ ground arith
        | inl (pending, q) ↦
            let none_pending : pending ≡ [] =
              list_pending-ok m.claim_st docs lawful s.claims pending q
              ∙ filter-none _ (docs s.claims) h in
            ground (arith, none_pending, fixed)
      ]
