-- ===== src/Subscription/Manager/Traces.antt =====
-- What each call of a sequence of calls of pkg/subscription/manager.go does to the subscriptions.
use package.shinzo_scheduler_service.Base.{List, [], ◌∷◌}
use package.shinzo_scheduler_service.Base.Time.{Runtime}
use package.shinzo_scheduler_service.Base.Float.{Float64}
use package.shinzo_scheduler_service.Store.Records.{SubscriptionRecord}
use package.shinzo_scheduler_service.Store.Db.{LawfulDb, FreshIds}
use package.shinzo_scheduler_service.Store.Documents.{subscription_document}
use package.shinzo_scheduler_service.Subscription.Manager.{Manager, State}
use package.shinzo_scheduler_service.Subscription.Manager.Operations.{UniqueIds, Advanced}
use package.shinzo_scheduler_service.Subscription.Manager.Runs.{
  Call, run, run_all, run-Advanced, run_all-Advanced,
}
use package.shinzo_scheduler_service.Subscription.Manager.Effects.{Did, run-Did}

module _ {F D I M : Type 0} ⦃fl : Float64 F⦄ (rt : Runtime) (m : Manager F D I M)
    (docs : D → List SubscriptionRecord) where
  -- What each call of a sequence does, one after the other.
  abbrev pub Trace : List Call → State D I M → Type 0
  Trace [] s = Unit
  Trace (call ∷ calls) s =
      Did rt m docs call s (docs (run rt m call s).subs) × Trace calls (run rt m call s)

  module _ (lawful : LawfulDb subscription_document m.sub_st docs) where
    run_all-Trace :
        FreshIds subscription_document m.sub_st docs
        → (calls : List Call) (s : State D I M) → UniqueIds (docs s.subs)
        → Trace calls s
    run_all-Trace fresh [] s u = tt
    run_all-Trace fresh (call ∷ calls) s u = (
      run-Did rt m docs lawful call s u,
      run_all-Trace fresh calls (run rt m call s) (run-Advanced rt m docs lawful fresh call s u).1,
    )

    -- Whatever is called, in whatever order and with whatever failures: a creation that does not
    -- answer with an error puts one pending subscription with the data of its request behind the
    -- others; an activation makes a pending subscription active, with its payment and its end; a
    -- cancellation makes one cancelled that was neither expired nor cancelled; a pass of the expiry
    -- loop makes every active subscription whose end is over expired, unless the active ones cannot
    -- be read or the store refuses the write. Beyond that no call changes a subscription; statuses
    -- move by the allowed steps only, and the document ids stay unique.
    pub run_all-Traced :
        FreshIds subscription_document m.sub_st docs
        → (calls : List Call) (s : State D I M) → UniqueIds (docs s.subs)
        → Trace calls s × Advanced (docs s.subs) (docs (run_all rt m calls s).subs)
    run_all-Traced fresh calls s u =
        (run_all-Trace fresh calls s u, run_all-Advanced rt m docs lawful fresh calls s u)
