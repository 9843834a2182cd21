-- ===== src/Subscription/Manager/Runs.antt =====
-- Any sequence of calls of pkg/subscription/manager.go, by requests, payments and the expiry loop.
use package.shinzo_scheduler_service.Base.{String, ◌≡◌, some, List, [], ◌∷◌}
use package.shinzo_scheduler_service.Base.Int.{ℤ}
use package.shinzo_scheduler_service.Base.Time.{Runtime}
use package.shinzo_scheduler_service.Base.Float.{Float64}
use package.shinzo_scheduler_service.Store.Records.{SubscriptionRecord}
use package.shinzo_scheduler_service.Store.Db.{LawfulDb, FreshIds}
use package.shinzo_scheduler_service.Store.Documents.{subscription_document}
use package.shinzo_scheduler_service.Subscription.Manager.{
  CreateRequest, ActivateRequest, Manager, State, create, activate, cancel, expire_overdue,
}
use package.shinzo_scheduler_service.Subscription.Manager.Lifecycle.{
  done, Steps-append, Over, subscription_on_record, Steps-keep,
}
use package.shinzo_scheduler_service.Subscription.Manager.Operations.{
  UniqueIds, Advanced, create-Advanced, activate-Advanced, cancel-Advanced,
}
use package.shinzo_scheduler_service.Subscription.Manager.Expiry.{expire_overdue-Advanced}

-- The calls that write, each with the time it is made at.
pub data Call : Type 0 where
  creates : CreateRequest → String → String → ℤ → Call
  activates : ActivateRequest → ℤ → Call
  cancels : String → Call
  expires : ℤ → Call

module _ {F D I M : Type 0} ⦃fl : Float64 F⦄ (rt : Runtime) (m : Manager F D I M) where
  unfoldable pub run : Call → State D I M → State D I M
  run (creates req uuid match_uuid now) s = (create rt m req uuid match_uuid now s).1
  run (activates req now) s = (activate rt m req now s).1
  run (cancels sub_id) s = (cancel rt m sub_id s).1
  run (expires now) s = expire_overdue rt m now s

  unfoldable pub run_all : List Call → State D I M → State D I M
  run_all [] s = s
  run_all (call ∷ calls) s = run_all calls (run call s)

module _ {F D I M : Type 0} ⦃fl : Float64 F⦄ (rt : Runtime) (m : Manager F D I M)
    (docs : D → List SubscriptionRecord) (lawful : LawfulDb subscription_document m.sub_st docs)
    (fresh : FreshIds subscription_document m.sub_st docs) where
  pub run-Advanced :
      (call : Call) (s : State D I M)
      → UniqueIds (docs s.subs)
      → Advanced (docs s.subs) (docs (run rt m call s).subs)
  unfolding run
  run-Advanced (creates req uuid match_uuid now) s u =
      create-Advanced rt m docs lawful fresh req uuid match_uuid now s u
  run-Advanced (activates req now) s u = activate-Advanced rt m docs lawful req now s u
  run-Advanced (cancels sub_id) s u = cancel-Advanced rt m docs lawful sub_id s u
  run-Advanced (expires now) s u = expire_overdue-Advanced rt m docs lawful now s u

  -- A sequence of calls makes allowed steps only: creations, pending to active, active to expired,
  -- and to cancelled from any status but expired and cancelled; the document ids stay unique.
  pub run_all-Advanced :
      (calls : List Call) (s : State D I M)
      → UniqueIds (docs s.subs)
      → Advanced (docs s.subs) (docs (run_all rt m calls s).subs)
  unfolding run_all
  run_all-Advanced [] s u = (done _, u)
  run_all-Advanced (call ∷ calls) s u =
      let (first_step, u1) = run-Advanced call s u in
      let (rest, u2) = run_all-Advanced calls (run rt m call s) u1 in
      (Steps-append _ _ _ first_step rest, u2)

  -- A subscription that is expired or cancelled stays on record as it is, under any calls.
  pub run_all-Over :
      (calls : List Call) (s : State D I M) (sub_id : String) (sub : SubscriptionRecord)
      → UniqueIds (docs s.subs)
      → subscription_on_record sub_id (docs s.subs) ≡ some sub
      → Over sub.status
      → subscription_on_record sub_id (docs (run_all rt m calls s).subs) ≡ some sub
  run_all-Over calls s sub_id sub u rec over =
      Steps-keep sub_id _ _ sub over (run_all-Advanced calls s u).0 rec
