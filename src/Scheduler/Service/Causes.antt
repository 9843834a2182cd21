-- ===== src/Scheduler/Service/Causes.antt =====
-- The subscriptions of the service, whatever happens (cmd/scheduler/main.go).
use package.shinzo_scheduler_service.Base.{
  String, ◌≡◌, ◌≢◌, refl, sym, ap, subst, ◌∙◌, ◌⊎◌, inl, inr, none, some, List, [], ◌∷◌, ◌++◌, All,
}
use package.shinzo_scheduler_service.Base.Time.{Runtime}
use package.shinzo_scheduler_service.Base.Float.{Float64}
use package.shinzo_scheduler_service.Base.Unique.{All-imp, All-append}
use package.shinzo_scheduler_service.Store.Records.{SubscriptionRecord}
use package.shinzo_scheduler_service.Store.Db.{LawfulDb, FreshIds}
use package.shinzo_scheduler_service.Store.Documents.{subscription_document}
use package.shinzo_scheduler_service.Store.Status
use package.shinzo_scheduler_service.Payment.Hub.{calls_created, waits_epoch, calls_expired}
use package.shinzo_scheduler_service.Subscription.Manager.{State as Managed}
use package.shinzo_scheduler_service.Subscription.Manager.Operations.{UniqueIds, Advanced}
use package.shinzo_scheduler_service.Subscription.Manager.Runs as Runs
use package.shinzo_scheduler_service.Subscription.Manager.Runs.{
  Call, run, run_all, run_all-Advanced,
}
use package.shinzo_scheduler_service.Subscription.Manager.Activations.{
  HasCause, GivesCause, run_all-HasCause,
}
use package.shinzo_scheduler_service.Api.Discovery.{Strconv}
use package.shinzo_scheduler_service.Api.Subscriptions.{State}
use package.shinzo_scheduler_service.Api.Subscriptions.Ownership.{
  OwnChange, create_request, cancel_request, handle-OwnChange,
}
use package.shinzo_scheduler_service.Api.Payments.{activation_of}
use package.shinzo_scheduler_service.Api.Payments.Activation.{IsPaid, verify_payment-IsPaid}
use package.shinzo_scheduler_service.Scheduler.{on_chain, react_to_hub}
use package.shinzo_scheduler_service.Scheduler.Service.{
  Service, Event, registers, asks_create, asks_cancel, pays, reacts, ticks, subscription_handler,
  payment_handler, happen, happen_all,
}

module _ {F D I M H K S : Type 0} ⦃fl : Float64 F⦄ (rt : Runtime) (sc : Strconv F)
    (svc : Service F D I M H K S) where
  -- What makes a subscription active: a request that names it together with a payment and has passed
  -- the check on the chain, as far as that is made, or its creation on the hub.
  abbrev pub Causes : String → Event → Type 0
  Causes i (registers req now) = ⊥
  Causes i (asks_create token unix body uuid match_uuid now) = ⊥
  Causes i (asks_cancel token unix sub_id) = ⊥
  Causes i (pays token unix none now) = ⊥
  Causes i (pays token unix (some req) now) =
      (req.subscription_id ≡ i)
      × (req.payment_ref ≢ "")
      × IsPaid rt sc (payment_handler svc) svc.tx_verifier req
  Causes i (reacts (calls_created ev) now) = ev.subscription_id ≡ i
  Causes i (reacts (waits_epoch height ev) now) = ⊥
  Causes i (reacts (calls_expired sub_id) now) = ⊥
  Causes i (ticks now) = ⊥

  -- One of the events makes it active.
  abbrev pub CausedBy : List Event → String → Type 0
  CausedBy [] i = ⊥
  CausedBy (ev ∷ evs) i = Causes i ev ⊎ CausedBy evs i

  -- The calls of the manager that an event makes, each activation for a cause.
  abbrev CallsOf : Event → Managed D I M → Managed D I M → Type 0
  CallsOf ev m m' =
      (calls : List Call) × (m' ≡ run_all rt svc.sub_mgr calls m)
      × All (GivesCause (λ i. Causes i ev)) calls

  no_call : (ev : Event) (m m' : Managed D I M) → m' ≡ m → CallsOf ev m m'
  unfolding run_all
  no_call ev m m' e = ([], e, tt)

  one_call :
      (ev : Event) (call : Call) (m m' : Managed D I M)
      → GivesCause (λ i. Causes i ev) call
      → m' ≡ run rt svc.sub_mgr call m
      → CallsOf ev m m'
  unfolding run_all
  one_call ev call m m' g e = (call ∷ [], e, (g, tt))

  OwnChange-CallsOf :
      (ev : Event) (host : _) (s t : State D I M H)
      → OwnChange rt (subscription_handler svc) host s t
      → CallsOf ev s.managed t.managed
  unfolding run
  OwnChange-CallsOf ev host s _ (OwnChange.creates req uuid match_uuid now) =
      one_call ev (Runs.creates _ uuid match_uuid now) _ _ tt refl
  OwnChange-CallsOf ev host s _ (OwnChange.cancels sub_id sub indexer found own) =
      one_call ev (Runs.cancels sub_id) _ _ tt refl

  happen-CallsOf :
      (ev : Event) (s : State D I M H) → CallsOf ev s.managed (happen rt sc svc ev s).managed
  unfolding happen react_to_hub run
  happen-CallsOf (registers req now) s = no_call (registers req now) _ _ refl
  happen-CallsOf (asks_create token unix body uuid match_uuid now) s =
      elim (handle-OwnChange rt (subscription_handler svc) token unix
        (create_request body uuid match_uuid now) s) [
          | inl same ↦
              no_call (asks_create token unix body uuid match_uuid now) _ _
                (ap (λ t. t.managed) same)
          | inr (host, from, change) ↦
              OwnChange-CallsOf (asks_create token unix body uuid match_uuid now) host s _ change
        ]
  happen-CallsOf (asks_cancel token unix sub_id) s =
      elim (handle-OwnChange rt (subscription_handler svc) token unix (cancel_request sub_id) s) [
        | inl same ↦ no_call (asks_cancel token unix sub_id) _ _ (ap (λ t. t.managed) same)
        | inr (host, from, change) ↦
            OwnChange-CallsOf (asks_cancel token unix sub_id) host s _ change
      ]
  happen-CallsOf (pays token unix body now) s =
      elim (verify_payment-IsPaid rt sc (payment_handler svc) token unix body now s) [
        | inl same ↦ no_call (pays token unix body now) _ _ (ap (λ t. t.managed) same)
        | inr (host, req, from, given, named, referred, paid, activated) ↦
            one_call (pays token unix body now)
              (Runs.activates (activation_of rt sc (payment_handler svc) req) now) _ _
              (subst (λ b. Causes req.subscription_id (pays token unix b now)) (sym given)
                (refl, referred, paid))
              (ap (λ t. t.managed) activated)
      ]
  happen-CallsOf (reacts (calls_created ev) now) s =
      one_call (reacts (calls_created ev) now)
        (Runs.activates (on_chain rt svc.sub_mgr ev.subscription_id ev.expires_at) now) _ _ refl
        refl
  happen-CallsOf (reacts (waits_epoch height ev) now) s =
      no_call (reacts (waits_epoch height ev) now) _ _ refl
  happen-CallsOf (reacts (calls_expired sub_id) now) s =
      one_call (reacts (calls_expired sub_id) now) (Runs.cancels sub_id) _ _ tt refl
  happen-CallsOf (ticks now) s = one_call (ticks now) (Runs.expires now) _ _ tt refl

  run_all-append :
      (calls more : List Call) (m : Managed D I M)
      → run_all rt svc.sub_mgr (calls ++ more) m
        ≡ run_all rt svc.sub_mgr more (run_all rt svc.sub_mgr calls m)
  unfolding run_all
  run_all-append [] more m = refl
  run_all-append (call ∷ calls) more m = run_all-append calls more (run rt svc.sub_mgr call m)

  GivesCause-imp :
      (P Q : String → Type 0)
      → ((i : String) → P i → Q i)
      → (call : Call) → GivesCause P call
      → GivesCause Q call
  GivesCause-imp P Q f (Runs.creates req uuid match_uuid now) g = tt
  GivesCause-imp P Q f (Runs.activates req now) g = f req.subscription_id g
  GivesCause-imp P Q f (Runs.cancels sub_id) g = tt
  GivesCause-imp P Q f (Runs.expires now) g = tt

  -- The calls of the manager that some events make, each activation for one of the events.
  abbrev pub Calls : List Event → State D I M H → List Call → Type 0
  Calls evs s calls =
      ((happen_all rt sc svc evs s).managed ≡ run_all rt svc.sub_mgr calls s.managed)
      × All (GivesCause (CausedBy evs)) calls

  happen_all-Calls :
      (evs : List Event) (s : State D I M H) → (calls : List Call) × Calls evs s calls
  unfolding happen_all run_all
  happen_all-Calls [] s = ([], (refl, tt))
  happen_all-Calls (ev ∷ evs) s =
      let (calls, e, causes) = happen-CallsOf ev s in
      let (more, (e', causes')) = happen_all-Calls evs (happen rt sc svc ev s) in
      (
        calls ++ more,
        (
          e' ∙ ap (run_all rt svc.sub_mgr more) e ∙ sym (run_all-append calls more s.managed),
          All-append (GivesCause (CausedBy (ev ∷ evs))) calls more
              (All-imp _ _ calls
                (GivesCause-imp (λ i. Causes i ev) (CausedBy (ev ∷ evs)) (λ i c. inl c)) causes)
              (All-imp _ _ more (GivesCause-imp (CausedBy evs) (CausedBy (ev ∷ evs)) (λ i c. inr c))
                causes'),
        ),
      )

  module _ (docs : D → List SubscriptionRecord)
      (lawful : LawfulDb subscription_document svc.sub_mgr.sub_st docs)
      (fresh : FreshIds subscription_document svc.sub_mgr.sub_st docs) where
    -- However registrations, requests, payments, events of the hub and ticks follow one another, and
    -- whatever of it fails, they act on the subscriptions as some sequence of calls of the manager
    -- does, in which each activation has one of them as its cause; so subscriptions whose document ids
    -- are unique move only by the allowed steps, and keep the ids unique.
    pub happen_all-Advanced :
        (evs : List Event) (s : State D I M H)
        → UniqueIds (docs s.managed.subs)
        → ((calls : List Call) × Calls evs s calls)
          × Advanced (docs s.managed.subs) (docs (happen_all rt sc svc evs s).managed.subs)
    happen_all-Advanced evs s u =
        let (calls, (e, causes)) = happen_all-Calls evs s in
        (
          (calls, (e, causes)),
          subst (λ m. Advanced (docs s.managed.subs) (docs m.subs)) (sym e)
              (run_all-Advanced rt svc.sub_mgr docs lawful fresh calls s.managed u),
        )

    -- Where the document ids of the subscriptions are unique and none is active at first, each one
    -- that is active afterwards, whatever has happened in between, was named by a request that refers
    -- to a payment and has passed the check on the chain if it gives a hash and there is a verifier,
    -- or was created on the hub.
    pub happen_all-HasCause :
        (evs : List Event) (s : State D I M H)
        → UniqueIds (docs s.managed.subs)
        → All (λ r. r.status ≢ Status.active) (docs s.managed.subs)
        → All (HasCause (CausedBy evs)) (docs (happen_all rt sc svc evs s).managed.subs)
    happen_all-HasCause evs s u none_active =
        let (calls, (e, causes)) = happen_all-Calls evs s in
        subst (λ m. All (HasCause (CausedBy evs)) (docs m.subs)) (sym e)
          (run_all-HasCause rt svc.sub_mgr docs lawful (CausedBy evs) fresh calls s.managed causes u
            (All-imp _ _ (docs s.managed.subs) (λ r idle active. absurd (idle active)) none_active))
