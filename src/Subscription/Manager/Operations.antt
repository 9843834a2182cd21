-- ===== src/Subscription/Manager/Operations.antt =====
-- The operations of pkg/subscription/manager.go as steps on the subscriptions on record.
use package.shinzo_scheduler_service.Base.{
  String, ◌≡◌, refl, sym, subst, ◌⊎◌, inl, inr, true, false, ◌||◌, none, some, Option-cases, List,
  ok, arith, eq_iff, ◌==◌, All, Bool-cases, Result-cases,
}
use package.shinzo_scheduler_service.Base.Int.{ℤ}
use package.shinzo_scheduler_service.Base.Time.{Runtime}
use package.shinzo_scheduler_service.Base.Float.{Float64}
use package.shinzo_scheduler_service.Base.Unique.{
  Unique, Unique-map, same_key, first-filter_only, All-imp,
}
use package.shinzo_scheduler_service.Store.Records.{SubscriptionRecord}
use package.shinzo_scheduler_service.Store.Db.{LawfulDb, FreshIds, write_at}
use package.shinzo_scheduler_service.Store.Documents.{subscription_document}
use package.shinzo_scheduler_service.Store.Status
use package.shinzo_scheduler_service.Store.Queries.{mutate_one}
use package.shinzo_scheduler_service.Store.SubscriptionStore
use package.shinzo_scheduler_service.Store.SubscriptionStore.Answers.{
  get_by_id-ok, create_docs, update_docs,
}
use package.shinzo_scheduler_service.Store.IndexerStore
use package.shinzo_scheduler_service.Subscription.Manager.{
  CreateRequest, ActivateRequest, Manager, State, subscription_of, validate_create, record_match,
  create, activate_fields, activate, cancel,
}
use package.shinzo_scheduler_service.Subscription.Manager.Lifecycle.{
  Allowed, activated, cancelled, moved, created, Steps, done, step, write-Moves,
}

abbrev pub UniqueIds : List SubscriptionRecord → Type 0
UniqueIds xs = Unique (same_key (λ r. r.doc_id)) xs

-- A call that has kept the ids unique has made allowed steps.
abbrev pub Advanced : List SubscriptionRecord → List SubscriptionRecord → Type 0
Advanced xs ys = Steps xs ys × UniqueIds ys

module _ {F D I M : Type 0} (m : Manager F D I M) (docs : D → List SubscriptionRecord)
    (lawful : LawfulDb subscription_document m.sub_st docs) where
  pub update-Advanced :
      (id : String) (f : SubscriptionRecord → SubscriptionRecord) (d : D)
      → ((r : SubscriptionRecord) → (f r).subscription_id ≡ r.subscription_id)
      → ((r : SubscriptionRecord) → (f r).doc_id ≡ r.doc_id)
      → All (λ r. (r.doc_id == id) ≡ true → Allowed r.status (f r).status) (docs d)
      → UniqueIds (docs d)
      → Advanced (docs d) (docs (SubscriptionStore.update m.sub_st id f d).1)
  update-Advanced id f d keep keep_id allowed u = elim (update_docs m.sub_st docs lawful id f d) [
    | inl same ↦ rw same (done (docs d), u)
    | inr written ↦ rw written (
      step (docs d) _ _ (moved (docs d) _ (write-Moves id f (docs d) keep allowed)) (done _),
      Unique-map (same_key (λ r. r.doc_id)) (write_at subscription_document id f)
          (λ x y. ground (arith, keep_id x, keep_id y)) (docs d) u,
    )
  ]

  -- What a lookup finds is the only document with its id.
  pub found_only :
      (i : String) (d : D) (sub : SubscriptionRecord)
      → SubscriptionStore.get_by_id m.sub_st i d ≡ ok (some sub)
      → UniqueIds (docs d)
      → All (λ r. (r.doc_id == sub.doc_id) ≡ true → r ≡ sub) (docs d)
  found_only i d sub q u =
      first-filter_only (λ r. r.doc_id) _ (docs d) sub u
        (sym (get_by_id-ok m.sub_st docs lawful i d (some sub) q))

-- Where the subscriptions after a call come from.
module _ {F D I M : Type 0} ⦃fl : Float64 F⦄ (rt : Runtime) (m : Manager F D I M) where
  pub record_match-subs :
      (req : CreateRequest) (uuid : String) (now : ℤ) (s : State D I M)
      → let t = record_match rt m m.match_st req uuid now s in (t.0 ≡ ok tt) × (t.1.subs ≡ s.subs)
  unfolding record_match
  record_match-subs req uuid now s = elim (Option-cases m.match_st) [
    | inl off ↦ ground arith
    | inr (db, on) ↦ ground arith
  ]

  pub create-subs :
      (req : CreateRequest) (uuid match_uuid : String) (now : ℤ) (s : State D I M)
      → let t = create rt m req uuid match_uuid now s in
        (t.1.subs ≡ s.subs)
        ⊎ (t.1.subs
            ≡ (SubscriptionStore.create m.sub_st (subscription_of rt m req uuid now) s.subs).1)
  unfolding create
  create-subs req uuid match_uuid now s = elim (Result-cases (validate_create req)) [
    | inr (e, v) ↦ inl (ground arith)
    | inl (tt, v) ↦
        elim (Result-cases (IndexerStore.get_by_peer_id m.indexer_st req.indexer_id s.indexers)) [
          | inr (e, q) ↦ inl (ground arith)
          | inl (none, q) ↦ inl (ground arith)
          | inl (some indexer, q) ↦ elim (Bool-cases (indexer.status == Status.active)) [
            | inr gone ↦ inl (ground arith)
            | inl active ↦ inr (
                let d =
                  (SubscriptionStore.create m.sub_st (subscription_of rt m req uuid now)
                    s.subs).1 in
                ground (arith, record_match-subs req match_uuid now (record s { subs = d })))
          ]
        ]
  ]

  -- One write to the subscription that a lookup has found with a status that passes a test.
  abbrev pub Written :
      String → (String → Type 0) → (SubscriptionRecord → SubscriptionRecord) → D → D → Type 0
  Written i P f d d' =
      (d' ≡ d)
      ⊎ ((sub : SubscriptionRecord) × (SubscriptionStore.get_by_id m.sub_st i d ≡ ok (some sub))
          × P sub.status
          × (d' ≡ (SubscriptionStore.update m.sub_st sub.doc_id f d).1))

  pub activate-Written :
      (req : ActivateRequest) (now : ℤ) (s : State D I M)
      → Written req.subscription_id
          (λ st. (st == Status.pending) ≡ true)
          (activate_fields rt m req now)
          s.subs
          (activate rt m req now s).1.subs
  unfolding activate
  activate-Written req now s =
      elim (Result-cases (SubscriptionStore.get_by_id m.sub_st req.subscription_id s.subs)) [
        | inr (e, q) ↦ inl (ground arith)
        | inl (none, q) ↦ inl (ground arith)
        | inl (some sub, q) ↦ elim (Bool-cases (sub.status == Status.pending)) [
          | inr other ↦ inl (ground arith)
          | inl pending ↦ inr (sub, q, pending, ground arith)
        ]
      ]

  pub cancel-Written :
      (sub_id : String) (s : State D I M)
      → Written sub_id
          (λ st. (st == Status.expired || st == Status.cancelled) ≡ false)
          (λ r. record r { status = Status.cancelled })
          s.subs
          (cancel rt m sub_id s).1.subs
  unfolding cancel
  cancel-Written sub_id s =
      elim (Result-cases (SubscriptionStore.get_by_id m.sub_st sub_id s.subs)) [
        | inr (e, q) ↦ inl (ground arith)
        | inl (none, q) ↦ inl (ground arith)
        | inl (some sub, q) ↦
            elim (Bool-cases (sub.status == Status.expired || sub.status == Status.cancelled)) [
              | inl over ↦ inl (ground arith)
              | inr going ↦ inr (sub, q, going, ground arith)
            ]
      ]

module _ {F D I M : Type 0} ⦃fl : Float64 F⦄ (rt : Runtime) (m : Manager F D I M)
    (docs : D → List SubscriptionRecord)
    (lawful : LawfulDb subscription_document m.sub_st docs) where
  -- A write to what a lookup found is a step, if the test on the status allows it.
  Written-Advanced :
      (i : String) (P : String → Type 0) (f : SubscriptionRecord → SubscriptionRecord) (d d' : D)
      → ((r : SubscriptionRecord) → (f r).subscription_id ≡ r.subscription_id)
      → ((r : SubscriptionRecord) → (f r).doc_id ≡ r.doc_id)
      → ((r : SubscriptionRecord) → P r.status → Allowed r.status (f r).status)
      → Written rt m i P f d d'
      → UniqueIds (docs d)
      → Advanced (docs d) (docs d')
  Written-Advanced i P f d d' keep keep_id allow (inl same) u = rw same (done _, u)
  Written-Advanced i P f d d' keep keep_id allow (inr (sub, q, pass, e)) u = rw e (
      update-Advanced m docs lawful sub.doc_id f d keep keep_id
        (All-imp _ _ (docs d)
          (λ r only hit. allow r (subst (λ x. P x.status) (sym (only hit)) pass))
          (found_only m docs lawful i d sub q u))
        u)

  pub activate-Advanced :
      (req : ActivateRequest) (now : ℤ) (s : State D I M)
      → UniqueIds (docs s.subs)
      → Advanced (docs s.subs) (docs (activate rt m req now s).1.subs)
  activate-Advanced req now s u =
      Written-Advanced req.subscription_id _ (activate_fields rt m req now) s.subs _ (λ r. refl)
        (λ r. refl)
        (λ r pending.
          subst (λ st. Allowed st Status.active) (sym ((eq_iff r.status Status.pending).0 pending))
            activated)
        (activate-Written rt m req now s) u

  pub cancel-Advanced :
      (sub_id : String) (s : State D I M)
      → UniqueIds (docs s.subs)
      → Advanced (docs s.subs) (docs (cancel rt m sub_id s).1.subs)
  cancel-Advanced sub_id s u =
      Written-Advanced sub_id _ (λ r. record r { status = Status.cancelled }) s.subs _ (λ r. refl)
        (λ r. refl)
        (λ r going.
          cancelled r.status (λ e. ground (arith, eq_iff r.status Status.expired))
            (λ e. ground (arith, eq_iff r.status Status.cancelled)))
        (cancel-Written rt m sub_id s) u

  create-UniqueIds :
      FreshIds subscription_document m.sub_st docs
      → (r : SubscriptionRecord) (d : D) → UniqueIds (docs d)
      → UniqueIds (docs (SubscriptionStore.create m.sub_st r d).1)
  unfolding SubscriptionStore.create mutate_one
  create-UniqueIds fresh r d u = fresh.create_fresh r d u

  pub create-Advanced :
      FreshIds subscription_document m.sub_st docs
      → (req : CreateRequest) (uuid match_uuid : String) (now : ℤ) (s : State D I M)
      → UniqueIds (docs s.subs)
      → Advanced (docs s.subs) (docs (create rt m req uuid match_uuid now s).1.subs)
  create-Advanced fresh req uuid match_uuid now s u =
      elim (create-subs rt m req uuid match_uuid now s) [
        | inl same ↦ rw same (done _, u)
        | inr e ↦ rw e (
          elim (create_docs m.sub_st docs lawful (subscription_of rt m req uuid now) s.subs) [
            | inl same ↦ rw same (done _)
            | inr (id, added) ↦
                rw added (step (docs s.subs) _ _ (created (docs s.subs) _ refl) (done _))
          ],
          create-UniqueIds fresh (subscription_of rt m req uuid now) s.subs u,
        )
      ]
