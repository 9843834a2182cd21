-- ===== src/Subscription/Manager/Effects.antt =====
-- What each call of pkg/subscription/manager.go does to the subscriptions.
use package.shinzo_scheduler_service.Base.{
  String, ◌≡◌, ◌≢◌, sym, ◌⊎◌, inl, inr, List, [], ◌∷◌, ◌++◌, map, none, some, ok, err, arith,
  eq_iff, ◌==◌, ◌||◌, filter, first, if◌then◌else◌, Bool-cases, Result-cases, Result,
}
use package.shinzo_scheduler_service.Base.Int.{ℤ}
use package.shinzo_scheduler_service.Base.Time.{Runtime}
use package.shinzo_scheduler_service.Base.Float.{Float64}
use package.shinzo_scheduler_service.Store.Records.{SubscriptionRecord}
use package.shinzo_scheduler_service.Store.Db.{LawfulDb, write_at}
use package.shinzo_scheduler_service.Store.Documents.{subscription_document}
use package.shinzo_scheduler_service.Store.Status
use package.shinzo_scheduler_service.Store.IndexerStore
use package.shinzo_scheduler_service.Store.SubscriptionStore
use package.shinzo_scheduler_service.Store.SubscriptionStore.Answers.{
  get_by_id-ok, create_docs, create-ok, update_docs, update-ok,
}
use package.shinzo_scheduler_service.Subscription.Manager.{
  CreateRequest, ActivateRequest, Manager, State, subscription_of, validate_create, create,
  activate_fields, activate, cancel,
}
use package.shinzo_scheduler_service.Subscription.Manager.Operations.{UniqueIds, record_match-subs}
use package.shinzo_scheduler_service.Subscription.Manager.Runs.{
  Call, creates, activates, cancels, expires, run,
}
use package.shinzo_scheduler_service.Subscription.Manager.Endings.{Pairs, Reviewed}
use package.shinzo_scheduler_service.Subscription.Manager.Passes.{expire_overdue-Reviewed}

-- A call that answers with an error and leaves the subscriptions as they are.
abbrev pub Failed :
    {T : Type 0} → Result T → List SubscriptionRecord → List SubscriptionRecord → Type 0
Failed answer xs ys = ((e : String) × (answer ≡ err e)) × (ys ≡ xs)

-- The subscription of a request, pending, behind the others.
abbrev pub CreatedBy :
    Runtime
    → CreateRequest
    → String
    → ℤ
    → List SubscriptionRecord
    → List SubscriptionRecord
    → Type 0
CreatedBy rt req uuid now xs ys =
    (id : String) × (ys
      ≡ xs
        ++ record {
          doc_id = id;
          subscription_id = uuid;
          host_id = req.host_id;
          indexer_id = req.indexer_id;
          sub_type = req.sub_type;
          block_from = req.block_from;
          block_to = req.block_to;
          status = Status.pending;
          payment_ref = "";
          created_at = rt.format_time now;
          activated_at = "";
          expires_at = "";
          metadata = req.metadata;
        }
          ∷ [])

-- The one subscription with this id had a status that passes the test, and is rewritten.
abbrev pub Rewritten :
    String
    → (String → Type 0)
    → (SubscriptionRecord → SubscriptionRecord)
    → List SubscriptionRecord
    → List SubscriptionRecord
    → Type 0
Rewritten sub_id P f xs ys =
    (sub : SubscriptionRecord) × (first (filter (λ r. r.subscription_id == sub_id) xs) ≡ some sub)
    × P sub.status
    × (ys ≡ map (write_at subscription_document sub.doc_id f) xs)

module _ {F D I M : Type 0} ⦃fl : Float64 F⦄ (rt : Runtime) (m : Manager F D I M)
    (docs : D → List SubscriptionRecord) where
  -- What a call does to the subscriptions on record.
  abbrev pub Did : Call → State D I M → List SubscriptionRecord → Type 0
  Did (creates req uuid match_uuid now) s ys =
      Failed (create rt m req uuid match_uuid now s).0 (docs s.subs) ys
      ⊎ CreatedBy rt req uuid now (docs s.subs) ys
  Did (activates req now) s ys =
      Failed (activate rt m req now s).0 (docs s.subs) ys
      ⊎ Rewritten req.subscription_id (λ st. st ≡ Status.pending)
          (λ r. record r {
            status = Status.active;
            payment_ref = req.payment_ref;
            activated_at = rt.format_time now;
            expires_at = if req.expires_at == "" then r.expires_at else req.expires_at;
          })
          (docs s.subs) ys
  Did (cancels sub_id) s ys =
      Failed (cancel rt m sub_id s).0 (docs s.subs) ys
      ⊎ Rewritten sub_id (λ st. (st ≢ Status.expired) × (st ≢ Status.cancelled))
          (λ r. record r { status = Status.cancelled }) (docs s.subs) ys
  Did (expires now) s ys = Pairs (Reviewed rt m now s.subs) (docs s.subs) ys

  module _ (lawful : LawfulDb subscription_document m.sub_st docs) where
    -- The answer and the write of one update, by the update's outcome.
    update-Rewritten :
        (sub_id : String) (P : String → Type 0) (f : SubscriptionRecord → SubscriptionRecord)
        (sub : SubscriptionRecord) (d d' : D) (answer : Result (Unit {0}))
        → SubscriptionStore.get_by_id m.sub_st sub_id d ≡ ok (some sub)
        → P sub.status
        → SubscriptionStore.update m.sub_st sub.doc_id f d ≡ (answer, d')
        → Failed answer (docs d) (docs d') ⊎ Rewritten sub_id P f (docs d) (docs d')
    update-Rewritten sub_id P f sub d d' answer q pass e =
        let on_file = sym (get_by_id-ok m.sub_st docs lawful sub_id d (some sub) q) in
        elim (Result-cases (SubscriptionStore.update m.sub_st sub.doc_id f d).0) [
          | inl (tt, done) ↦
              let written = update-ok m.sub_st docs lawful sub.doc_id f d done in
              inr (sub, on_file, pass, ground (arith, written))
          | inr (t, failed) ↦ elim (update_docs m.sub_st docs lawful sub.doc_id f d) [
            | inl same ↦ inl ((t, ground arith), ground (arith, same))
            | inr written ↦ inr (sub, on_file, pass, ground (arith, written))
          ]
        ]

    activate-Did :
        (req : ActivateRequest) (now : ℤ) (s : State D I M)
        → Did (activates req now) s (docs (activate rt m req now s).1.subs)
    unfolding activate
    activate-Did req now s =
        elim (Result-cases (SubscriptionStore.get_by_id m.sub_st req.subscription_id s.subs)) [
          | inr (e, q) ↦ inl ((e, ground arith), ground arith)
          | inl (none, q) ↦ inl (("subscription not found", ground arith), ground arith)
          | inl (some sub, q) ↦ elim (Bool-cases (sub.status == Status.pending)) [
            | inr other ↦ inl (("subscription is not pending", ground arith), ground arith)
            | inl pending ↦
                update-Rewritten req.subscription_id _ (activate_fields rt m req now) sub s.subs _ _
                  q ((eq_iff sub.status Status.pending).0 pending) (ground arith)
          ]
        ]

    cancel-Did :
        (sub_id : String) (s : State D I M)
        → Did (cancels sub_id) s (docs (cancel rt m sub_id s).1.subs)
    unfolding cancel
    cancel-Did sub_id s = elim (Result-cases (SubscriptionStore.get_by_id m.sub_st sub_id s.subs)) [
      | inr (e, q) ↦ inl ((e, ground arith), ground arith)
      | inl (none, q) ↦ inl (("subscription not found", ground arith), ground arith)
      | inl (some sub, q) ↦
          elim (Bool-cases (sub.status == Status.expired || sub.status == Status.cancelled)) [
            | inl over ↦ inl (("subscription is already over", ground arith), ground arith)
            | inr going ↦
                update-Rewritten sub_id _ (λ r. record r { status = Status.cancelled }) sub s.subs _
                  _ q
                  (
                    λ e. ground (arith, eq_iff sub.status Status.expired),
                    λ e. ground (arith, eq_iff sub.status Status.cancelled),
                  )
                  (ground arith)
          ]
    ]

    stored-Did :
        (req : CreateRequest) (uuid match_uuid : String) (now : ℤ) (s : State D I M)
        → let t = create rt m req uuid match_uuid now s in
          let stored =
            SubscriptionStore.create m.sub_st (subscription_of rt m req uuid now) s.subs in
          t.0 ≡ stored.0
          → t.1.subs ≡ stored.1
          → Did (creates req uuid match_uuid now) s (docs t.1.subs)
    stored-Did req uuid match_uuid now s answered wrote =
        let sub = subscription_of rt m req uuid now in
        elim (Result-cases (SubscriptionStore.create m.sub_st sub s.subs).0) [
          | inl (x, made) ↦
              let (id, added, _) = create-ok m.sub_st docs lawful sub s.subs x made in
              inr (id, rw wrote added)
          | inr (e, refused) ↦ elim (create_docs m.sub_st docs lawful sub s.subs) [
            | inl same ↦ inl ((e, rw answered refused), rw wrote same)
            | inr (id, added) ↦ inr (id, rw wrote added)
          ]
        ]

    create-Did :
        (req : CreateRequest) (uuid match_uuid : String) (now : ℤ) (s : State D I M)
        → Did
            (creates req uuid match_uuid now)
            s
            (docs (create rt m req uuid match_uuid now s).1.subs)
    unfolding create
    create-Did req uuid match_uuid now s = elim (Result-cases (validate_create req)) [
      | inr (e, v) ↦ inl ((e, ground arith), ground arith)
      | inl (tt, v) ↦
          elim (Result-cases (IndexerStore.get_by_peer_id m.indexer_st req.indexer_id s.indexers)) [
            | inr (e, q) ↦ inl ((e, ground arith), ground arith)
            | inl (none, q) ↦ inl (("indexer is not available", ground arith), ground arith)
            | inl (some indexer, q) ↦ elim (Bool-cases (indexer.status == Status.active)) [
              | inr gone ↦ inl (("indexer is not available", ground arith), ground arith)
              | inl active ↦
                  let d =
                    (SubscriptionStore.create m.sub_st (subscription_of rt m req uuid now)
                      s.subs).1 in
                  let matched = record_match-subs rt m req match_uuid now (record s { subs = d }) in
                  stored-Did req uuid match_uuid now s (ground (arith, matched))
                    (ground (arith, matched))
            ]
          ]
    ]

    pub run-Did :
        (call : Call) (s : State D I M)
        → UniqueIds (docs s.subs)
        → Did call s (docs (run rt m call s).subs)
    unfolding run
    run-Did (creates req uuid match_uuid now) s u = create-Did req uuid match_uuid now s
    run-Did (activates req now) s u = activate-Did req now s
    run-Did (cancels sub_id) s u = cancel-Did sub_id s
    run-Did (expires now) s u = expire_overdue-Reviewed rt m docs lawful now s u
