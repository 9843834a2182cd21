-- ===== src/Subscription/Manager/Expiry.antt =====
-- The expiry loop of pkg/subscription/manager.go as steps on the subscriptions on record.
use package.shinzo_scheduler_service.Base.{
  String, ◌≡◌, refl, sym, subst, ◌⊎◌, inl, inr, Bool, true, false, List, [], ◌∷◌, map, ok, arith,
  eq_iff, ◌==◌, filter, All, Bool-cases, Result-cases,
}
use package.shinzo_scheduler_service.Base.Int.{ℤ}
use package.shinzo_scheduler_service.Base.Time.{Runtime}
use package.shinzo_scheduler_service.Base.Float.{Float64}
use package.shinzo_scheduler_service.Base.Unique.{filter_only, Unique-filter, All-imp}
use package.shinzo_scheduler_service.Store.Records.{SubscriptionRecord}
use package.shinzo_scheduler_service.Store.Db.{LawfulDb, write_at}
use package.shinzo_scheduler_service.Store.Documents.{subscription_document}
use package.shinzo_scheduler_service.Store.Status
use package.shinzo_scheduler_service.Store.SubscriptionStore
use package.shinzo_scheduler_service.Store.SubscriptionStore.Answers.{
  list_by_status-ok, update_docs,
}
use package.shinzo_scheduler_service.Subscription.Manager.{
  Manager, State, is_overdue, expire_one, expire_each, expire_overdue,
}
use package.shinzo_scheduler_service.Subscription.Manager.Lifecycle.{
  Allowed, expired, done, Steps-append,
}
use package.shinzo_scheduler_service.Subscription.Manager.Operations.{
  UniqueIds, Advanced, update-Advanced,
}

module _ {F D I M : Type 0} ⦃fl : Float64 F⦄ (rt : Runtime) (m : Manager F D I M)
    (docs : D → List SubscriptionRecord)
    (lawful : LawfulDb subscription_document m.sub_st docs) where
  abbrev pub expire_fields : SubscriptionRecord → SubscriptionRecord
  expire_fields r = record r { status = Status.expired }

  -- Every document with this one's id is active.
  abbrev AllActive : List SubscriptionRecord → SubscriptionRecord → Type 0
  AllActive xs sub = All (λ r. (r.doc_id == sub.doc_id) ≡ true → r.status ≡ Status.active) xs

  AllActive-write :
      (id : String) (sub : SubscriptionRecord) (xs : List SubscriptionRecord)
      → (id == sub.doc_id) ≡ false
      → AllActive xs sub
      → AllActive (map (write_at subscription_document id expire_fields) xs) sub
  AllActive-write id sub [] ne h = tt
  AllActive-write id sub (x ∷ xs) ne h = (
    elim (Bool-cases (x.doc_id == id)) [
      | inl hit ↦ rw hit (λ e. absurd (ground (arith, eq_iff x.doc_id id)))
      | inr other ↦ rw other h.0
    ],
    AllActive-write id sub xs ne h.1,
  )

  AllActive-writes :
      (id : String) (subs xs : List SubscriptionRecord)
      → All (λ sub. (id == sub.doc_id) ≡ false) subs
      → All (AllActive xs) subs
      → All (AllActive (map (write_at subscription_document id expire_fields) xs)) subs
  AllActive-writes id [] xs ne h = tt
  AllActive-writes id (sub ∷ subs) xs ne h =
      (AllActive-write id sub xs ne.0 h.0, AllActive-writes id subs xs ne.1 h.1)

  pub expire_one-subs :
      (sub : SubscriptionRecord) (now : ℤ) (s : State D I M)
      → ((expire_one rt m sub now s).subs ≡ s.subs)
        ⊎ ((expire_one rt m sub now s).subs
            ≡ (SubscriptionStore.update m.sub_st sub.doc_id expire_fields s.subs).1)
  unfolding expire_one
  expire_one-subs sub now s = elim (Bool-cases (is_overdue rt m now sub)) [
    | inl over ↦ inr (ground arith)
    | inr going ↦ inl (ground arith)
  ]

  -- The others stay active.
  expire_one-AllActive :
      (sub : SubscriptionRecord) (subs : List SubscriptionRecord) (now : ℤ) (s : State D I M)
      → All (λ other. (sub.doc_id == other.doc_id) ≡ false) subs
      → All (AllActive (docs s.subs)) subs
      → All (AllActive (docs (expire_one rt m sub now s).subs)) subs
  expire_one-AllActive sub subs now s ne h = elim (expire_one-subs sub now s) [
    | inl same ↦ rw same h
    | inr written ↦ elim (update_docs m.sub_st docs lawful sub.doc_id expire_fields s.subs) [
      | inl same ↦ rw (written, same) h
      | inr mapped ↦ rw (written, mapped) (AllActive-writes sub.doc_id subs (docs s.subs) ne h)
    ]
  ]

  expire_one-Advanced :
      (sub : SubscriptionRecord) (now : ℤ) (s : State D I M)
      → AllActive (docs s.subs) sub
      → UniqueIds (docs s.subs)
      → Advanced (docs s.subs) (docs (expire_one rt m sub now s).subs)
  expire_one-Advanced sub now s h u = elim (expire_one-subs sub now s) [
    | inl same ↦ rw same (done _, u)
    | inr written ↦ rw written (
        update-Advanced m docs lawful sub.doc_id expire_fields s.subs (λ r. refl) (λ r. refl)
          (All-imp _ _ (docs s.subs)
            (λ r active hit. subst (λ st. Allowed st Status.expired) (sym (active hit)) expired) h)
          u)
  ]

  expire_each-Advanced :
      (subs : List SubscriptionRecord) (now : ℤ) (s : State D I M)
      → UniqueIds subs
      → All (AllActive (docs s.subs)) subs
      → UniqueIds (docs s.subs)
      → Advanced (docs s.subs) (docs (expire_each rt m subs now s).subs)
  unfolding expire_each
  expire_each-Advanced [] now s us h u = (done _, u)
  expire_each-Advanced (sub ∷ subs) now s us h u =
      let (first_step, u1) = expire_one-Advanced sub now s h.0 u in
      let (rest, u2) =
        expire_each-Advanced subs now (expire_one rt m sub now s) us.1
          (expire_one-AllActive sub subs now s us.0 h.1) u1 in
      (Steps-append _ _ _ first_step rest, u2)

  listed-AllActive :
      (d : D) (actives : List SubscriptionRecord)
      → SubscriptionStore.list_by_status m.sub_st Status.active d ≡ ok actives
      → UniqueIds (docs d)
      → UniqueIds actives × All (AllActive (docs d)) actives
  listed-AllActive d actives q u =
      let is_active : SubscriptionRecord → Bool = λ r. r.status == Status.active in
      let same : actives ≡ filter is_active (docs d) =
        list_by_status-ok m.sub_st docs lawful Status.active d actives q in
      subst (λ xs. UniqueIds xs × All (AllActive (docs d)) xs) (sym same)
        (
          Unique-filter (λ r. r.doc_id) is_active (docs d) u,
          All-imp _ _ _
              (λ sub h.
                All-imp _ _ (docs d) (λ r pass hit. (eq_iff r.status Status.active).0 (pass hit)) h)
              (filter_only (λ r. r.doc_id) is_active (docs d) u),
        )

  pub expire_overdue-Advanced :
      (now : ℤ) (s : State D I M)
      → UniqueIds (docs s.subs)
      → Advanced (docs s.subs) (docs (expire_overdue rt m now s).subs)
  unfolding expire_overdue
  expire_overdue-Advanced now s u =
      elim (Result-cases (SubscriptionStore.list_by_status m.sub_st Status.active s.subs)) [
        | inr (e, q) ↦ rw (q, expire_overdue) (done _, u)
        | inl (actives, q) ↦
            let (us, h) = listed-AllActive s.subs actives q u in
            rw (q, expire_overdue) (expire_each-Advanced actives now s us h u)
      ]
