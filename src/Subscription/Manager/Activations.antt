-- ===== src/Subscription/Manager/Activations.antt =====
-- Why a subscription is active, under any calls of pkg/subscription/manager.go.
use package.shinzo_scheduler_service.Base.{
  String, ◌≡◌, refl, sym, subst, inl, inr, true, false, some, List, [], ◌∷◌, map, arith, eq_iff,
  ◌==◌, All, Bool-cases, Result-cases,
}
use package.shinzo_scheduler_service.Base.Int.{ℤ}
use package.shinzo_scheduler_service.Base.Time.{Runtime}
use package.shinzo_scheduler_service.Base.Float.{Float64}
use package.shinzo_scheduler_service.Base.Unique.{All-imp, All-append_one, first-filter_test}
use package.shinzo_scheduler_service.Store.Records.{SubscriptionRecord}
use package.shinzo_scheduler_service.Store.Db.{LawfulDb, FreshIds, write_at}
use package.shinzo_scheduler_service.Store.Documents.{subscription_document}
use package.shinzo_scheduler_service.Store.Status
use package.shinzo_scheduler_service.Store.SubscriptionStore
use package.shinzo_scheduler_service.Store.SubscriptionStore.Answers.{
  get_by_id-ok, create_docs, update_docs,
}
use package.shinzo_scheduler_service.Subscription.Manager.{
  Manager, State, CreateRequest, ActivateRequest, subscription_of, activate_fields, create,
  activate, cancel, expire_one, expire_each, expire_overdue,
}
use package.shinzo_scheduler_service.Subscription.Manager.Operations.{
  UniqueIds, found_only, create-subs, activate-Written, cancel-Written,
}
use package.shinzo_scheduler_service.Subscription.Manager.Expiry.{expire_one-subs}
use package.shinzo_scheduler_service.Subscription.Manager.Runs.{
  Call, creates, activates, cancels, expires, run, run_all, run-Advanced,
}

-- An active subscription has a cause.
abbrev pub HasCause : (String → Type 0) → SubscriptionRecord → Type 0
HasCause P r = r.status ≡ Status.active → P r.subscription_id

-- A call gives a cause to what it activates.
abbrev pub GivesCause : (String → Type 0) → Call → Type 0
GivesCause P (creates req uuid match_uuid now) = Unit
GivesCause P (activates req now) = P req.subscription_id
GivesCause P (cancels sub_id) = Unit
GivesCause P (expires now) = Unit

write-HasCause :
    (P : String → Type 0) (id : String) (f : SubscriptionRecord → SubscriptionRecord)
    (xs : List SubscriptionRecord)
    → All (HasCause P) xs
    → All (λ r. (r.doc_id == id) ≡ true → HasCause P (f r)) xs
    → All (HasCause P) (map (write_at subscription_document id f) xs)
write-HasCause P id f [] h k = tt
write-HasCause P id f (x ∷ xs) h k = (
  elim (Bool-cases (x.doc_id == id)) [ inl hit ↦ rw hit (k.0 hit) | inr other ↦ rw other h.0 ],
  write-HasCause P id f xs h.1 k.1,
)

module _ {F D I M : Type 0} ⦃fl : Float64 F⦄ (rt : Runtime) (m : Manager F D I M)
    (docs : D → List SubscriptionRecord) (lawful : LawfulDb subscription_document m.sub_st docs)
    (P : String → Type 0) where
  update-HasCause :
      (id : String) (f : SubscriptionRecord → SubscriptionRecord) (d : D)
      → All (HasCause P) (docs d)
      → All (λ r. (r.doc_id == id) ≡ true → HasCause P (f r)) (docs d)
      → All (HasCause P) (docs (SubscriptionStore.update m.sub_st id f d).1)
  update-HasCause id f d h k = elim (update_docs m.sub_st docs lawful id f d) [
    | inl same ↦ rw same h
    | inr written ↦ rw written (write-HasCause P id f (docs d) h k)
  ]

  All-any :
      (Q : SubscriptionRecord → Type 0)
      → ((r : SubscriptionRecord) → Q r)
      → (xs : List SubscriptionRecord) → All Q xs
  All-any Q q [] = tt
  All-any Q q (x ∷ xs) = (q x, All-any Q q xs)

  -- Writes of another status need no cause.
  update-HasCause_ended :
      (id : String) (f : SubscriptionRecord → SubscriptionRecord) (d : D)
      → ((r : SubscriptionRecord) → ((f r).status == Status.active) ≡ false)
      → All (HasCause P) (docs d)
      → All (HasCause P) (docs (SubscriptionStore.update m.sub_st id f d).1)
  update-HasCause_ended id f d ended h = update-HasCause id f d h (
      All-any _
        (λ r hit active. absurd (ground (arith, ended r, eq_iff (f r).status Status.active)))
        (docs d))

  activate-HasCause :
      (req : ActivateRequest) (now : ℤ) (s : State D I M)
      → P req.subscription_id
      → UniqueIds (docs s.subs)
      → All (HasCause P) (docs s.subs)
      → All (HasCause P) (docs (activate rt m req now s).1.subs)
  activate-HasCause req now s cause u h = elim (activate-Written rt m req now s) [
    | inl same ↦ rw same h
    | inr (sub, q, pending, e) ↦
        let named : sub.subscription_id ≡ req.subscription_id = (eq_iff _ _).0 (
          first-filter_test _ (docs s.subs) sub
            (sym (get_by_id-ok m.sub_st docs lawful req.subscription_id s.subs (some sub) q))) in
        rw e (
          update-HasCause sub.doc_id (activate_fields rt m req now) s.subs h (
            All-imp _ _ (docs s.subs)
              (λ r only hit active.
                subst P
                  (sym
                    (subst (λ x. x.subscription_id ≡ req.subscription_id) (sym (only hit)) named))
                  cause)
              (found_only m docs lawful req.subscription_id s.subs sub q u)))
  ]

  cancel-HasCause :
      (sub_id : String) (s : State D I M)
      → All (HasCause P) (docs s.subs)
      → All (HasCause P) (docs (cancel rt m sub_id s).1.subs)
  cancel-HasCause sub_id s h = elim (cancel-Written rt m sub_id s) [
    | inl same ↦ rw same h
    | inr (sub, q, going, e) ↦ rw e (update-HasCause_ended sub.doc_id _ s.subs (λ r. refl) h)
  ]

  create-HasCause :
      (req : CreateRequest) (uuid match_uuid : String) (now : ℤ) (s : State D I M)
      → All (HasCause P) (docs s.subs)
      → All (HasCause P) (docs (create rt m req uuid match_uuid now s).1.subs)
  create-HasCause req uuid match_uuid now s h = elim (create-subs rt m req uuid match_uuid now s) [
    | inl same ↦ rw same h
    | inr e ↦
        rw e (elim (create_docs m.sub_st docs lawful (subscription_of rt m req uuid now) s.subs) [
          | inl same ↦ rw same h
          | inr (id, added) ↦ rw added (
              All-append_one (HasCause P) (docs s.subs) _ h
                (λ active. absurd (ground (arith, eq_iff Status.pending Status.active))))
        ])
  ]

  expire_each-HasCause :
      (subs : List SubscriptionRecord) (now : ℤ) (s : State D I M)
      → All (HasCause P) (docs s.subs)
      → All (HasCause P) (docs (expire_each rt m subs now s).subs)
  unfolding expire_each
  expire_each-HasCause [] now s h = h
  expire_each-HasCause (sub ∷ subs) now s h =
      expire_each-HasCause subs now (expire_one rt m sub now s)
        (elim (expire_one-subs rt m docs lawful sub now s) [
          | inl same ↦ rw same h
          | inr e ↦ rw e (update-HasCause_ended sub.doc_id _ s.subs (λ r. refl) h)
        ])

  expire_overdue-HasCause :
      (now : ℤ) (s : State D I M)
      → All (HasCause P) (docs s.subs)
      → All (HasCause P) (docs (expire_overdue rt m now s).subs)
  unfolding expire_overdue
  expire_overdue-HasCause now s h =
      elim (Result-cases (SubscriptionStore.list_by_status m.sub_st Status.active s.subs)) [
        | inr (e, q) ↦ rw (q, expire_overdue) h
        | inl (actives, q) ↦ rw (q, expire_overdue) (expire_each-HasCause actives now s h)
      ]

  run-HasCause :
      (call : Call) (s : State D I M)
      → GivesCause P call
      → UniqueIds (docs s.subs)
      → All (HasCause P) (docs s.subs)
      → All (HasCause P) (docs (run rt m call s).subs)
  unfolding run
  run-HasCause (creates req uuid match_uuid now) s g u h =
      create-HasCause req uuid match_uuid now s h
  run-HasCause (activates req now) s g u h = activate-HasCause req now s g u h
  run-HasCause (cancels sub_id) s g u h = cancel-HasCause sub_id s h
  run-HasCause (expires now) s g u h = expire_overdue-HasCause now s h

  -- If the calls give a cause to all that they activate, and what was active had one, then so has
  -- whatever is active after them.
  pub run_all-HasCause :
      FreshIds subscription_document m.sub_st docs
      → (calls : List Call) (s : State D I M) → All (GivesCause P) calls
      → UniqueIds (docs s.subs)
      → All (HasCause P) (docs s.subs)
      → All (HasCause P) (docs (run_all rt m calls s).subs)
  unfolding run_all
  run_all-HasCause fresh [] s g u h = h
  run_all-HasCause fresh (call ∷ calls) s g u h =
      run_all-HasCause fresh calls (run rt m call s) g.1
        (run-Advanced rt m docs lawful fresh call s u).1 (run-HasCause call s g.0 u h)
