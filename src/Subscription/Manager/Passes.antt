-- ===== src/Subscription/Manager/Passes.antt =====
-- Which subscriptions a pass of the expiry loop of pkg/subscription/manager.go ends.
use package.shinzo_scheduler_service.Base.{
  ◌≡◌, refl, sym, subst, ◌⊎◌, inl, inr, Bool, true, false, List, [], ◌∷◌, map, some, arith, eq_iff,
  ◌==◌, filter, All, Bool-cases, Result-cases, Option-cases,
}
use package.shinzo_scheduler_service.Base.Int.{ℤ, ltb_ℤ}
use package.shinzo_scheduler_service.Base.Time.{Runtime}
use package.shinzo_scheduler_service.Base.Float.{Float64}
use package.shinzo_scheduler_service.Base.Unique.{filter_same, filter-All, Unique-filter, All-imp}
use package.shinzo_scheduler_service.Store.Records.{SubscriptionRecord}
use package.shinzo_scheduler_service.Store.Db.{LawfulDb, write_at}
use package.shinzo_scheduler_service.Store.Documents.{subscription_document}
use package.shinzo_scheduler_service.Store.Status
use package.shinzo_scheduler_service.Store.SubscriptionStore
use package.shinzo_scheduler_service.Store.SubscriptionStore.Answers.{
  list_by_status-ok, update_docs, update-ok,
}
use package.shinzo_scheduler_service.Subscription.Manager.{
  Manager, State, is_overdue, expire_one, expire_each, expire_overdue,
}
use package.shinzo_scheduler_service.Subscription.Manager.Operations.{UniqueIds}
use package.shinzo_scheduler_service.Subscription.Manager.Endings.{
  Ended, Pairs, Pairs-trans, Pairs-refl, Pairs-imp, Ended-trans, Ended-expired, expiring, has_id,
  filter-has_id, Known, Known-writes, Refused, NotOver, Reviewed,
}

module _ {F D I M : Type 0} ⦃fl : Float64 F⦄ (rt : Runtime) (m : Manager F D I M)
    (docs : D → List SubscriptionRecord)
    (lawful : LawfulDb subscription_document m.sub_st docs) where
  is_overdue-over :
      (now : ℤ) (x : SubscriptionRecord)
      → is_overdue rt m now x ≡ true
      → (expiry : ℤ) × (rt.parse_time x.expires_at ≡ some expiry) × (ltb_ℤ expiry now ≡ true)
  unfolding is_overdue
  is_overdue-over now x h = elim (Option-cases (rt.parse_time x.expires_at)) [
    | inl e ↦ absurd (ground arith)
    | inr (expiry, e) ↦ (expiry, e, ground arith)
  ]

  abbrev Passed : ℤ → List SubscriptionRecord → SubscriptionRecord → SubscriptionRecord → Type 0
  Passed now subs x y =
      Ended rt now x y
      × (has_id x.doc_id subs ≡ true
          → is_overdue rt m now x ≡ true
          → (y ≡ expiring x) ⊎ Refused rt m x.doc_id)

  Passed-trans :
      (now : ℤ) (sub : SubscriptionRecord) (subs : List SubscriptionRecord)
      (x y z : SubscriptionRecord)
      → Passed now (sub ∷ []) x y
      → Passed now subs y z
      → Passed now (sub ∷ subs) x z
  Passed-trans now sub subs x y z h k = (
    Ended-trans rt now x y z h.0 k.0,
    λ hit over. elim (Bool-cases (sub.doc_id == x.doc_id)) [
      | inl head ↦ elim (h.1 (ground arith) over) [
        | inl e ↦ inl (Ended-expired rt now x y z k.0 e)
        | inr refused ↦ inr refused
      ]
      | inr tail ↦ elim (h.0) [
        | inl same ↦
            subst
              (λ w.
                has_id w.doc_id subs ≡ true
                → is_overdue rt m now w ≡ true
                → (z ≡ expiring w) ⊎ Refused rt m w.doc_id)
              same k.1 (ground arith) over
        | inr (active, t, read, past, e) ↦ inl (Ended-expired rt now x y z k.0 e)
      ]
    ],
  )

  kept-Passed :
      (sub : SubscriptionRecord) (now : ℤ) (xs : List SubscriptionRecord)
      → (is_overdue rt m now sub ≡ false) ⊎ Refused rt m sub.doc_id
      → Known xs sub
      → Pairs (Passed now (sub ∷ [])) xs xs
  kept-Passed sub now [] why h = tt
  kept-Passed sub now (x ∷ xs) why h = (
    (
      inl refl,
      λ hit over.
          let same : x ≡ sub =
            h.0 (ground (arith, eq_iff x.doc_id sub.doc_id, eq_iff sub.doc_id x.doc_id)) in
          elim why [
            | inl going ↦ absurd (
                subst (λ w. is_overdue rt m now w ≡ false → ⊥) (sym same) (λ e. ground arith)
                  (subst (λ w. is_overdue rt m now w ≡ false) (sym same) going))
            | inr refused ↦ inr (subst (λ w. Refused rt m w.doc_id) (sym same) refused)
          ],
    ),
    kept-Passed sub now xs why h.1,
  )

  written-Passed :
      (sub : SubscriptionRecord) (now : ℤ) (xs : List SubscriptionRecord)
      → sub.status ≡ Status.active
      → is_overdue rt m now sub ≡ true
      → Known xs sub
      → Pairs
          (Passed now (sub ∷ []))
          xs
          (map (write_at subscription_document sub.doc_id expiring) xs)
  written-Passed sub now [] active over h = tt
  written-Passed sub now (x ∷ xs) active over h = (
    elim (Bool-cases (x.doc_id == sub.doc_id)) [
      | inl hit ↦
          let same : x ≡ sub = h.0 hit in
          let ended : Ended rt now x (expiring x) =
            subst (λ y. Ended rt now y (expiring y)) (sym same)
              (let (expiry, read, past) = is_overdue-over now sub over in
                inr (active, expiry, read, past, refl)) in
          rw hit (ended, λ e o. inl refl)
      | inr other ↦ rw other (
        inl refl,
        λ e o. absurd (ground (arith, eq_iff x.doc_id sub.doc_id, eq_iff sub.doc_id x.doc_id)),
      )
    ],
    written-Passed sub now xs active over h.1,
  )

  expire_one-Passed :
      (sub : SubscriptionRecord) (subs : List SubscriptionRecord) (now : ℤ) (s : State D I M)
      → sub.status ≡ Status.active
      → Known (docs s.subs) sub
      → All (λ other. (sub.doc_id == other.doc_id) ≡ false) subs
      → All (Known (docs s.subs)) subs
      → Pairs (Passed now (sub ∷ [])) (docs s.subs) (docs (expire_one rt m sub now s).subs)
        × All (Known (docs (expire_one rt m sub now s).subs)) subs
  unfolding expire_one
  expire_one-Passed sub subs now s active h ne others =
      elim (Bool-cases (is_overdue rt m now sub)) [
        | inr going ↦
            rw (going, expire_one) (kept-Passed sub now (docs s.subs) (inl going) h, others)
        | inl over ↦
            let both : Pairs (Passed now (sub ∷ [])) (docs s.subs)
                  (map (write_at subscription_document sub.doc_id expiring) (docs s.subs))
                × All
                    (Known (map (write_at subscription_document sub.doc_id expiring) (docs s.subs)))
                    subs =
              (
                written-Passed sub now (docs s.subs) active over h,
                Known-writes sub.doc_id subs (docs s.subs) ne others,
              ) in
            elim (Result-cases (SubscriptionStore.update m.sub_st sub.doc_id expiring s.subs).0) [
              | inl (u, done) ↦
                  rw
                    (
                      over,
                      expire_one,
                      update-ok m.sub_st docs lawful sub.doc_id expiring s.subs done,
                    )
                    both
              | inr (e, refused) ↦
                  elim (update_docs m.sub_st docs lawful sub.doc_id expiring s.subs) [
                    | inl same ↦
                        rw (over, expire_one, same)
                          (kept-Passed sub now (docs s.subs) (inr (s.subs, e, refused)) h, others)
                    | inr written ↦ rw (over, expire_one, written) both
                  ]
            ]
      ]

  expire_each-Passed :
      (subs : List SubscriptionRecord) (now : ℤ) (s : State D I M)
      → UniqueIds subs
      → All (λ sub. sub.status ≡ Status.active) subs
      → All (Known (docs s.subs)) subs
      → Pairs (Passed now subs) (docs s.subs) (docs (expire_each rt m subs now s).subs)
  unfolding expire_each
  expire_each-Passed [] now s us actives h =
      Pairs-refl (Passed now []) (docs s.subs) (λ x. (inl refl, λ e o. absurd (ground arith)))
  expire_each-Passed (sub ∷ subs) now s us actives h =
      let (one, known) = expire_one-Passed sub subs now s actives.0 h.0 us.0 h.1 in
      Pairs-trans (Passed now (sub ∷ [])) (Passed now subs) (Passed now (sub ∷ subs)) _ _ _
        (Passed-trans now sub subs) one
        (expire_each-Passed subs now (expire_one rt m sub now s) us.1 actives.1 known)

  is_overdue-NotOver :
      (now : ℤ) (x : SubscriptionRecord) → is_overdue rt m now x ≡ false → NotOver rt m now x
  unfolding is_overdue
  is_overdue-NotOver now x h = elim (Bool-cases (x.expires_at == "")) [
    | inl unset ↦ inl ((eq_iff x.expires_at "").0 unset)
    | inr given ↦ elim (Option-cases (rt.parse_time x.expires_at)) [
      | inl e ↦ inr (inl e)
      | inr (expiry, e) ↦ inr (inr (expiry, e, ground arith))
    ]
  ]

  Passed-Reviewed :
      (now : ℤ) (d : D) (actives : List SubscriptionRecord) (x y : SubscriptionRecord)
      → ((x.status == Status.active) ≡ false) ⊎ (has_id x.doc_id actives ≡ true)
      → Passed now actives x y
      → Reviewed rt m now d x y
  Passed-Reviewed now d actives x y listed (inr ended, closed) = inl ended
  Passed-Reviewed now d actives x y listed (inl same, closed) =
      elim (Bool-cases (x.status == Status.active)) [
        | inr other ↦ inr (same, inl (λ e. ground (arith, eq_iff x.status Status.active)))
        | inl active ↦ elim (Bool-cases (is_overdue rt m now x)) [
          | inr going ↦ inr (same, inr (inl (is_overdue-NotOver now x going)))
          | inl over ↦ elim (closed (ground arith) over) [
            | inr refused ↦ inr (same, inr (inr (inr refused)))
            | inl e ↦
                let (expiry, read, past) = is_overdue-over now x over in
                inl ((eq_iff x.status Status.active).0 active, expiry, read, past, e)
          ]
        ]
      ]

  pub expire_overdue-Reviewed :
      (now : ℤ) (s : State D I M)
      → UniqueIds (docs s.subs)
      → Pairs (Reviewed rt m now s.subs) (docs s.subs) (docs (expire_overdue rt m now s).subs)
  unfolding expire_overdue
  expire_overdue-Reviewed now s u =
      elim (Result-cases (SubscriptionStore.list_by_status m.sub_st Status.active s.subs)) [
        | inr (e, q) ↦
            rw (q, expire_overdue)
              (Pairs-refl (Reviewed rt m now s.subs) (docs s.subs)
                (λ x. inr (refl, inr (inr (inl (e, q))))))
        | inl (actives, q) ↦
            let is_active : SubscriptionRecord → Bool = λ r. r.status == Status.active in
            let same : actives ≡ filter is_active (docs s.subs) =
              list_by_status-ok m.sub_st docs lawful Status.active s.subs actives q in
            let known =
              subst
                (λ xs.
                  UniqueIds xs
                  × All (λ sub. sub.status ≡ Status.active) xs
                  × All (Known (docs s.subs)) xs
                  × All (λ x. (is_active x ≡ false) ⊎ (has_id x.doc_id xs ≡ true)) (docs s.subs))
                (sym same)
                (
                  Unique-filter (λ r. r.doc_id) is_active (docs s.subs) u,
                  All-imp _ _ _ (λ r pass. (eq_iff r.status Status.active).0 pass)
                      (filter-All (λ r. r.doc_id) is_active (docs s.subs)),
                  filter_same (λ r. r.doc_id) is_active (docs s.subs) u,
                  filter-has_id is_active (docs s.subs),
                ) in
            rw (q, expire_overdue)
              (Pairs-imp _ (Passed now actives) (Reviewed rt m now s.subs) _ _
                (Passed-Reviewed now s.subs actives) known.3
                (expire_each-Passed actives now s known.0 known.1 known.2))
      ]
