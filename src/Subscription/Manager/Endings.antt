-- ===== src/Subscription/Manager/Endings.antt =====
-- What a pass of the expiry loop of pkg/subscription/manager.go may do to each subscription.
use package.shinzo_scheduler_service.Base.{
  String, ◌≡◌, ◌≢◌, sym, subst, ap, ◌∙◌, ◌⊎◌, inl, inr, Bool, true, false, ◌||◌, List, [], ◌∷◌, map,
  none, some, err, arith, eq_iff, eq_refl, ◌==◌, filter, All, Bool-cases,
}
use package.shinzo_scheduler_service.Base.Int.{ℤ, ltb_ℤ}
use package.shinzo_scheduler_service.Base.Time.{Runtime}
use package.shinzo_scheduler_service.Base.Float.{Float64}
use package.shinzo_scheduler_service.Base.Unique.{All-imp}
use package.shinzo_scheduler_service.Store.Records.{SubscriptionRecord}
use package.shinzo_scheduler_service.Store.Db.{write_at}
use package.shinzo_scheduler_service.Store.Documents.{subscription_document}
use package.shinzo_scheduler_service.Store.Status
use package.shinzo_scheduler_service.Store.SubscriptionStore
use package.shinzo_scheduler_service.Subscription.Manager.{Manager}

-- A subscription that is left alone, or an active one whose end is over, which becomes expired and
-- keeps everything else.
abbrev pub Ended : Runtime → ℤ → SubscriptionRecord → SubscriptionRecord → Type 0
Ended rt now x y =
    (y ≡ x)
    ⊎ ((x.status ≡ Status.active)
        × (expiry : ℤ) × (rt.parse_time x.expires_at ≡ some expiry)
        × (ltb_ℤ expiry now ≡ true)
        × (y ≡ record x { status = Status.expired }))

-- Two lists of the same length, and a relation between what stands at the same places.
abbrev pub Pairs :
    (SubscriptionRecord → SubscriptionRecord → Type 0)
    → List SubscriptionRecord
    → List SubscriptionRecord
    → Type 0
Pairs R [] [] = Unit
Pairs R (x ∷ xs) (y ∷ ys) = R x y × Pairs R xs ys
Pairs R [] (y ∷ ys) = ⊥
Pairs R (x ∷ xs) [] = ⊥

pub Pairs-trans :
    (R Q T : SubscriptionRecord → SubscriptionRecord → Type 0) (xs ys zs : List SubscriptionRecord)
    → ((x y z : SubscriptionRecord) → R x y → Q y z → T x z)
    → Pairs R xs ys
    → Pairs Q ys zs
    → Pairs T xs zs
Pairs-trans R Q T [] [] [] f h k = tt
Pairs-trans R Q T [] [] (z ∷ zs) f h k = absurd k
Pairs-trans R Q T [] (y ∷ ys) zs f h k = absurd h
Pairs-trans R Q T (x ∷ xs) [] zs f h k = absurd h
Pairs-trans R Q T (x ∷ xs) (y ∷ ys) [] f h k = absurd k
Pairs-trans R Q T (x ∷ xs) (y ∷ ys) (z ∷ zs) f h k =
    (f x y z h.0 k.0, Pairs-trans R Q T xs ys zs f h.1 k.1)

pub Pairs-refl :
    (R : SubscriptionRecord → SubscriptionRecord → Type 0) (xs : List SubscriptionRecord)
    → ((x : SubscriptionRecord) → R x x)
    → Pairs R xs xs
Pairs-refl R [] f = tt
Pairs-refl R (x ∷ xs) f = (f x, Pairs-refl R xs f)

pub Pairs-imp :
    (P : SubscriptionRecord → Type 0) (R T : SubscriptionRecord → SubscriptionRecord → Type 0)
    (xs ys : List SubscriptionRecord)
    → ((x y : SubscriptionRecord) → P x → R x y → T x y)
    → All P xs
    → Pairs R xs ys
    → Pairs T xs ys
Pairs-imp P R T [] [] f p h = tt
Pairs-imp P R T [] (y ∷ ys) f p h = absurd h
Pairs-imp P R T (x ∷ xs) [] f p h = absurd h
Pairs-imp P R T (x ∷ xs) (y ∷ ys) f p h = (f x y p.0 h.0, Pairs-imp P R T xs ys f p.1 h.1)

pub Ended-trans :
    (rt : Runtime) (now : ℤ) (x y z : SubscriptionRecord)
    → Ended rt now x y
    → Ended rt now y z
    → Ended rt now x z
Ended-trans rt now x y z (inl e) h = subst (λ w. Ended rt now w z) e h
Ended-trans rt now x y z (inr ended) (inl e) = subst (Ended rt now x) (sym e) (inr ended)
Ended-trans rt now x y z (inr (active, t, read, over, e)) (inr (again, t2, read2, over2, e2)) =
    absurd (ground (arith, eq_iff Status.expired Status.active))

abbrev pub expiring : SubscriptionRecord → SubscriptionRecord
expiring r = record r { status = Status.expired }

-- What is expired stays so.
pub Ended-expired :
    (rt : Runtime) (now : ℤ) (x y z : SubscriptionRecord)
    → Ended rt now y z
    → y ≡ record x { status = Status.expired }
    → z ≡ record x { status = Status.expired }
Ended-expired rt now x y z (inl e) h = e ∙ h
Ended-expired rt now x y z (inr (active, t, read, over, e)) h = e ∙ ap expiring h

abbrev pub has_id : String → List SubscriptionRecord → Bool
has_id id [] = false
has_id id (sub ∷ subs) = (sub.doc_id == id) || has_id id subs

pub filter-has_id :
    (p : SubscriptionRecord → Bool) (xs : List SubscriptionRecord)
    → All (λ x. (p x ≡ false) ⊎ (has_id x.doc_id (filter p xs) ≡ true)) xs
filter-has_id p [] = tt
filter-has_id p (x ∷ xs) = (
  elim (Bool-cases (p x)) [ inr out ↦ inl out | inl pass ↦ inr (ground (arith, eq_refl x.doc_id)) ],
  All-imp _ _ xs (λ y h. elim h [ inl out ↦ inl out | inr found ↦ inr (ground (arith, found)) ])
      (filter-has_id p xs),
)

-- The documents with this one's id are this one.
abbrev pub Known : List SubscriptionRecord → SubscriptionRecord → Type 0
Known xs sub = All (λ r. (r.doc_id == sub.doc_id) ≡ true → r ≡ sub) xs

Known-write :
    (id : String) (sub : SubscriptionRecord) (xs : List SubscriptionRecord)
    → (id == sub.doc_id) ≡ false
    → Known xs sub
    → Known (map (write_at subscription_document id expiring) xs) sub
Known-write id sub [] ne h = tt
Known-write id sub (x ∷ xs) ne h = (
  elim (Bool-cases (x.doc_id == id)) [
    | inl hit ↦ rw hit (λ e. absurd (ground (arith, eq_iff x.doc_id id)))
    | inr other ↦ rw other h.0
  ],
  Known-write id sub xs ne h.1,
)

pub Known-writes :
    (id : String) (subs xs : List SubscriptionRecord)
    → All (λ sub. (id == sub.doc_id) ≡ false) subs
    → All (Known xs) subs
    → All (Known (map (write_at subscription_document id expiring) xs)) subs
Known-writes id [] xs ne h = tt
Known-writes id (sub ∷ subs) xs ne h =
    (Known-write id sub xs ne.0 h.0, Known-writes id subs xs ne.1 h.1)

module _ {F D I M : Type 0} ⦃fl : Float64 F⦄ (rt : Runtime) (m : Manager F D I M) where
  -- The store refuses to end the subscription, in some state.
  abbrev pub Refused : String → Type 0
  Refused id =
      (d : D) × (e : String) × ((SubscriptionStore.update m.sub_st id
          (λ r. record r { status = Status.expired }) d).0
        ≡ err e)

  -- The end of the subscription is not set, cannot be read, or is not over.
  abbrev pub NotOver : ℤ → SubscriptionRecord → Type 0
  NotOver now x =
      (x.expires_at ≡ "")
      ⊎ (rt.parse_time x.expires_at ≡ none)
      ⊎ ((expiry : ℤ) × (rt.parse_time x.expires_at ≡ some expiry) × (ltb_ℤ expiry now ≡ false))

  -- An active subscription whose end is over becomes expired and keeps everything else, or the
  -- subscription stays as it is, for a reason: it is not active, its end is not over, the active
  -- ones cannot be read, or the store refuses the write.
  abbrev pub Reviewed : ℤ → D → SubscriptionRecord → SubscriptionRecord → Type 0
  Reviewed now d x y =
      ((x.status ≡ Status.active)
        × (expiry : ℤ) × (rt.parse_time x.expires_at ≡ some expiry)
        × (ltb_ℤ expiry now ≡ true)
        × (y ≡ record x { status = Status.expired }))
      ⊎ ((y ≡ x)
          × ((x.status ≢ Status.active)
              ⊎ NotOver now x
              ⊎ ((e : String) × (SubscriptionStore.list_by_status m.sub_st Status.active d ≡ err e))
              ⊎ Refused x.doc_id))
