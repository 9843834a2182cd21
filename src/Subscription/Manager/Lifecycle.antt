-- ===== src/Subscription/Manager/Lifecycle.antt =====
-- The life of a subscription under the operations of pkg/subscription/manager.go, as a relation on
-- the subscriptions on record.
use package.shinzo_scheduler_service.Base.{
  String, ◌≡◌, ◌≢◌, refl, sym, subst, ◌⊎◌, inl, inr, true, some, Option, List, [], ◌∷◌, ◌++◌, map,
  arith, eq_iff, ◌==◌, filter, first, All, Bool-cases,
}
use package.shinzo_scheduler_service.Store.Records.{SubscriptionRecord}
use package.shinzo_scheduler_service.Store.Db.{write_at}
use package.shinzo_scheduler_service.Store.Documents.{subscription_document}
use package.shinzo_scheduler_service.Store.Status

-- The changes of a status.
pub data Allowed : String → String → Type 0 where
  activated : Allowed Status.pending Status.active
  cancelled :
      (before : String)
      → before ≢ Status.expired
      → before ≢ Status.cancelled
      → Allowed before Status.cancelled
  expired : Allowed Status.active Status.expired

-- One subscription before and after.
abbrev pub Move : SubscriptionRecord → SubscriptionRecord → Type 0
Move x y = (y ≡ x) ⊎ ((y.subscription_id ≡ x.subscription_id) × Allowed x.status y.status)

abbrev pub Moves : List SubscriptionRecord → List SubscriptionRecord → Type 0
Moves [] [] = Unit
Moves [] (y ∷ ys) = ⊥
Moves (x ∷ xs) [] = ⊥
Moves (x ∷ xs) (y ∷ ys) = Move x y × Moves xs ys

-- The collection before and after one write.
pub data Step : List SubscriptionRecord → List SubscriptionRecord → Type 0 where
  moved : (xs ys : List SubscriptionRecord) → Moves xs ys → Step xs ys
  created :
      (xs : List SubscriptionRecord) (y : SubscriptionRecord)
      → y.status ≡ Status.pending
      → Step xs (xs ++ y ∷ [])

-- Any number of writes.
pub data Steps : List SubscriptionRecord → List SubscriptionRecord → Type 0 where
  done : (xs : List SubscriptionRecord) → Steps xs xs
  step : (xs ys zs : List SubscriptionRecord) → Step xs ys → Steps ys zs → Steps xs zs

pub Steps-append : (xs ys zs : List SubscriptionRecord) → Steps xs ys → Steps ys zs → Steps xs zs
Steps-append xs ys zs (done _) t = t
Steps-append xs ys zs (step _ xs' _ s ss) t = step xs xs' zs s (Steps-append xs' ys zs ss t)

-- A subscription's end.
abbrev pub Over : String → Type 0
Over status = (status ≡ Status.expired) ⊎ (status ≡ Status.cancelled)

abbrev pub subscription_on_record : String → List SubscriptionRecord → Option SubscriptionRecord
subscription_on_record i xs = first (filter (λ r. r.subscription_id == i) xs)

Over-stays : (before after : String) → Allowed before after → Over before → ⊥
Over-stays _ _ activated (inl e) = ground (arith, eq_iff Status.pending Status.expired)
Over-stays _ _ activated (inr e) = ground (arith, eq_iff Status.pending Status.cancelled)
Over-stays _ _ (cancelled before not_expired not_cancelled) (inl e) = not_expired e
Over-stays _ _ (cancelled before not_expired not_cancelled) (inr e) = not_cancelled e
Over-stays _ _ expired (inl e) = ground (arith, eq_iff Status.active Status.expired)
Over-stays _ _ expired (inr e) = ground (arith, eq_iff Status.active Status.cancelled)

-- A subscription that is over stays as it is on record, under any writes of the operations.
Moves-keep :
    (i : String) (xs ys : List SubscriptionRecord) (x : SubscriptionRecord)
    → Over x.status
    → Moves xs ys
    → subscription_on_record i xs ≡ some x
    → subscription_on_record i ys ≡ some x
Moves-keep i [] [] x over m h = h
Moves-keep i [] (z ∷ zs) x over m h = absurd m
Moves-keep i (y ∷ ys) [] x over m h = absurd m
Moves-keep i (y ∷ ys) (z ∷ zs) x over (inl same, ms) h =
    ground (arith, same, Moves-keep i ys zs x over ms)
Moves-keep i (y ∷ ys) (z ∷ zs) x over (inr (key, allowed), ms) h =
    elim (Bool-cases (y.subscription_id == i)) [
      | inl found ↦
          let same : y ≡ x = ground arith in
          absurd (Over-stays y.status z.status allowed (subst (λ r. Over r.status) (sym same) over))
      | inr other ↦ ground (arith, key, Moves-keep i ys zs x over ms)
    ]

first-append :
    (i : String) (xs : List SubscriptionRecord) (y x : SubscriptionRecord)
    → subscription_on_record i xs ≡ some x
    → subscription_on_record i (xs ++ y ∷ []) ≡ some x
first-append i [] y x h = absurd (cc)
first-append i (z ∷ zs) y x h = ground (arith, first-append i zs y x)

Step-keep :
    (i : String) (xs ys : List SubscriptionRecord) (x : SubscriptionRecord)
    → Over x.status
    → Step xs ys
    → subscription_on_record i xs ≡ some x
    → subscription_on_record i ys ≡ some x
Step-keep i _ _ x over (moved xs ys m) h = Moves-keep i xs ys x over m h
Step-keep i _ _ x over (created xs y p) h = first-append i xs y x h

pub Steps-keep :
    (i : String) (xs ys : List SubscriptionRecord) (x : SubscriptionRecord)
    → Over x.status
    → Steps xs ys
    → subscription_on_record i xs ≡ some x
    → subscription_on_record i ys ≡ some x
Steps-keep i _ _ x over (done xs) h = h
Steps-keep i _ _ x over (step xs ys zs s ss) h =
    Steps-keep i ys zs x over ss (Step-keep i xs ys x over s h)

-- A write to one document, if its status may change so.
pub write-Moves :
    (id : String) (f : SubscriptionRecord → SubscriptionRecord) (xs : List SubscriptionRecord)
    → ((r : SubscriptionRecord) → (f r).subscription_id ≡ r.subscription_id)
    → All (λ r. (r.doc_id == id) ≡ true → Allowed r.status (f r).status) xs
    → Moves xs (map (write_at subscription_document id f) xs)
write-Moves id f [] keep h = tt
write-Moves id f (x ∷ xs) keep h = (
  elim (Bool-cases (x.doc_id == id)) [
    | inl hit ↦ rw hit (inr (keep x, h.0 hit))
    | inr other ↦ rw other (inl refl)
  ],
  write-Moves id f xs keep h.1,
)
