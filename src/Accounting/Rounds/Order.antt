-- ===== src/Accounting/Rounds/Order.antt =====
-- Which comparisons a round makes, and in which order (pkg/accounting/manager.go).
use package.shinzo_scheduler_service.Base.{
  ◌≡◌, refl, ◌∙◌, ap, Bool, true, false, ◌||◌, ◌&&◌, List, [], ◌∷◌, arith, eq_iff, String, ◌==◌,
  ◌⊎◌, inl, inr, sym, filter, err, Bool-cases, Result-cases,
}
use package.shinzo_scheduler_service.Base.Int.{ℤ, eqb_ℤ, ltb_ℤ}
use package.shinzo_scheduler_service.Base.Order.{str_lt}
use package.shinzo_scheduler_service.Base.Time.{Runtime}
use package.shinzo_scheduler_service.Base.Float.{Float64}
use package.shinzo_scheduler_service.Store.Db.{LawfulDb}
use package.shinzo_scheduler_service.Store.Documents.{claim_document}
use package.shinzo_scheduler_service.Store.Status
use package.shinzo_scheduler_service.Store.ClaimStore
use package.shinzo_scheduler_service.Store.ClaimStore.Answers.{list_pending-ok}
use package.shinzo_scheduler_service.Accounting.Manager.{Manager, State}
use package.shinzo_scheduler_service.Accounting.Compare.{compare}
use package.shinzo_scheduler_service.Store.Records.{DeliveryClaimRecord}
use package.shinzo_scheduler_service.Accounting.Rounds.{
  Key, key_eq, key_lt, has_key, to_compare, compare_all, escalate_expired_under_reports,
  run_comparisons,
}
use package.shinzo_scheduler_service.Accounting.Rounds.Sorting.{
  Ascending, has_claim, to_compare_lem,
}

-- A session and block, by name, in a list of keys and among the claims.
abbrev pub is_compared : String → ℤ → List Key → Bool
is_compared session block [] = false
is_compared session block (k ∷ ks) =
    (session == k.session && eqb_ℤ block k.block) || is_compared session block ks

abbrev pub is_claimed : String → ℤ → List DeliveryClaimRecord → Bool
is_claimed session block [] = false
is_claimed session block (c ∷ cs) =
    (session == c.session_id && eqb_ℤ block c.block_number) || is_claimed session block cs

-- The session grows, or it stays and the block grows.
abbrev pub Growing : List Key → Type 0
Growing [] = Unit
Growing (k ∷ []) = Unit
Growing (k ∷ j ∷ ks) =
    ((str_lt k.session j.session ≡ true)
      ⊎ ((k.session ≡ j.session) × (ltb_ℤ k.block j.block ≡ true)))
    × Growing (j ∷ ks)

key_lt_cases :
    (k j : Key)
    → key_lt k j ≡ true
    → (str_lt k.session j.session ≡ true)
      ⊎ ((k.session ≡ j.session) × (ltb_ℤ k.block j.block ≡ true))
unfolding key_lt
key_lt_cases k j h = elim (Bool-cases (k.session == j.session)) [
  | inl e ↦ inr ((eq_iff k.session j.session).0 e, ground arith)
  | inr e ↦ inl (ground arith)
]

Ascending-Growing : (ks : List Key) → Ascending ks → Growing ks
Ascending-Growing [] a = tt
Ascending-Growing (k ∷ []) a = tt
Ascending-Growing (k ∷ j ∷ ks) a = (key_lt_cases k j a.0, Ascending-Growing (j ∷ ks) a.1)

has_key-is_compared : (k : Key) (ks : List Key) → has_key k ks ≡ is_compared k.session k.block ks
unfolding key_eq
has_key-is_compared k [] = refl
has_key-is_compared k (j ∷ ks) = ground (arith, has_key-is_compared k ks)

has_claim-is_claimed :
    (k : Key) (cs : List DeliveryClaimRecord) → has_claim k cs ≡ is_claimed k.session k.block cs
unfolding key_eq
has_claim-is_claimed k [] = refl
has_claim-is_claimed k (c ∷ cs) = ground (arith, has_claim-is_claimed k cs)

module _ {F C A L P E : Type 0} ⦃fl : Float64 F⦄ (rt : Runtime) (m : Manager F C A L P E) where
  -- One comparison after the other.
  abbrev pub compared_each : List Key → (Key → String) → ℤ → State C A L P E → State C A L P E
  compared_each [] uuid now s = s
  compared_each (k ∷ ks) uuid now s =
      compared_each ks uuid now (compare rt m k.session k.block (uuid k) now s).1

  compare_all-each :
      (ks : List Key) (uuid : Key → String) (now : ℤ) (s : State C A L P E)
      → compare_all rt m ks uuid now s ≡ compared_each ks uuid now s
  unfolding compare_all
  compare_all-each [] uuid now s = refl
  compare_all-each (k ∷ ks) uuid now s = compare_all-each ks uuid now _

  module _ (docs : C → List DeliveryClaimRecord)
      (lawful : LawfulDb claim_document m.claim_st docs) where
    -- A round that reads the pending claims compares the session and block of every pending claim
    -- on record, and of no other, each once, in ascending order of the session and then of the
    -- block, and then escalates the expired under-reports. A round that cannot read them changes
    -- nothing.
    pub run_comparisons-Growing :
        (order : List String → List String) (uuid : Key → String) (now : ℤ) (s : State C A L P E)
        → ((e : String) × (ClaimStore.list_pending m.claim_st s.claims ≡ err e)
            × (run_comparisons rt m order uuid now s ≡ s))
          ⊎ ((ks : List Key) × Growing ks
              × ((session : String) (block : ℤ)
                  → is_compared session block ks
                    ≡ is_claimed session block
                        (filter (λ c. c.status == Status.pending) (docs s.claims)))
              × (run_comparisons rt m order uuid now s
                  ≡ escalate_expired_under_reports rt m order now (compared_each ks uuid now s)))
    unfolding run_comparisons
    run_comparisons-Growing order uuid now s =
        elim (Result-cases (ClaimStore.list_pending m.claim_st s.claims)) [
          | inr (e, q) ↦ inl (e, q, ground arith)
          | inl (pending, q) ↦
              let (ascending, holds) = to_compare_lem pending in
              let on_file = list_pending-ok m.claim_st docs lawful s.claims pending q in
              inr (
                to_compare pending,
                Ascending-Growing _ ascending,
                λ session block.
                    sym (has_key-is_compared (record { session = session; block = block }) _)
                    ∙ holds (record { session = session; block = block })
                    ∙ has_claim-is_claimed (record { session = session; block = block }) pending
                    ∙ ap (is_claimed session block) on_file,
                ground (arith, compare_all-each (to_compare pending) uuid now s),
              )
        ]
