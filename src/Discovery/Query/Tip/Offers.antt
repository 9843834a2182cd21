-- ===== src/Discovery/Query/Tip/Offers.antt =====
-- What `FindForTip` (pkg/discovery/query.go) offers.
use package.shinzo_scheduler_service.Base.{
  ℕ, zero, suc, ◌≤◌, String, ◌≡◌, refl, sym, subst, Bool, true, false, ◌&&◌, not, ◌⊎◌, Option, List,
  [], ◌∷◌, map, length, take, filter, ok, arith, All, ◌==◌, if◌then◌else◌, Result-cases, Bool-cases,
  inl, inr, length-take-le,
}
use package.shinzo_scheduler_service.Base.Int.{ℤ, pos, ltb_ℤ, ◌<ℤ◌, pos_part}
use package.shinzo_scheduler_service.Base.Time.{Runtime}
use package.shinzo_scheduler_service.Base.Float.{Float64, ◌<F◌, zero_F}
use package.shinzo_scheduler_service.Store.Records.{IndexerRecord}
use package.shinzo_scheduler_service.Store.Db.{LawfulDb}
use package.shinzo_scheduler_service.Store.Documents.{indexer_document}
use package.shinzo_scheduler_service.Store.Status
use package.shinzo_scheduler_service.Store.SubType
use package.shinzo_scheduler_service.Store.IndexerStore
use package.shinzo_scheduler_service.Store.IndexerStore.Answers.{list_active-ok}
use package.shinzo_scheduler_service.Discovery.Pricing.{price_overlaps}
use package.shinzo_scheduler_service.Discovery.Query.{
  TipQuery, IndexerMatch, Discoverer, IndexerCandidate, limited, to_match, is_stale,
  load_diversity_map, parse_pricing, price_of,
}
use package.shinzo_scheduler_service.Discovery.Query.Tip.{
  tip_candidate, candidates_of, reference_tip, lags, tip_match, tip_before, tip_filtered,
  find_for_tip,
}

-- What is documented of `sort.Slice`: the same elements in another order.
pub record IsSort {A : Type 0} (sort : (A → A → Bool) → List A → List A) : Type 1 where
  pub sort_All :
      (before : A → A → Bool) (P : A → Type 0) (xs : List A) → All P xs → All P (sort before xs)
  pub sort_length : (before : A → A → Bool) (xs : List A) → length (sort before xs) ≡ length xs

abbrev pub Among : {A : Type 0} → A → List A → Type 0
Among x [] = ⊥
Among x (y ∷ ys) = (x ≡ y) ⊎ Among x ys

All-take : {A : Type 0} (P : A → Type 0) (n : ℕ) (xs : List A) → All P xs → All P (take n xs)
All-take P zero xs h = tt
All-take P (suc n) [] h = tt
All-take P (suc n) (x ∷ xs) h = (h.0, All-take P n xs h.1)

pub All-limited :
    {A : Type 0} (P : A → Type 0) (limit : ℤ) (xs : List A) → All P xs → All P (limited limit xs)
All-limited P limit xs h =
    elim (Bool-cases (ltb_ℤ (pos 0) limit && ltb_ℤ limit (pos (length xs)))) [
      | inl cut ↦ rw cut (All-take P (pos_part limit) xs h)
      | inr whole ↦ rw whole h
    ]

pub length-limited-le :
    {A : Type 0} (limit : ℤ) (xs : List A)
    → pos 0 <ℤ limit
    → length (limited limit xs) ≤ pos_part limit
length-limited-le limit xs positive = ground (arith, length-take-le (pos_part limit) xs)

All-map :
    {A B : Type 0} (P : A → Type 0) (Q : B → Type 0) (f : A → B) (xs : List A)
    → ((x : A) → P x → Q (f x))
    → All P xs
    → All Q (map f xs)
All-map P Q f [] h p = tt
All-map P Q f (x ∷ xs) h p = (h x p.0, All-map P Q f xs h p.1)

All-filter_and :
    {A : Type 0} (P : A → Type 0) (p : A → Bool) (xs : List A)
    → All P xs
    → All (λ x. P x × (p x ≡ true)) (filter p xs)
All-filter_and P p [] h = tt
All-filter_and P p (x ∷ xs) h = elim (Bool-cases (p x)) [
  | inl pass ↦
      subst (λ b. All (λ y. P y × (p y ≡ true)) (if b then x ∷ filter p xs else filter p xs))
        (sym pass) ((h.0, pass), All-filter_and P p xs h.1)
  | inr fail ↦
      subst (λ b. All (λ y. P y × (p y ≡ true)) (if b then x ∷ filter p xs else filter p xs))
        (sym fail) (All-filter_and P p xs h.1)
]

module _ {F D M : Type 0} ⦃fl : Float64 F⦄ (rt : Runtime) (d : Discoverer F D M) where
  abbrev IsCandidate : TipQuery F → ℤ → List (IndexerRecord F) → IndexerCandidate F → Type 0
  IsCandidate q now idxs c =
      Among c.rec idxs
      × (tip_candidate rt d q now c.rec ≡ true)
      × (c.pricing ≡ parse_pricing rt d c.rec.pricing)

  candidates_of-IsCandidate :
      (q : TipQuery F) (now : ℤ) (all_idxs idxs : List (IndexerRecord F))
      → ((x : IndexerRecord F) → Among x idxs → Among x all_idxs)
      → All (IsCandidate q now all_idxs) (candidates_of rt d q now idxs)
  unfolding candidates_of
  candidates_of-IsCandidate q now all_idxs [] sub = tt
  candidates_of-IsCandidate q now all_idxs (idx ∷ idxs) sub =
      elim (Bool-cases (tip_candidate rt d q now idx)) [
        | inl pass ↦
            subst
              (λ b. All (IsCandidate q now all_idxs) (
                if b
                then record { rec = idx; pricing = parse_pricing rt d idx.pricing }
                  ∷ candidates_of rt d q now idxs
                else candidates_of rt d q now idxs))
              (sym pass)
              (
                (sub idx (inl refl), pass, refl),
                candidates_of-IsCandidate q now all_idxs idxs (λ x h. sub x (inr h)),
              )
        | inr fail ↦
            subst
              (λ b. All (IsCandidate q now all_idxs) (
                if b
                then record { rec = idx; pricing = parse_pricing rt d idx.pricing }
                  ∷ candidates_of rt d q now idxs
                else candidates_of rt d q now idxs))
              (sym fail) (candidates_of-IsCandidate q now all_idxs idxs (λ x h. sub x (inr h)))
      ]

  -- An offer for the tip: an indexer among these that is fresh, reliable enough, within the budget,
  -- and does not lag too far behind the tip; the match carries its name, its prices and the price
  -- that clears.
  abbrev pub IsOffer : TipQuery F → ℤ → ℤ → List (IndexerRecord F) → IndexerMatch F → Type 0
  IsOffer q now tip idxs m =
      (c : IndexerCandidate F) × Among c.rec idxs
      × (is_stale rt d c.rec now ≡ false)
      × ((zero_F <F q.min_reliability && c.rec.reliability_score <F q.min_reliability) ≡ false)
      × (price_overlaps m.pricing q.host_budget SubType.tip ≡ true)
      × (lags rt d tip c ≡ false)
      × (m.peer_id ≡ c.rec.peer_id)
      × (m.pricing ≡ parse_pricing rt d c.rec.pricing)
      × (m.clearing_price
          ≡ price_of rt d q.host_budget m.pricing SubType.tip c.rec.reliability_score)

  tip_match-IsOffer :
      (q : TipQuery F) (diversity : Option (List (String × ℤ))) (pool_size : ℕ) (now tip : ℤ)
      (idxs : List (IndexerRecord F)) (c : IndexerCandidate F)
      → IsCandidate q now idxs c × (not (lags rt d tip c) ≡ true)
      → IsOffer q now tip idxs (tip_match rt d q diversity pool_size now c)
  unfolding tip_match to_match tip_candidate
  tip_match-IsOffer q diversity pool_size now tip idxs c ((among, pass, priced), close) =
      (c, among, ground arith, ground arith, ground arith, ground arith, refl, priced, refl)

  -- Every indexer that is offered is active on record for the chain and network, and meets the query.
  -- A limit that is set bounds the number of the offers.
  pub find_for_tip-IsOffer :
      (docs : D → List (IndexerRecord F))
      → LawfulDb indexer_document d.indexer_st docs
      → IsSort d.sort
      → (q : TipQuery F) (now : ℤ) (i : D) (m : M) (matches : List (IndexerMatch F))
      → find_for_tip rt d q now i m ≡ ok matches
      → let idxs =
          filter
            (λ r. r.chain == q.chain && (r.network == q.network && r.status == Status.active))
            (docs i) in
        All
          (IsOffer q now (reference_tip rt d (pos 0) (candidates_of rt d q now idxs)) idxs)
          matches
        × (pos 0 <ℤ q.limit → length matches ≤ pos_part q.limit)
  unfolding find_for_tip tip_filtered
  find_for_tip-IsOffer docs lawful sorting q now i m matches h =
      elim (Result-cases (IndexerStore.list_active d.indexer_st q.chain q.network i)) [
        | inr (e, q') ↦ absurd (ground arith)
        | inl (idxs, q') ↦
            let same = list_active-ok d.indexer_st docs lawful q.chain q.network i idxs q' in
            let tip = reference_tip rt d (pos 0) (candidates_of rt d q now idxs) in
            let filtered = tip_filtered rt d q now idxs in
            let sorted = d.sort (tip_before rt d) (
              map (tip_match rt d q (load_diversity_map rt d q.host_id m) (length filtered) now)
                filtered) in
            let answer : limited q.limit sorted ≡ matches = ground arith in
            let offers : All (IsOffer q now tip idxs) sorted =
              sorting.sort_All (tip_before rt d) _ _ (
                All-map _ _ _ filtered (λ c. tip_match-IsOffer q _ _ now tip idxs c)
                  (All-filter_and _ (λ c. not (lags rt d tip c)) (candidates_of rt d q now idxs)
                    (candidates_of-IsCandidate q now idxs idxs (λ x a. a)))) in
            (
              subst
                  (λ xs.
                    All
                      (IsOffer q now (reference_tip rt d (pos 0) (candidates_of rt d q now xs)) xs)
                      matches)
                  same
                  (subst (All (IsOffer q now tip idxs)) answer
                    (All-limited _ q.limit sorted offers)),
              λ positive.
                  subst (λ xs. length xs ≤ pos_part q.limit) answer
                    (length-limited-le q.limit sorted positive),
            )
      ]
