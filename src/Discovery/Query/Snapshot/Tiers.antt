-- ===== src/Discovery/Query/Snapshot/Tiers.antt =====
-- The two tiers of `FindForSnapshot` (pkg/discovery/query.go).
use package.shinzo_scheduler_service.Base.{
  ℕ, zero, suc, String, ◌≡◌, refl, subst, Bool, true, false, ◌&&◌, none, some, Option, List, [],
  ◌∷◌, ◌++◌, length, take, filter, ok, arith, All, leb, if◌then◌else◌, Result-cases, Bool-cases,
  inl, inr,
}
use package.shinzo_scheduler_service.Base.Int.{ℤ, pos, leb_ℤ, ltb_ℤ, pos_part}
use package.shinzo_scheduler_service.Base.Time.{Runtime}
use package.shinzo_scheduler_service.Base.Float.{Float64}
use package.shinzo_scheduler_service.Base.Unique.{All-imp}
use package.shinzo_scheduler_service.Store.Records.{IndexerRecord}
use package.shinzo_scheduler_service.Store.IndexerStore
use package.shinzo_scheduler_service.Discovery.Query.{
  SnapshotQuery, IndexerMatch, Discoverer, limited, to_match, overlapping_ranges,
  load_diversity_map,
}
use package.shinzo_scheduler_service.Discovery.Query.Tip.Offers.{IsSort, All-limited}
use package.shinzo_scheduler_service.Discovery.Query.Snapshot.{
  snapshot_match, snapshot_tiers, score_before, find_for_snapshot,
}

module _ {F : Type 0} where
  -- A match of the first tier, and one of the second.
  abbrev pub Holds : IndexerMatch F → Type 0
  Holds m = m.snapshot_creation_required ≡ false

  abbrev pub Falls : IndexerMatch F → Type 0
  Falls m = m.snapshot_creation_required ≡ true

  -- Behind a match without snapshots there is none with any.
  abbrev pub HoldersFirst : List (IndexerMatch F) → Type 0
  HoldersFirst [] = Unit
  HoldersFirst (m ∷ ms) = (Falls m → All Falls ms) × HoldersFirst ms

  -- Its snapshots meet the range, and it asks for a new one exactly if it has none.
  abbrev pub MeetsRange : SnapshotQuery F → IndexerMatch F → Type 0
  MeetsRange q m =
      All (λ r. (leb_ℤ r.start q.block_to && leb_ℤ q.block_from r.end) ≡ true) m.snapshots
      × (m.snapshot_creation_required ≡ leb (length m.snapshots) 0)

  Falls-HoldersFirst : (ms : List (IndexerMatch F)) → All Falls ms → HoldersFirst ms
  Falls-HoldersFirst [] h = tt
  Falls-HoldersFirst (m ∷ ms) h = (λ f. h.1, Falls-HoldersFirst ms h.1)

  append-HoldersFirst :
      (hs fs : List (IndexerMatch F)) → All Holds hs → All Falls fs → HoldersFirst (hs ++ fs)
  append-HoldersFirst [] fs h f = Falls-HoldersFirst fs f
  append-HoldersFirst (m ∷ hs) fs h f =
      (λ falls. absurd (ground (arith, h.0)), append-HoldersFirst hs fs h.1 f)

  take-Falls : (n : ℕ) (ms : List (IndexerMatch F)) → All Falls ms → All Falls (take n ms)
  take-Falls zero ms h = tt
  take-Falls (suc n) [] h = tt
  take-Falls (suc n) (m ∷ ms) h = (h.0, take-Falls n ms h.1)

  take-HoldersFirst :
      (n : ℕ) (ms : List (IndexerMatch F)) → HoldersFirst ms → HoldersFirst (take n ms)
  take-HoldersFirst zero ms h = tt
  take-HoldersFirst (suc n) [] h = tt
  take-HoldersFirst (suc n) (m ∷ ms) h = (λ f. take-Falls n ms (h.0 f), take-HoldersFirst n ms h.1)

  limited-HoldersFirst :
      (limit : ℤ) (ms : List (IndexerMatch F)) → HoldersFirst ms → HoldersFirst (limited limit ms)
  limited-HoldersFirst limit ms h =
      elim (Bool-cases (ltb_ℤ (pos 0) limit && ltb_ℤ limit (pos (length ms)))) [
        | inl cut ↦ rw cut (take-HoldersFirst (pos_part limit) ms h)
        | inr whole ↦ rw whole h
      ]

  All-append :
      (P : IndexerMatch F → Type 0) (xs ys : List (IndexerMatch F))
      → All P xs
      → All P ys
      → All P (xs ++ ys)
  All-append P [] ys h k = k
  All-append P (x ∷ xs) ys h k = (h.0, All-append P xs ys h.1 k)

filter-All : {A : Type 0} (p : A → Bool) (xs : List A) → All (λ x. p x ≡ true) (filter p xs)
filter-All p [] = tt
filter-All p (x ∷ xs) = ground (arith, filter-All p xs)

All-choose :
    {A : Type 0} (P : A → Type 0) (b : Bool) (xs ys : List A)
    → All P xs
    → All P ys
    → All P (if b then xs else ys)
All-choose P true xs ys h k = h
All-choose P false xs ys h k = k

decoded-All :
    {A : Type 0} (p : A → Bool) (decoded : Option (List A))
    → All (λ x. p x ≡ true) (elim decoded [ none ↦ [] | some xs ↦ filter p xs ])
decoded-All p none = tt
decoded-All p (some xs) = filter-All p xs

module _ {F D M : Type 0} ⦃fl : Float64 F⦄ (rt : Runtime) (d : Discoverer F D M) where
  overlapping_ranges-All :
      (json : String) (from to : ℤ)
      → All
          (λ r. (leb_ℤ r.start to && leb_ℤ from r.end) ≡ true)
          (overlapping_ranges rt d json from to)
  unfolding overlapping_ranges
  overlapping_ranges-All json from to =
      All-choose _ _ [] _ tt
        (decoded-All (λ r. leb_ℤ r.start to && leb_ℤ from r.end) (d.decode_ranges json))

  snapshot_match-MeetsRange :
      (q : SnapshotQuery F) (diversity : Option (List (String × ℤ))) (n : ℕ) (now : ℤ)
      (idx : IndexerRecord F)
      → MeetsRange q (snapshot_match rt d q diversity n now idx)
  unfolding snapshot_match to_match
  snapshot_match-MeetsRange q diversity n now idx =
      (overlapping_ranges-All idx.snapshot_ranges q.block_from q.block_to, refl)

  -- The tiers as the loop fills them.
  snapshot_tiers_lem :
      (q : SnapshotQuery F) (diversity : Option (List (String × ℤ))) (n : ℕ) (now : ℤ)
      (idxs : List (IndexerRecord F))
      → let (hs, fs) = snapshot_tiers rt d q diversity n now idxs in
        All (λ m. Holds m × MeetsRange q m) hs × All (λ m. Falls m × MeetsRange q m) fs
  unfolding snapshot_tiers
  snapshot_tiers_lem q diversity n now [] = (tt, tt)
  snapshot_tiers_lem q diversity n now (idx ∷ idxs) = ground (
    arith,
    snapshot_tiers_lem q diversity n now idxs,
    snapshot_match-MeetsRange q diversity n now idx,
  )

  -- Indexers that hold snapshots of the range come first, also after the cut at the limit; whoever
  -- holds none is marked so; and every snapshot that is listed meets the range.
  pub find_for_snapshot-HoldersFirst :
      IsSort d.sort
      → (q : SnapshotQuery F) (now : ℤ) (i : D) (m : M) (matches : List (IndexerMatch F))
      → find_for_snapshot rt d q now i m ≡ ok matches
      → HoldersFirst matches × All (MeetsRange q) matches
  unfolding find_for_snapshot
  find_for_snapshot-HoldersFirst sorting q now i m matches h =
      elim (Result-cases (IndexerStore.list_active d.indexer_st q.chain q.network i)) [
        | inr (e, q') ↦ absurd (ground arith)
        | inl (idxs, q') ↦
            let diversity = load_diversity_map rt d q.host_id m in
            let tiers = snapshot_tiers rt d q diversity (length idxs) now idxs in
            let (holders, fallbacks) = snapshot_tiers_lem q diversity (length idxs) now idxs in
            let hs = sorting.sort_All (score_before rt d) _ tiers.0 holders in
            let fs = sorting.sort_All (score_before rt d) _ tiers.1 fallbacks in
            let sorted = d.sort (score_before rt d) tiers.0 ++ d.sort (score_before rt d) tiers.1 in
            let answer : limited q.limit sorted ≡ matches = ground arith in
            subst (λ ms. HoldersFirst ms × All (MeetsRange q) ms) answer
              (
                limited-HoldersFirst q.limit sorted (
                    append-HoldersFirst _ _ (All-imp _ _ _ (λ x p. p.0) hs)
                      (All-imp _ _ _ (λ x p. p.0) fs)),
                All-limited (MeetsRange q) q.limit sorted (
                    All-append (MeetsRange q) _ _ (All-imp _ _ _ (λ x p. p.1) hs)
                      (All-imp _ _ _ (λ x p. p.1) fs)),
              )
      ]
