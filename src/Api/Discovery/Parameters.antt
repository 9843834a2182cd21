-- ===== src/Api/Discovery/Parameters.antt =====
-- The queries that the parameters of a request give (pkg/api/handlers/discovery.go).
use package.shinzo_scheduler_service.Base.{
  ◌≡◌, ◌≢◌, ◌⊎◌, inl, inr, true, false, ◌||◌, List, ok, Result-cases, Bool-cases, ◌==◌, eq_iff,
  arith,
}
use package.shinzo_scheduler_service.Base.Int.{ℤ, pos, ◌≤ℤ◌, ◌<ℤ◌}
use package.shinzo_scheduler_service.Base.Time.{Runtime}
use package.shinzo_scheduler_service.Base.Float.{
  Float64, IsIeee, HasExactUnits, zero_F, one_F, ◌<F◌,
}
use package.shinzo_scheduler_service.Discovery.Query.{
  Discoverer, TipQuery, SnapshotQuery, IndexerMatch,
}
use package.shinzo_scheduler_service.Discovery.Query.Tip.{find_for_tip}
use package.shinzo_scheduler_service.Discovery.Query.Snapshot.{find_for_snapshot}
use package.shinzo_scheduler_service.Api.Reply.{write_json}
use package.shinzo_scheduler_service.Api.Discovery.{
  Strconv, Values, clamp_reliability, clamp_limit, tip_query, indexers, snapshot_query, snapshots,
  match_indexers,
}

module _ {F : Type 0} ⦃fl : Float64 F⦄ where
  -- A query for the tip: for a chain and a network, with a reliability and a limit in range.
  abbrev pub IsTipQuery : TipQuery F → Type 0
  IsTipQuery q =
      (q.chain ≢ "")
      × (q.network ≢ "")
      × (q.min_reliability <F zero_F ≡ false)
      × (one_F <F q.min_reliability ≡ false)
      × (pos 0 ≤ℤ q.limit)

  -- A query for snapshots: of an interval of blocks, neither of which is 0.
  abbrev pub IsSnapshotQuery : SnapshotQuery F → Type 0
  IsSnapshotQuery q =
      (q.chain ≢ "")
      × (q.network ≢ "")
      × (q.block_from ≢ pos 0)
      × (q.block_to ≢ pos 0)
      × (q.block_from <ℤ q.block_to)
      × (pos 0 ≤ℤ q.limit)

module _ {F D M : Type 0} ⦃fl : Float64 F⦄ (ieee : IsIeee fl) (units : HasExactUnits fl)
    (rt : Runtime) (sc : Strconv F) (h : Discoverer F D M) where
  zero-le_one : fl.le (fl.tenths 0) (fl.tenths 10) ≡ true
  zero-le_one = units.tenths_mono 0 10 (omega arith) (omega arith)

  -- Neither below 0 nor above 1; a parameter that reads as NaN stays one.
  clamp_reliability_bounds :
      (x : F)
      → (clamp_reliability rt sc h x <F zero_F ≡ false)
        × (one_F <F clamp_reliability rt sc h x ≡ false)
  unfolding clamp_reliability
  clamp_reliability_bounds x = ground (
    arith,
    ieee.lt_irrefl (fl.tenths 0),
    ieee.lt_irrefl (fl.tenths 10),
    ieee.not-lt_of_le (fl.tenths 0) (fl.tenths 10) zero-le_one,
  )

  clamp_limit-nonneg : (n : ℤ) → pos 0 ≤ℤ clamp_limit rt sc h n
  unfolding clamp_limit
  clamp_limit-nonneg n = ground arith

  indexers-Answered :
      (q : Values) (now : ℤ) (i : D) (m : M) (matches : List (IndexerMatch F))
      → indexers rt sc h q now i m ≡ write_json 200 matches
      → IsTipQuery (tip_query rt sc h q)
        × (find_for_tip rt h (tip_query rt sc h q) now i m ≡ ok matches)
  unfolding indexers tip_query
  indexers-Answered q now i m matches e = elim (Bool-cases (q "chain" == "" || q "network" == "")) [
    | inl missing ↦ absurd (ground arith)
    | inr given ↦ elim (Result-cases (find_for_tip rt h (tip_query rt sc h q) now i m)) [
      | inr (t, r) ↦ absurd (ground arith)
      | inl (found, r) ↦ (
        (
          ground (arith, given, eq_iff (q "chain") ""),
          ground (arith, given, eq_iff (q "network") ""),
          (clamp_reliability_bounds (sc.parse_float (q "min_reliability")).0).0,
          (clamp_reliability_bounds (sc.parse_float (q "min_reliability")).0).1,
          clamp_limit-nonneg (sc.atoi (q "limit")),
        ),
        ground arith,
      )
    ]
  ]

  snapshots-Answered :
      (q : Values) (now : ℤ) (i : D) (m : M) (matches : List (IndexerMatch F))
      → snapshots rt sc h q now i m ≡ write_json 200 matches
      → IsSnapshotQuery (snapshot_query rt sc h q)
        × (find_for_snapshot rt h (snapshot_query rt sc h q) now i m ≡ ok matches)
  unfolding snapshots snapshot_query
  snapshots-Answered q now i m matches e =
      elim (Bool-cases (q "chain" == "" || q "network" == "")) [
        | inl missing ↦ absurd (ground arith)
        | inr given ↦
            elim (Result-cases (find_for_snapshot rt h (snapshot_query rt sc h q) now i m)) [
              | inr (t, r) ↦ absurd (ground arith)
              | inl (found, r) ↦ (
                (
                  ground (arith, given, eq_iff (q "chain") ""),
                  ground (arith, given, eq_iff (q "network") ""),
                  λ z. absurd (ground arith),
                  λ z. absurd (ground arith),
                  ground arith,
                  clamp_limit-nonneg (sc.atoi (q "limit")),
                ),
                ground arith,
              )
            ]
      ]

  -- A request that is answered with offers has put a query in range to the discoverer, for snapshots
  -- where it gives both ends of an interval and else for the tip, and is shown what that finds.
  pub match_indexers-Answered :
      (q : Values) (now : ℤ) (i : D) (m : M) (matches : List (IndexerMatch F))
      → match_indexers rt sc h q now i m ≡ write_json 200 matches
      → ((q "block_from" ≢ "")
          × (q "block_to" ≢ "")
          × IsSnapshotQuery (snapshot_query rt sc h q)
          × (find_for_snapshot rt h (snapshot_query rt sc h q) now i m ≡ ok matches))
        ⊎ (((q "block_from" ≡ "") ⊎ (q "block_to" ≡ ""))
            × IsTipQuery (tip_query rt sc h q)
            × (find_for_tip rt h (tip_query rt sc h q) now i m ≡ ok matches))
  unfolding match_indexers
  match_indexers-Answered q now i m matches e = elim (Bool-cases (q "block_from" == "")) [
    | inl no_from ↦
        let (ranged, found) = indexers-Answered q now i m matches (ground arith) in
        inr (inl ((eq_iff _ _).0 no_from), ranged, found)
    | inr from ↦ elim (Bool-cases (q "block_to" == "")) [
      | inl no_to ↦
          let (ranged, found) = indexers-Answered q now i m matches (ground arith) in
          inr (inr ((eq_iff _ _).0 no_to), ranged, found)
      | inr to ↦
          let (ranged, found) = snapshots-Answered q now i m matches (ground arith) in
          inl (
            ground (arith, from, eq_iff (q "block_from") ""),
            ground (arith, to, eq_iff (q "block_to") ""),
            ranged,
            found,
          )
    ]
  ]
