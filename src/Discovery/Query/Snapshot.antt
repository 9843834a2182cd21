-- ===== src/Discovery/Query/Snapshot.antt =====
-- `FindForSnapshot` of pkg/discovery/query.go.
pub mod Tiers
use package.shinzo_scheduler_service.Base.{
  ℕ, String, Bool, true, false, ◌&&◌, ◌||◌, not, none, some, Option, List, [], ◌∷◌, ◌++◌, map,
  length, take, filter, Result, ok, err, ltb, leb, ◌==◌, if◌then◌else◌,
}
use package.shinzo_scheduler_service.Base.Int.{ℤ, pos, ◌-ℤ◌, leb_ℤ, ltb_ℤ, wrap64, pos_part}
use package.shinzo_scheduler_service.Base.Time.{Runtime, since, after}
use package.shinzo_scheduler_service.Base.Float.{Float64, ◌*F◌, ◌<F◌, ne_F, zero_F}
use package.shinzo_scheduler_service.Store.Records.{
  IndexerRecord, MatchHistoryRecord, Pricing, HostBudget, SnapshotRange,
}
use package.shinzo_scheduler_service.Store.Db.{Db}
use package.shinzo_scheduler_service.Store.SubType
use package.shinzo_scheduler_service.Store.IndexerStore
use package.shinzo_scheduler_service.Store.MatchStore
use package.shinzo_scheduler_service.Discovery.Pricing.{
  clearing_price, price_overlaps, ask_for_type, bid_for_type, diversity_weight,
}
use package.shinzo_scheduler_service.Discovery.Query.{
  TipQuery, SnapshotQuery, IndexerMatch, Discoverer, IndexerCandidate, limited, to_match, is_stale,
  load_diversity_map, apply_diversity, overlapping_ranges, parse_pricing, price_of,
}

module _ {F D M : Type 0} ⦃fl : Float64 F⦄ (rt : Runtime) (d : Discoverer F D M) where
  -- The price, the score and the ranges of an indexer that `FindForSnapshot` takes.
  unfoldable pub snapshot_match :
      SnapshotQuery F → Option (List (String × ℤ)) → ℕ → ℤ → IndexerRecord F → IndexerMatch F
  snapshot_match q diversity pool_size now idx =
      let pricing = parse_pricing rt d idx.pricing in
      let overlapping = overlapping_ranges rt d idx.snapshot_ranges q.block_from q.block_to in
      record (to_match idx) {
        pricing = pricing;
        clearing_price = price_of rt d q.host_budget pricing SubType.snapshot idx.reliability_score;
        reliability_score =
            apply_diversity rt d idx.peer_id idx.reliability_score diversity pool_size now;
        snapshots = overlapping;
        snapshot_creation_required = leb (length overlapping) 0;
      }

  unfoldable pub snapshot_candidate : SnapshotQuery F → ℤ → IndexerRecord F → Bool
  snapshot_candidate q now idx =
      not (is_stale rt d idx now)
      && price_overlaps (parse_pricing rt d idx.pricing) q.host_budget SubType.snapshot

  -- The loop, which fills two lists: those with snapshots in the range, and those without.
  unfoldable pub snapshot_tiers :
      SnapshotQuery F
      → Option (List (String × ℤ))
      → ℕ
      → ℤ
      → List (IndexerRecord F)
      → List (IndexerMatch F) × List (IndexerMatch F)
  snapshot_tiers q diversity pool_size now [] = ([], [])
  snapshot_tiers q diversity pool_size now (idx ∷ idxs) =
      let (with_snapshot, without_snapshot) = snapshot_tiers q diversity pool_size now idxs in
      let m = snapshot_match q diversity pool_size now idx in
      if not (snapshot_candidate q now idx)
      then (with_snapshot, without_snapshot)
      else if m.snapshot_creation_required
      then (with_snapshot, m ∷ without_snapshot)
      else (m ∷ with_snapshot, without_snapshot)

  -- The order within a tier.
  abbrev pub score_before : IndexerMatch F → IndexerMatch F → Bool
  score_before a b = b.reliability_score <F a.reliability_score

  unfoldable pub find_for_snapshot : SnapshotQuery F → ℤ → D → M → Result (List (IndexerMatch F))
  find_for_snapshot q now i m = elim (IndexerStore.list_active d.indexer_st q.chain q.network i) [
    | err e ↦ err e
    | ok indexers ↦
        let diversity = load_diversity_map rt d q.host_id m in
        let (with_snapshot, without_snapshot) =
          snapshot_tiers q diversity (length indexers) now indexers in
        ok (
          limited q.limit
            (d.sort score_before with_snapshot ++ d.sort score_before without_snapshot))
  ]
