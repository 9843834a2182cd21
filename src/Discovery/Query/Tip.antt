-- ===== src/Discovery/Query/Tip.antt =====
-- `FindForTip` of pkg/discovery/query.go.
pub mod Offers
use package.shinzo_scheduler_service.Base.{
  ℕ, String, Bool, true, false, ◌&&◌, ◌||◌, not, none, some, Option, List, [], ◌∷◌, ◌++◌, map,
  length, take, filter, Result, ok, err, ltb, leb, ◌==◌, if◌then◌else◌,
}
use package.shinzo_scheduler_service.Base.Int.{ℤ, pos, ◌-ℤ◌, leb_ℤ, ltb_ℤ, wrap64, pos_part}
use package.shinzo_scheduler_service.Base.Time.{Runtime, since, after}
use package.shinzo_scheduler_service.Base.Float.{Float64, ◌*F◌, ◌<F◌, ne_F, zero_F}
use package.shinzo_scheduler_service.Store.Records.{
  IndexerRecord, MatchHistoryRecord, Pricing, HostBudget, SnapshotRange,
}
use package.shinzo_scheduler_service.Store.Db.{Db}
use package.shinzo_scheduler_service.Store.SubType
use package.shinzo_scheduler_service.Store.IndexerStore
use package.shinzo_scheduler_service.Store.MatchStore
use package.shinzo_scheduler_service.Discovery.Pricing.{
  clearing_price, price_overlaps, ask_for_type, bid_for_type, diversity_weight,
}
use package.shinzo_scheduler_service.Discovery.Query.{
  TipQuery, SnapshotQuery, IndexerMatch, Discoverer, IndexerCandidate, limited, to_match, is_stale,
  load_diversity_map, apply_diversity, overlapping_ranges, parse_pricing, price_of,
}

module _ {F D M : Type 0} ⦃fl : Float64 F⦄ (rt : Runtime) (d : Discoverer F D M) where
  -- The guards of the first loop of `FindForTip`.
  unfoldable pub tip_candidate : TipQuery F → ℤ → IndexerRecord F → Bool
  tip_candidate q now idx =
      not (is_stale rt d idx now)
      && (not (zero_F <F q.min_reliability && idx.reliability_score <F q.min_reliability)
          && price_overlaps (parse_pricing rt d idx.pricing) q.host_budget SubType.tip)

  unfoldable pub candidates_of : TipQuery F → ℤ → List (IndexerRecord F) → List (IndexerCandidate F)
  candidates_of q now [] = []
  candidates_of q now (idx ∷ idxs) =
      if tip_candidate q now idx
      then record { rec = idx; pricing = parse_pricing rt d idx.pricing } ∷ candidates_of q now idxs
      else candidates_of q now idxs

  -- `referenceTip` after the first loop, from its value before.
  unfoldable pub reference_tip : ℤ → List (IndexerCandidate F) → ℤ
  reference_tip tip [] = tip
  reference_tip tip (c ∷ cs) =
      reference_tip (if ltb_ℤ tip c.rec.current_tip then c.rec.current_tip else tip) cs

  unfoldable pub lags : ℤ → IndexerCandidate F → Bool
  lags tip c =
      ltb_ℤ (pos 0) d.cfg.tip_exclusion_threshold
      && ltb_ℤ d.cfg.tip_exclusion_threshold (wrap64 (tip -ℤ c.rec.current_tip))

  unfoldable pub tip_match :
      TipQuery F → Option (List (String × ℤ)) → ℕ → ℤ → IndexerCandidate F → IndexerMatch F
  tip_match q diversity pool_size now c = record (to_match c.rec) {
    pricing = c.pricing;
    clearing_price = price_of rt d q.host_budget c.pricing SubType.tip c.rec.reliability_score;
    reliability_score =
        apply_diversity rt d c.rec.peer_id c.rec.reliability_score diversity pool_size now;
  }

  -- The order of `FindForTip`: by score, then by tip, the greater first.
  abbrev pub tip_before : IndexerMatch F → IndexerMatch F → Bool
  tip_before a b =
      if ne_F a.reliability_score b.reliability_score
      then b.reliability_score <F a.reliability_score
      else ltb_ℤ b.current_tip a.current_tip

  -- The candidates that the second loop keeps.
  unfoldable pub tip_filtered : TipQuery F → ℤ → List (IndexerRecord F) → List (IndexerCandidate F)
  tip_filtered q now indexers =
      let candidates = candidates_of q now indexers in
      filter (λ c. not (lags (reference_tip (pos 0) candidates) c)) candidates

  unfoldable pub find_for_tip : TipQuery F → ℤ → D → M → Result (List (IndexerMatch F))
  find_for_tip q now i m = elim (IndexerStore.list_active d.indexer_st q.chain q.network i) [
    | err e ↦ err e
    | ok indexers ↦
        let filtered = tip_filtered q now indexers in
        let diversity = load_diversity_map rt d q.host_id m in
        ok (
          limited q.limit
            (d.sort tip_before (map (tip_match q diversity (length filtered) now) filtered)))
  ]
