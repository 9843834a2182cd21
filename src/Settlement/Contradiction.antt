-- ===== src/Settlement/Contradiction.antt =====
-- pkg/settlement/contradiction.go: indexers are slashed for their unresolved contradictions.
pub mod Threshold
pub mod Indexers
pub mod Slashes
pub mod Loop
use Prim.Native.String.{◌++◌}
use package.shinzo_scheduler_service.Base.{
  ℕ, String, Bool, true, false, none, some, Option, List, [], ◌∷◌, map, length, filter, elem,
  Result, ok, err, Action, ◌==◌, if◌then◌else◌, ltb,
}
use package.shinzo_scheduler_service.Base.Int.{ℤ, pos, leb_ℤ, ltb_ℤ}
use package.shinzo_scheduler_service.Base.Time.{Runtime}
use package.shinzo_scheduler_service.Store.Records.{ContradictionRecord}
use package.shinzo_scheduler_service.Store.Db.{Db}
use package.shinzo_scheduler_service.Store.ContradictionStore
use package.shinzo_scheduler_service.Settlement.Hub.{HubBroadcaster, MsgSlash, SettlementConfig}

pub record ContradictionAggregator (F D H : Type 0) : Type 0 where
  pub contradiction_st : Db D ContradictionRecord
  pub hub : HubBroadcaster F H
  pub cfg : SettlementConfig F

-- The collection of contradictions, and the hub.
pub record Evidence (D H : Type 0) : Type 0 where
  pub contradictions : D
  pub hub : H

-- `strings.Join(ids, ",")`
unfoldable pub join_comma : List String → String
join_comma [] = ""
join_comma (x ∷ []) = x
join_comma (x ∷ y ∷ ys) = x ++ "," ++ join_comma (y ∷ ys)

-- The keys of the map `grouped`, each once.
unfoldable pub indexers_of : List String → List ContradictionRecord → List String
indexers_of seen [] = []
indexers_of seen (r ∷ rs) =
    if elem r.indexer_id seen
    then indexers_of seen rs
    else r.indexer_id ∷ indexers_of (r.indexer_id ∷ seen) rs

-- `grouped[indexerID]`
abbrev pub records_of : String → List ContradictionRecord → List ContradictionRecord
records_of indexer_id rs = filter (λ r. r.indexer_id == indexer_id) rs

module _ {F D H : Type 0} (rt : Runtime) (ca : ContradictionAggregator F D H) where
  -- The configured threshold, or 3 if that is not positive.
  unfoldable pub threshold : ℤ
  threshold =
      if leb_ℤ ca.cfg.contradiction_threshold (pos 0) then pos 3 else ca.cfg.contradiction_threshold

  abbrev pub slash_of : String → List ContradictionRecord → MsgSlash
  slash_of indexer_id recs = record {
    indexer_id = indexer_id;
    evidence_cid = join_comma (map (λ r. r.evidence_id) recs);
    reason = rt.show_count (length recs) ++ " unresolved snapshot contradictions";
  }

  -- Errors are logged and dropped.
  unfoldable pub resolve_all : List ContradictionRecord → Evidence D H → Evidence D H
  resolve_all [] s = s
  resolve_all (r ∷ rs) s =
      let (_, d) = ContradictionStore.mark_resolved ca.contradiction_st r.doc_id s.contradictions in
      resolve_all rs (record s { contradictions = d })

  -- One pass of the loop over `grouped`.
  unfoldable pub slash_group : String → List ContradictionRecord → Evidence D H → Evidence D H
  slash_group indexer_id recs s =
      if ltb_ℤ (pos (length recs)) threshold
      then s
      else let (sent, h) = ca.hub.broadcast_slash (slash_of indexer_id recs) s.hub in
        elim sent [
          | err e ↦ record s { hub = h }
          | ok tx_hash ↦ resolve_all recs (record s { hub = h })
        ]

  unfoldable pub slash_groups : List String → List ContradictionRecord → Evidence D H → Evidence D H
  slash_groups [] records s = s
  slash_groups (indexer_id ∷ indexer_ids) records s =
      slash_groups indexer_ids records (slash_group indexer_id (records_of indexer_id records) s)

  -- `order` is the order in which the map `grouped` is iterated.
  unfoldable pub check_and_slash : (List String → List String) → Evidence D H → Evidence D H
  check_and_slash order s =
      elim (ContradictionStore.list_unresolved ca.contradiction_st s.contradictions) [
        | err e ↦ s
        | ok records ↦ slash_groups (order (indexers_of [] records)) records s
      ]
