-- ===== src/Api/Discovery.antt =====
-- pkg/api/handlers/discovery.go: the queries of hosts, from the parameters of a request.
pub mod Parameters
use package.shinzo_scheduler_service.Base.{
  String, Bool, true, false, ◌||◌, ◌&&◌, not, Option, none, some, List, Result, ok, err, ◌==◌,
  if◌then◌else◌,
}
use package.shinzo_scheduler_service.Base.Int.{ℤ, pos, ltb_ℤ, leb_ℤ, eqb_ℤ}
use package.shinzo_scheduler_service.Base.Time.{Runtime}
use package.shinzo_scheduler_service.Base.Float.{Float64, zero_F, one_F, ◌<F◌}
use package.shinzo_scheduler_service.Store.Records.{HostBudget}
use package.shinzo_scheduler_service.Discovery.Query.{
  Discoverer, TipQuery, SnapshotQuery, IndexerMatch,
}
use package.shinzo_scheduler_service.Discovery.Query.Tip.{find_for_tip}
use package.shinzo_scheduler_service.Discovery.Query.Snapshot.{find_for_snapshot}
use package.shinzo_scheduler_service.Api.Reply.{
  Reply, write_json, write_error, status_ok, status_bad_request, status_internal_server_error,
}

-- Package strconv: `parse_float` gives the number, and whether there is no error (a number comes
-- with an error too); `atoi` gives the number, whose error the handlers drop.
pub record Strconv (F : Type 0) : Type 0 where
  pub parse_float : String → F × Bool
  pub atoi : String → ℤ

-- The query of a request: the first value of a key, or "".
abbrev pub Values : Type 0
Values = String → String

module _ {F D M : Type 0} ⦃fl : Float64 F⦄ (rt : Runtime) (sc : Strconv F)
    (h : Discoverer F D M) where
  unfoldable pub parse_budget : Values → Option (HostBudget F)
  parse_budget q =
      let (tip_max, tip_ok) = sc.parse_float (q "max_tip_per_1k") in
      let (snap_max, snap_ok) = sc.parse_float (q "max_snapshot_per_range") in
      if not tip_ok && not snap_ok
      then none
      else some (record { max_tip_per_1k_blocks = tip_max; max_snapshot_per_range = snap_max })

  -- The two tests of `minRel`.
  unfoldable pub clamp_reliability : F → F
  clamp_reliability x = let y = if x <F zero_F then zero_F else x in if one_F <F y then one_F else y

  -- `if limit < 0 { limit = 0 }`
  unfoldable pub clamp_limit : ℤ → ℤ
  clamp_limit n = if ltb_ℤ n (pos 0) then pos 0 else n

  unfoldable pub tip_query : Values → TipQuery F
  tip_query q = record {
    chain = q "chain";
    network = q "network";
    min_reliability = clamp_reliability (sc.parse_float (q "min_reliability")).0;
    limit = clamp_limit (sc.atoi (q "limit"));
    host_budget = parse_budget q;
    host_id = q "host_id";
  }

  unfoldable pub indexers : Values → ℤ → D → M → Reply (List (IndexerMatch F))
  indexers q now i m =
      if q "chain" == "" || q "network" == ""
      then write_error status_bad_request "chain and network are required"
      else elim (find_for_tip rt h (tip_query q) now i m) [
        | err e ↦ write_error status_internal_server_error "internal error"
        | ok matches ↦ write_json status_ok matches
      ]

  unfoldable pub snapshot_query : Values → SnapshotQuery F
  snapshot_query q = record {
    chain = q "chain";
    network = q "network";
    block_from = sc.atoi (q "block_from");
    block_to = sc.atoi (q "block_to");
    limit = clamp_limit (sc.atoi (q "limit"));
    host_budget = parse_budget q;
    host_id = q "host_id";
  }

  unfoldable pub snapshots : Values → ℤ → D → M → Reply (List (IndexerMatch F))
  snapshots q now i m =
      let block_from = sc.atoi (q "block_from") in
      let block_to = sc.atoi (q "block_to") in
      if q "chain" == "" || q "network" == ""
      then write_error status_bad_request "chain and network are required"
      else if eqb_ℤ block_from (pos 0) || eqb_ℤ block_to (pos 0)
      then write_error status_bad_request "block_from and block_to are required"
      else if leb_ℤ block_to block_from
      then write_error status_bad_request "block_from must be less than block_to"
      else elim (find_for_snapshot rt h (snapshot_query q) now i m) [
        | err e ↦ write_error status_internal_server_error "internal error"
        | ok matches ↦ write_json status_ok matches
      ]

  -- `Match` in the source.
  unfoldable pub match_indexers : Values → ℤ → D → M → Reply (List (IndexerMatch F))
  match_indexers q now i m =
      if not (q "block_from" == "") && not (q "block_to" == "")
      then snapshots q now i m
      else indexers q now i m
