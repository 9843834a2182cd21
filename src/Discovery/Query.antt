-- ===== src/Discovery/Query.antt =====
-- pkg/discovery/query.go: the queries for the chain's tip and for a range of blocks.
pub mod Tip
pub mod Snapshot
use package.shinzo_scheduler_service.Base.{
  ℕ, String, Bool, true, false, ◌&&◌, ◌||◌, not, none, some, Option, List, [], ◌∷◌, ◌++◌, map,
  length, take, filter, Result, ok, err, ltb, leb, ◌==◌, if◌then◌else◌,
}
use package.shinzo_scheduler_service.Base.Int.{ℤ, pos, ◌-ℤ◌, leb_ℤ, ltb_ℤ, wrap64, pos_part}
use package.shinzo_scheduler_service.Base.Time.{Runtime, since, after}
use package.shinzo_scheduler_service.Base.Float.{Float64, ◌*F◌, ◌<F◌, ne_F, zero_F}
use package.shinzo_scheduler_service.Store.Records.{
  IndexerRecord, MatchHistoryRecord, Pricing, HostBudget, SnapshotRange,
}
use package.shinzo_scheduler_service.Store.Db.{Db}
use package.shinzo_scheduler_service.Store.SubType
use package.shinzo_scheduler_service.Store.IndexerStore
use package.shinzo_scheduler_service.Store.MatchStore
use package.shinzo_scheduler_service.Discovery.Pricing.{
  clearing_price, price_overlaps, ask_for_type, bid_for_type, diversity_weight,
}

pub record TipQuery (F : Type 0) : Type 0 where
  pub chain : String
  pub network : String
  pub min_reliability : F
  pub limit : ℤ
  pub host_budget : Option (HostBudget F)
  pub host_id : String

pub record SnapshotQuery (F : Type 0) : Type 0 where
  pub chain : String
  pub network : String
  pub block_from : ℤ
  pub block_to : ℤ
  pub limit : ℤ
  pub host_budget : Option (HostBudget F)
  pub host_id : String

pub record IndexerMatch (F : Type 0) : Type 0 where
  pub peer_id : String
  pub http_url : String
  pub multiaddr : String
  pub chain : String
  pub network : String
  pub current_tip : ℤ
  pub reliability_score : F
  pub pricing : Option (Pricing F)
  pub snapshots : List SnapshotRange
  pub clearing_price : F
  pub snapshot_creation_required : Bool

pub record DiscovererConfig : Type 0 where
  pub staleness_window : ℤ
  pub tip_exclusion_threshold : ℤ
  pub diversity_enabled : Bool
  pub recency_window : ℤ

-- `sort` is `sort.Slice`, the decoders are `json.Unmarshal` at their types.
pub record Discoverer (F D M : Type 0) : Type 0 where
  pub indexer_st : Db D (IndexerRecord F)
  pub match_st : Option (Db M (MatchHistoryRecord F))
  pub cfg : DiscovererConfig
  pub sort :
      (IndexerMatch F → IndexerMatch F → Bool) → List (IndexerMatch F) → List (IndexerMatch F)
  pub decode_pricing : String → Option (Pricing F)
  pub decode_ranges : String → Option (List SnapshotRange)

pub record IndexerCandidate (F : Type 0) : Type 0 where
  pub rec : IndexerRecord F
  pub pricing : Option (Pricing F)

-- `map[string]time.Time`
abbrev pub lookup : String → List (String × ℤ) → Option ℤ
lookup k [] = none
lookup k ((j, t) ∷ m) = if k == j then some t else lookup k m

-- The loop over the history: the latest time for each indexer. An entry that is put later stands
-- before the older one.
unfoldable pub latest_matches :
    {F : Type 0} → Runtime → List (String × ℤ) → List (MatchHistoryRecord F) → List (String × ℤ)
latest_matches rt m [] = m
latest_matches rt m (h ∷ hs) = elim (rt.parse_time h.matched_at) [
  | none ↦ latest_matches rt m hs
  | some t ↦ elim (lookup h.indexer_id m) [
    | none ↦ latest_matches rt ((h.indexer_id, t) ∷ m) hs
    | some existing ↦
        if after t existing
        then latest_matches rt ((h.indexer_id, t) ∷ m) hs
        else latest_matches rt m hs
  ]
]

-- `if limit > 0 && len(matches) > limit { matches = matches[:limit] }`
abbrev pub limited : {A : Type 0} → ℤ → List A → List A
limited limit xs =
    if ltb_ℤ (pos 0) limit && ltb_ℤ limit (pos (length xs)) then take (pos_part limit) xs else xs

unfoldable pub to_match : {F : Type 0} ⦃fl : Float64 F⦄ → IndexerRecord F → IndexerMatch F
to_match idx = record {
  peer_id = idx.peer_id;
  http_url = idx.http_url;
  multiaddr = idx.multiaddr;
  chain = idx.chain;
  network = idx.network;
  current_tip = idx.current_tip;
  reliability_score = idx.reliability_score;
  pricing = none;
  snapshots = [];
  clearing_price = zero_F;
  snapshot_creation_required = false;
}

module _ {F D M : Type 0} ⦃fl : Float64 F⦄ (rt : Runtime) (d : Discoverer F D M) where
  unfoldable pub is_stale : IndexerRecord F → ℤ → Bool
  is_stale idx now =
      if leb_ℤ d.cfg.staleness_window (pos 0) || idx.last_heartbeat == ""
      then false
      else elim (rt.parse_time idx.last_heartbeat) [
        | none ↦ true
        | some last ↦ ltb_ℤ d.cfg.staleness_window (since now last)
      ]

  unfoldable pub load_diversity_map : String → M → Option (List (String × ℤ))
  load_diversity_map host_id m = elim (d.match_st) [
    | none ↦ none
    | some match_st ↦
        if not d.cfg.diversity_enabled || host_id == ""
        then none
        else elim (MatchStore.list_by_host match_st host_id m) [
          | err e ↦ none
          | ok history ↦ elim history [ [] ↦ none | h ∷ hs ↦ some (latest_matches rt [] (h ∷ hs)) ]
        ]
  ]

  unfoldable pub apply_diversity : String → F → Option (List (String × ℤ)) → ℕ → ℤ → F
  apply_diversity indexer_id score none pool_size now = score
  apply_diversity indexer_id score (some m) pool_size now =
      if leb pool_size 3 then score else elim (lookup indexer_id m) [
        | none ↦ score
        | some last_matched ↦ score *F diversity_weight last_matched d.cfg.recency_window now
      ]

  unfoldable pub overlapping_ranges : String → ℤ → ℤ → List SnapshotRange
  overlapping_ranges ranges_json from to =
      if ranges_json == "" || ranges_json == "[]" then [] else elim (d.decode_ranges ranges_json) [
        | none ↦ []
        | some ranges ↦ filter (λ r. leb_ℤ r.start to && leb_ℤ from r.end) ranges
      ]

  unfoldable pub parse_pricing : String → Option (Pricing F)
  parse_pricing pricing_json =
      if pricing_json == "" || pricing_json == "{}" then none else d.decode_pricing pricing_json

  -- The price, if the host has a budget and the indexer has prices.
  abbrev pub price_of : Option (HostBudget F) → Option (Pricing F) → String → F → F
  price_of none pricing sub_type score = zero_F
  price_of (some budget) none sub_type score = zero_F
  price_of (some budget) (some pricing) sub_type score =
      clearing_price (ask_for_type (some pricing) sub_type) (bid_for_type (some budget) sub_type)
        score
