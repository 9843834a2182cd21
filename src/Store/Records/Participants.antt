-- ===== src/Store/Records/Participants.antt =====
-- The records of indexers and hosts, their prices, and what is known of them
-- (pkg/store/types.go).
use Prim.Native.String.{String}
use mathlib.Core.Bool.{Bool}
use package.shinzo_scheduler_service.Base.Int.{ℤ}

pub record IndexerRecord (F : Type 0) : Type 0 where
  pub doc_id : String
  pub peer_id : String
  pub defra_pk : String
  pub http_url : String
  pub multiaddr : String
  pub chain : String
  pub network : String
  pub current_tip : ℤ
  pub snapshot_ranges : String
  pub pricing : String
  pub reliability_score : F
  pub last_heartbeat : String
  pub registered_at : String
  pub status : String

pub record HostRecord : Type 0 where
  pub doc_id : String
  pub peer_id : String
  pub defra_pk : String
  pub http_url : String
  pub multiaddr : String
  pub chain : String
  pub network : String
  pub last_heartbeat : String
  pub registered_at : String
  pub status : String
  pub budget : String

pub record HostBudget (F : Type 0) : Type 0 where
  pub max_tip_per_1k_blocks : F
  pub max_snapshot_per_range : F

pub record SubscriptionRecord : Type 0 where
  pub doc_id : String
  pub subscription_id : String
  pub host_id : String
  pub indexer_id : String
  pub sub_type : String
  pub block_from : ℤ
  pub block_to : ℤ
  pub status : String
  pub payment_ref : String
  pub created_at : String
  pub activated_at : String
  pub expires_at : String
  pub metadata : String

pub record ProbeResultRecord : Type 0 where
  pub doc_id : String
  pub indexer_id : String
  pub probed_at : String
  pub success : Bool
  pub tip : ℤ
  pub latency_ms : ℤ

pub record RatingRecord (F : Type 0) : Type 0 where
  pub doc_id : String
  pub indexer_id : String
  pub host_id : String
  pub score : F
  pub comment : String
  pub rated_at : String

pub record SnapshotRange : Type 0 where
  pub start : ℤ
  pub end : ℤ
  pub file : String
  pub size_bytes : ℤ
  pub created_at : String

pub record Pricing (F : Type 0) : Type 0 where
  pub tip_per_1k_blocks : F
  pub snapshot_per_range : F

pub record MatchHistoryRecord (F : Type 0) : Type 0 where
  pub doc_id : String
  pub match_id : String
  pub host_id : String
  pub indexer_id : String
  pub match_type : String
  pub matched_at : String
  pub clearing_price : F

pub record ContradictionRecord : Type 0 where
  pub doc_id : String
  pub evidence_id : String
  pub indexer_id : String
  pub snapshot_range : String
  pub probed_at : String
  pub resolved : Bool
