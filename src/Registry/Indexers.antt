-- ===== src/Registry/Indexers.antt =====
-- pkg/registry/indexer_registry.go. A call reads the clock once (`now`, in nanoseconds; `unix`, the
-- same in seconds).
pub mod Identity
use package.shinzo_scheduler_service.Base.{
  String, Bool, true, false, ◌||◌, not, none, some, Option, is_some, List, [], ◌∷◌, Result, ok, err,
  Action, ◌>>=◌, ◌>>◌, pure, reads, fail, ◌==◌, if◌then◌else◌,
}
use package.shinzo_scheduler_service.Base.Int.{ℤ, pos}
use package.shinzo_scheduler_service.Base.Time.{Runtime}
use package.shinzo_scheduler_service.Base.Float.{Float64, one_F}
use package.shinzo_scheduler_service.Store.Records.{IndexerRecord, Pricing}
use package.shinzo_scheduler_service.Store.Db.{Db}
use package.shinzo_scheduler_service.Store.Status
use package.shinzo_scheduler_service.Store.IndexerStore
use package.shinzo_scheduler_service.Auth.{
  Crypto, verify_signature, verify_request_token, extract_peer_id,
}

pub record RegisterIndexerRequest : Type 0 where
  pub peer_id : String
  pub defra_pk : String
  -- The entries of the map, in the order of its iteration: message and signature.
  pub signed_messages : List (String × String)
  pub http_url : String
  pub multiaddr : String
  pub chain : String
  pub network : String
  pub pricing : String

pub record RegisterIndexerResponse : Type 0 where
  pub peer_id : String
  pub heartbeat_interval_seconds : ℤ

pub record HeartbeatRequest : Type 0 where
  pub current_tip : ℤ
  pub snapshot_ranges : String

-- `decode_pricing` is `json.Unmarshal` at the type of prices.
pub record IndexerRegistry (F D P S : Type 0) : Type 0 where
  pub indexer_st : Db D (IndexerRecord F)
  pub crypto : Crypto P S
  pub decode_pricing : String → Option (Pricing F)
  pub chain : String
  pub network : String
  pub heartbeat_interval_seconds : ℤ

-- The loop over the signed messages, which stops at the first that is not good.
unfoldable pub verify_messages :
    {P S : Type 0} → Crypto P S → String → List (String × String) → Result (Unit {0})
verify_messages c pub_key [] = ok tt
verify_messages c pub_key ((msg, sig) ∷ messages) = elim (verify_signature c pub_key msg sig) [
  | err e ↦ err "signature invalid for message"
  | ok done ↦ verify_messages c pub_key messages
]

abbrev pub is_empty : {A : Type 0} → List A → Bool
is_empty [] = true
is_empty (x ∷ xs) = false

module _ {F D P S : Type 0} ⦃fl : Float64 F⦄ (rt : Runtime) (r : IndexerRegistry F D P S) where
  unfoldable pub verify_registration : RegisterIndexerRequest → Result (Unit {0})
  verify_registration req =
      if req.peer_id == "" || req.defra_pk == ""
      then err "peer_id and defra_pk are required"
      else if req.http_url == "" || req.multiaddr == ""
      then err "http_url and multiaddr are required"
      else if req.chain == "" || req.network == ""
      then err "chain and network are required"
      else if not (req.chain == r.chain) || not (req.network == r.network)
      then err "chain/network mismatch"
      else if not (req.pricing == "" || is_some (r.decode_pricing req.pricing))
      then err "invalid pricing JSON"
      else if is_empty req.signed_messages
      then err "no signed messages provided"
      else verify_messages r.crypto req.defra_pk req.signed_messages

  abbrev pub indexer_of : RegisterIndexerRequest → ℤ → IndexerRecord F
  indexer_of req now = record {
    doc_id = "";
    peer_id = req.peer_id;
    defra_pk = req.defra_pk;
    http_url = req.http_url;
    multiaddr = req.multiaddr;
    chain = req.chain;
    network = req.network;
    current_tip = pos 0;
    snapshot_ranges = "[]";
    pricing = req.pricing;
    reliability_score = one_F;
    last_heartbeat = rt.format_time now;
    registered_at = rt.format_time now;
    status = Status.active;
  }

  -- "Re-registration: update mutable fields."
  abbrev pub reregistered : RegisterIndexerRequest → IndexerRecord F → IndexerRecord F
  reregistered req i = record i {
    http_url = req.http_url;
    multiaddr = req.multiaddr;
    pricing = req.pricing;
    status = Status.active;
  }

  abbrev pub response : RegisterIndexerRequest → RegisterIndexerResponse
  response req = record {
    peer_id = req.peer_id;
    heartbeat_interval_seconds = r.heartbeat_interval_seconds;
  }

  unfoldable pub register : RegisterIndexerRequest → ℤ → Action D RegisterIndexerResponse
  register req now = do
    reads λ _. verify_registration req
    existing ← reads (IndexerStore.get_by_peer_id r.indexer_st req.peer_id)
    elim existing [
      | some found ↦ do
        IndexerStore.update r.indexer_st found.doc_id (reregistered req)
        pure (response req)
      | none ↦ do IndexerStore.create r.indexer_st (indexer_of req now); pure (response req)
    ]

  unfoldable pub heartbeat : String → HeartbeatRequest → ℤ → Action D (Unit {0})
  heartbeat peer_id req now = do
    found ← reads (IndexerStore.get_by_peer_id r.indexer_st peer_id)
    elim found [
      | none ↦ fail "indexer not found"
      | some rec ↦ IndexerStore.update r.indexer_st rec.doc_id (λ i. record i {
        current_tip = req.current_tip;
        snapshot_ranges = req.snapshot_ranges;
        last_heartbeat = rt.format_time now;
        status = Status.active;
      })
    ]

  unfoldable pub deregister : String → Action D (Unit {0})
  deregister peer_id = do
    found ← reads (IndexerStore.get_by_peer_id r.indexer_st peer_id)
    elim found [
      | none ↦ fail "indexer not found"
      | some rec ↦
          IndexerStore.update r.indexer_st rec.doc_id (λ i. record i { status = Status.inactive })
    ]

  unfoldable pub verify_request : String → ℤ → D → Result (IndexerRecord F)
  verify_request token unix d = elim (extract_peer_id r.crypto token) [
    | err e ↦ err e
    | ok peer_id ↦ elim (IndexerStore.get_by_peer_id r.indexer_st peer_id d) [
      | err e ↦ err e
      | ok found ↦ elim found [
        | none ↦ err "indexer not found"
        | some rec ↦ elim (verify_request_token r.crypto rec.defra_pk token unix) [
          | err e ↦ err e
          | ok name ↦ ok rec
        ]
      ]
    ]
  ]

  -- A status of "" leaves the status as it is.
  unfoldable pub update_reliability : String → F → ℤ → String → ℤ → Action D (Unit {0})
  update_reliability doc_id score tip status now = IndexerStore.update r.indexer_st doc_id (λ i.
      record i {
        reliability_score = score;
        current_tip = tip;
        last_heartbeat = rt.format_time now;
        status = if status == "" then i.status else status;
      })
