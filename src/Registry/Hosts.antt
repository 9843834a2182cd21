-- ===== src/Registry/Hosts.antt =====
-- pkg/registry/host_registry.go. A call reads the clock once (`now`, in nanoseconds; `unix`, the
-- same in seconds).
use package.shinzo_scheduler_service.Base.{
  String, ◌||◌, not, none, some, List, Result, ok, err, Action, ◌>>=◌, ◌>>◌, pure, reads, fail,
  ◌==◌, if◌then◌else◌,
}
use package.shinzo_scheduler_service.Base.Int.{ℤ}
use package.shinzo_scheduler_service.Base.Time.{Runtime}
use package.shinzo_scheduler_service.Store.Records.{HostRecord}
use package.shinzo_scheduler_service.Store.Db.{Db}
use package.shinzo_scheduler_service.Store.Status
use package.shinzo_scheduler_service.Store.HostStore
use package.shinzo_scheduler_service.Registry.Indexers.{verify_messages, is_empty}
use package.shinzo_scheduler_service.Auth.{Crypto, verify_request_token, extract_peer_id}

pub record RegisterHostRequest : Type 0 where
  pub peer_id : String
  pub defra_pk : String
  -- The entries of the map, in the order of its iteration: message and signature.
  pub signed_messages : List (String × String)
  pub http_url : String
  pub multiaddr : String
  pub chain : String
  pub network : String

pub record RegisterHostResponse : Type 0 where
  pub peer_id : String
  pub heartbeat_interval_seconds : ℤ

pub record HostRegistry (D P S : Type 0) : Type 0 where
  pub host_st : Db D HostRecord
  pub crypto : Crypto P S
  pub chain : String
  pub network : String
  pub heartbeat_interval_seconds : ℤ

module _ {D P S : Type 0} (rt : Runtime) (r : HostRegistry D P S) where
  unfoldable pub verify_registration : RegisterHostRequest → Result (Unit {0})
  verify_registration req =
      if req.peer_id == "" || req.defra_pk == ""
      then err "peer_id and defra_pk are required"
      else if req.chain == "" || req.network == ""
      then err "chain and network are required"
      else if not (req.chain == r.chain) || not (req.network == r.network)
      then err "chain/network mismatch"
      else if is_empty req.signed_messages
      then err "no signed messages provided"
      else verify_messages r.crypto req.defra_pk req.signed_messages

  abbrev pub host_of : RegisterHostRequest → ℤ → HostRecord
  host_of req now = record {
    doc_id = "";
    peer_id = req.peer_id;
    defra_pk = req.defra_pk;
    http_url = req.http_url;
    multiaddr = req.multiaddr;
    chain = req.chain;
    network = req.network;
    last_heartbeat = rt.format_time now;
    registered_at = rt.format_time now;
    status = Status.active;
    budget = "";
  }

  abbrev pub reregistered : RegisterHostRequest → HostRecord → HostRecord
  reregistered req i = record i {
    http_url = req.http_url;
    multiaddr = req.multiaddr;
    status = Status.active;
  }

  abbrev pub response : RegisterHostRequest → RegisterHostResponse
  response req = record {
    peer_id = req.peer_id;
    heartbeat_interval_seconds = r.heartbeat_interval_seconds;
  }

  unfoldable pub register : RegisterHostRequest → ℤ → Action D RegisterHostResponse
  register req now = do
    reads λ _. verify_registration req
    existing ← reads (HostStore.get_by_peer_id r.host_st req.peer_id)
    elim existing [
      | some found ↦ do
        HostStore.update r.host_st found.doc_id (reregistered req)
        pure (response req)
      | none ↦ do HostStore.create r.host_st (host_of req now); pure (response req)
    ]

  unfoldable pub heartbeat : String → ℤ → Action D (Unit {0})
  heartbeat peer_id now = do
    found ← reads (HostStore.get_by_peer_id r.host_st peer_id)
    elim found [
      | none ↦ fail "host not found"
      | some rec ↦
          HostStore.update r.host_st rec.doc_id
            (λ i. record i { last_heartbeat = rt.format_time now; status = Status.active })
    ]

  unfoldable pub deregister : String → Action D (Unit {0})
  deregister peer_id = do
    found ← reads (HostStore.get_by_peer_id r.host_st peer_id)
    elim found [
      | none ↦ fail "host not found"
      | some rec ↦
          HostStore.update r.host_st rec.doc_id (λ i. record i { status = Status.inactive })
    ]

  unfoldable pub verify_request : String → ℤ → D → Result HostRecord
  verify_request token unix d = elim (extract_peer_id r.crypto token) [
    | err e ↦ err e
    | ok peer_id ↦ elim (HostStore.get_by_peer_id r.host_st peer_id d) [
      | err e ↦ err e
      | ok found ↦ elim found [
        | none ↦ err "host not found"
        | some rec ↦ elim (verify_request_token r.crypto rec.defra_pk token unix) [
          | err e ↦ err e
          | ok name ↦ ok rec
        ]
      ]
    ]
  ]
