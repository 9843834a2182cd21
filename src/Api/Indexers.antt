-- ===== src/Api/Indexers.antt =====
-- pkg/api/handlers/indexer.go.
pub mod Identity
use package.shinzo_scheduler_service.Base.{
  String, Bool, false, not, Option, none, some, ok, err, ◌==◌, if◌then◌else◌,
}
use package.shinzo_scheduler_service.Base.Int.{ℤ}
use package.shinzo_scheduler_service.Base.Time.{Runtime}
use package.shinzo_scheduler_service.Base.Float.{Float64}
use package.shinzo_scheduler_service.Store.Records.{IndexerRecord}
use package.shinzo_scheduler_service.Store.Db.{Db}
use package.shinzo_scheduler_service.Store.IndexerStore
use package.shinzo_scheduler_service.Registry.Indexers as Registry
use package.shinzo_scheduler_service.Registry.Indexers.{
  IndexerRegistry, RegisterIndexerRequest, RegisterIndexerResponse, HeartbeatRequest,
}
use package.shinzo_scheduler_service.Api.Reply.{
  write_json, write_error, Handler, refuse, answer, reply_to, status_ok, status_created,
  status_bad_request, status_unauthorized, status_not_found, status_internal_server_error,
}

pub record IndexerHandler (F D K S : Type 0) : Type 0 where
  pub reg : IndexerRegistry F D K S
  pub indexer_st : Db D (IndexerRecord F)

module _ {F D K S : Type 0} ⦃fl : Float64 F⦄ (rt : Runtime) (h : IndexerHandler F D K S) where
  unfoldable pub register : Option RegisterIndexerRequest → ℤ → Handler D RegisterIndexerResponse
  register none now d = refuse status_bad_request "invalid request body" d
  register (some req) now d =
      let (res, d') = Registry.register rt h.reg req now d in
      (reply_to res (write_error status_bad_request) (write_json status_created), d')

  -- The token is good and its owner has this peer id.
  unfoldable pub owns : String → ℤ → String → D → Bool
  owns token unix peer_id d = elim (Registry.verify_request rt h.reg token unix d) [
    | err e ↦ false
    | ok rec ↦ rec.peer_id == peer_id
  ]

  unfoldable pub heartbeat : String → String → Option HeartbeatRequest → ℤ → ℤ → Handler D String
  unfolding owns
  heartbeat token peer_id body unix now d =
      if not (owns token unix peer_id d)
      then refuse status_unauthorized "unauthorized" d
      else elim body [
        | none ↦ refuse status_bad_request "invalid request body" d
        | some req ↦
            let (res, d') = Registry.heartbeat rt h.reg peer_id req now d in
            (
              reply_to res (λ e. write_error status_internal_server_error "heartbeat failed")
                  (λ done. write_json status_ok "ok"),
              d',
            )
      ]

  unfoldable pub get : String → Handler D (IndexerRecord F)
  get peer_id d = elim (IndexerStore.get_by_peer_id h.indexer_st peer_id d) [
    | err e ↦ refuse status_internal_server_error "internal error" d
    | ok found ↦ elim found [
      | none ↦ refuse status_not_found "indexer not found" d
      | some rec ↦ answer status_ok rec d
    ]
  ]

  unfoldable pub deregister : String → String → ℤ → Handler D String
  unfolding owns
  deregister token peer_id unix d =
      if not (owns token unix peer_id d)
      then refuse status_unauthorized "unauthorized" d
      else let (res, d') = Registry.deregister rt h.reg peer_id d in
        (
          reply_to res (λ e. write_error status_internal_server_error "deregister failed")
              (λ done. write_json status_ok "deregistered"),
          d',
        )
