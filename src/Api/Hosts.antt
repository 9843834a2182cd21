-- ===== src/Api/Hosts.antt =====
-- pkg/api/handlers/host.go.
use package.shinzo_scheduler_service.Base.{
  String, Bool, false, not, Option, none, some, ok, err, ◌==◌, if◌then◌else◌,
}
use package.shinzo_scheduler_service.Base.Int.{ℤ}
use package.shinzo_scheduler_service.Base.Time.{Runtime}
use package.shinzo_scheduler_service.Store.Records.{HostRecord}
use package.shinzo_scheduler_service.Store.Db.{Db}
use package.shinzo_scheduler_service.Store.HostStore
use package.shinzo_scheduler_service.Registry.Hosts as Registry
use package.shinzo_scheduler_service.Registry.Hosts.{
  HostRegistry, RegisterHostRequest, RegisterHostResponse,
}
use package.shinzo_scheduler_service.Api.Reply.{
  write_json, write_error, Handler, refuse, answer, reply_to, status_ok, status_created,
  status_bad_request, status_unauthorized, status_not_found, status_internal_server_error,
}

pub record HostHandler (D K S : Type 0) : Type 0 where
  pub reg : HostRegistry D K S
  pub host_st : Db D HostRecord

module _ {D K S : Type 0} (rt : Runtime) (h : HostHandler D K S) where
  unfoldable pub register : Option RegisterHostRequest → ℤ → Handler D RegisterHostResponse
  register none now d = refuse status_bad_request "invalid request body" d
  register (some req) now d =
      let (res, d') = Registry.register rt h.reg req now d in
      (reply_to res (write_error status_bad_request) (write_json status_created), d')

  -- The token is good and its owner has this peer id.
  unfoldable pub owns : String → ℤ → String → D → Bool
  owns token unix peer_id d = elim (Registry.verify_request rt h.reg token unix d) [
    | err e ↦ false
    | ok rec ↦ rec.peer_id == peer_id
  ]

  unfoldable pub heartbeat : String → String → ℤ → ℤ → Handler D String
  unfolding owns
  heartbeat token peer_id unix now d =
      if not (owns token unix peer_id d)
      then refuse status_unauthorized "unauthorized" d
      else let (res, d') = Registry.heartbeat rt h.reg peer_id now d in
        (
          reply_to res (λ e. write_error status_internal_server_error "heartbeat failed")
              (λ done. write_json status_ok "ok"),
          d',
        )

  unfoldable pub get : String → String → ℤ → Handler D HostRecord
  unfolding owns
  get token peer_id unix d =
      if not (owns token unix peer_id d)
      then refuse status_unauthorized "unauthorized" d
      else elim (HostStore.get_by_peer_id h.host_st peer_id d) [
        | err e ↦ refuse status_internal_server_error "internal error" d
        | ok found ↦ elim found [
          | none ↦ refuse status_not_found "host not found" d
          | some rec ↦ answer status_ok rec d
        ]
      ]

  unfoldable pub deregister : String → String → ℤ → Handler D String
  unfolding owns
  deregister token peer_id unix d =
      if not (owns token unix peer_id d)
      then refuse status_unauthorized "unauthorized" d
      else let (res, d') = Registry.deregister rt h.reg peer_id d in
        (
          reply_to res (λ e. write_error status_internal_server_error "deregister failed")
              (λ done. write_json status_ok "deregistered"),
          d',
        )
