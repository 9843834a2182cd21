-- ===== src/Api/Subscriptions.antt =====
-- pkg/api/handlers/subscription.go: hosts and their subscriptions.
pub mod Ownership
pub mod Privacy
use package.shinzo_scheduler_service.Base.{
  String, Bool, true, false, ◌&&◌, not, Option, none, some, List, Result, ok, err, ◌==◌,
  if◌then◌else◌,
}
use package.shinzo_scheduler_service.Base.Int.{ℤ}
use package.shinzo_scheduler_service.Base.Time.{Runtime}
use package.shinzo_scheduler_service.Base.Float.{Float64}
use package.shinzo_scheduler_service.Store.Records.{SubscriptionRecord, HostRecord, IndexerRecord}
use package.shinzo_scheduler_service.Registry.Hosts.{HostRegistry, verify_request}
use package.shinzo_scheduler_service.Subscription.Manager as Subscriptions
use package.shinzo_scheduler_service.Subscription.Manager.{CreateRequest, Manager}
use package.shinzo_scheduler_service.Api.Reply.{
  Reply, write_json, write_error, Handler, refuse, answer, reply_to, status_ok, status_created,
  status_bad_request, status_unauthorized, status_forbidden, status_not_found,
  status_internal_server_error,
}

pub record SubscriptionHandler (F D I M H K S : Type 0) : Type 0 where
  pub mgr : Manager F D I M
  pub host_reg : HostRegistry H K S

-- The collections of the manager, and that of the hosts.
pub record State (D I M H : Type 0) : Type 0 where
  pub managed : Subscriptions.State D I M
  pub hosts : H

-- The reply to `Get`: the subscription, and the addresses of its indexer, if there is one.
pub record SubscriptionView : Type 0 where
  pub subscription : SubscriptionRecord
  pub indexer_addresses : Option (String × String)

abbrev pub view_of : {F : Type 0} → SubscriptionRecord → Option (IndexerRecord F) → SubscriptionView
view_of sub none = record { subscription = sub; indexer_addresses = none }
view_of sub (some indexer) = record {
  subscription = sub;
  indexer_addresses = some (indexer.multiaddr, indexer.http_url);
}

module _ {F D I M H K S : Type 0} ⦃fl : Float64 F⦄ (rt : Runtime)
    (h : SubscriptionHandler F D I M H K S) where
  -- `unix` is the time in seconds.
  unfoldable pub auth_host : String → ℤ → State D I M H → Result HostRecord
  auth_host token unix s = verify_request rt h.host_reg token unix s.hosts

  -- What `Create` does for the host of the token. The ids are those of the two records.
  unfoldable pub create_for :
      HostRecord
      → Option CreateRequest
      → String
      → String
      → ℤ
      → Handler (State D I M H) SubscriptionRecord
  create_for host none uuid match_uuid now s = refuse status_bad_request "invalid request body" s
  create_for host (some req) uuid match_uuid now s =
      let (res, managed') =
        Subscriptions.create rt h.mgr (record req { host_id = host.peer_id }) uuid match_uuid now
          s.managed in
      (
        reply_to res (write_error status_bad_request) (write_json status_created),
        record s { managed = managed' },
      )

  unfoldable pub create :
      String
      → ℤ
      → Option CreateRequest
      → String
      → String
      → ℤ
      → Handler (State D I M H) SubscriptionRecord
  create token unix body uuid match_uuid now s = elim (auth_host token unix s) [
    | err e ↦ refuse status_unauthorized "unauthorized" s
    | ok host ↦ create_for host body uuid match_uuid now s
  ]

  unfoldable pub get_for : HostRecord → String → Handler (State D I M H) SubscriptionView
  get_for host sub_id s = elim (Subscriptions.get rt h.mgr sub_id s.managed) [
    | err e ↦ refuse status_not_found e s
    | ok found ↦
        let (sub, indexer) = found in
        if not (sub.host_id == host.peer_id)
        then refuse status_forbidden "forbidden" s
        else answer status_ok (view_of sub indexer) s
  ]

  unfoldable pub get : String → ℤ → String → Handler (State D I M H) SubscriptionView
  get token unix sub_id s = elim (auth_host token unix s) [
    | err e ↦ refuse status_unauthorized "unauthorized" s
    | ok host ↦ get_for host sub_id s
  ]

  unfoldable pub list_for : HostRecord → String → Handler (State D I M H) (List SubscriptionRecord)
  list_for host host_id s =
      if not (host_id == "") && not (host_id == host.peer_id)
      then refuse status_forbidden "forbidden" s
      else elim (Subscriptions.list_by_host rt h.mgr host.peer_id s.managed) [
        | err e ↦ refuse status_internal_server_error "internal error" s
        | ok subs ↦ answer status_ok subs s
      ]

  -- `host_id` is the parameter of the query.
  unfoldable pub list : String → ℤ → String → Handler (State D I M H) (List SubscriptionRecord)
  list token unix host_id s = elim (auth_host token unix s) [
    | err e ↦ refuse status_unauthorized "unauthorized" s
    | ok host ↦ list_for host host_id s
  ]

  unfoldable pub cancel_for : HostRecord → String → Handler (State D I M H) String
  cancel_for host sub_id s = elim (Subscriptions.get rt h.mgr sub_id s.managed) [
    | err e ↦ refuse status_not_found e s
    | ok found ↦
        let (sub, indexer) = found in
        let (res, managed') = Subscriptions.cancel rt h.mgr sub_id s.managed in
        if not (sub.host_id == host.peer_id) then refuse status_forbidden "forbidden" s else (
          reply_to res (write_error status_bad_request) (λ done. write_json status_ok "cancelled"),
          record s { managed = managed' },
        )
  ]

  unfoldable pub cancel : String → ℤ → String → Handler (State D I M H) String
  cancel token unix sub_id s = elim (auth_host token unix s) [
    | err e ↦ refuse status_unauthorized "unauthorized" s
    | ok host ↦ cancel_for host sub_id s
  ]
