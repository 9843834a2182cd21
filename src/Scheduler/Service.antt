-- ===== src/Scheduler/Service.antt =====
-- cmd/scheduler/main.go: the parts of the service that share the subscription manager, wired as the
-- command wires them, and what sets them off. A request, an event of the hub or a tick runs to its
-- end before the next one here.
pub mod Causes
use package.shinzo_scheduler_service.Base.{String, Option, List, [], ◌∷◌}
use package.shinzo_scheduler_service.Base.Int.{ℤ}
use package.shinzo_scheduler_service.Base.Time.{Runtime}
use package.shinzo_scheduler_service.Base.Float.{Float64}
use package.shinzo_scheduler_service.Store.Records.{Pricing}
use package.shinzo_scheduler_service.Registry.Hosts as Hosts
use package.shinzo_scheduler_service.Registry.Hosts.{HostRegistry, RegisterHostRequest}
use package.shinzo_scheduler_service.Payment.Client.{Client}
use package.shinzo_scheduler_service.Payment.Hub.{Reaction}
use package.shinzo_scheduler_service.Subscription.Manager.{CreateRequest, Manager, expire_overdue}
use package.shinzo_scheduler_service.Api.Discovery.{Strconv}
use package.shinzo_scheduler_service.Api.Subscriptions as Subscriptions
use package.shinzo_scheduler_service.Api.Subscriptions.{SubscriptionHandler, State}
use package.shinzo_scheduler_service.Api.Payments.{
  PaymentHandler, VerifyPaymentRequest, verify_payment,
}
use package.shinzo_scheduler_service.Scheduler.{react_to_hub}

-- What `run` makes before it wires the handlers; `tx_verifier` is set if ShinzoHub is enabled.
pub record Service (F D I M H K S : Type 0) : Type 0 where
  pub sub_mgr : Manager F D I M
  pub host_reg : HostRegistry H K S
  pub tx_verifier : Option Client
  pub floor_tip_per_1k_blocks : F
  pub floor_snapshot_per_range : F
  pub decode_pricing : String → Option (Pricing F)

module _ {F D I M H K S : Type 0} where
  abbrev pub subscription_handler : Service F D I M H K S → SubscriptionHandler F D I M H K S
  subscription_handler svc = record { mgr = svc.sub_mgr; host_reg = svc.host_reg }

  abbrev pub payment_handler : Service F D I M H K S → PaymentHandler F D I M H K S
  payment_handler svc = record {
    mgr = svc.sub_mgr;
    indexer_st = svc.sub_mgr.indexer_st;
    host_reg = svc.host_reg;
    tx_verifier = svc.tx_verifier;
    floor_tip_per_1k_blocks = svc.floor_tip_per_1k_blocks;
    floor_snapshot_per_range = svc.floor_snapshot_per_range;
    decode_pricing = svc.decode_pricing;
  }

-- What may happen: the registration of a host, a request to make or cancel a subscription or to
-- activate it after a payment, a reaction to an event of the hub, and a tick of the expiry loop.
pub data Event : Type 0 where
  registers : RegisterHostRequest → ℤ → Event
  asks_create : String → ℤ → Option CreateRequest → String → String → ℤ → Event
  asks_cancel : String → ℤ → String → Event
  pays : String → ℤ → Option VerifyPaymentRequest → ℤ → Event
  reacts : Reaction → ℤ → Event
  ticks : ℤ → Event

module _ {F D I M H K S : Type 0} ⦃fl : Float64 F⦄ (rt : Runtime) (sc : Strconv F)
    (svc : Service F D I M H K S) where
  unfoldable pub happen : Event → State D I M H → State D I M H
  happen (registers req now) s = record s {
    hosts = (Hosts.register rt svc.host_reg req now s.hosts).1;
  }
  happen (asks_create token unix body uuid match_uuid now) s =
      (Subscriptions.create rt (subscription_handler svc) token unix body uuid match_uuid now s).1
  happen (asks_cancel token unix sub_id) s =
      (Subscriptions.cancel rt (subscription_handler svc) token unix sub_id s).1
  happen (pays token unix body now) s =
      (verify_payment rt sc (payment_handler svc) token unix body now s).1
  happen (reacts reaction now) s = record s {
    managed = react_to_hub rt svc.sub_mgr reaction now s.managed;
  }
  happen (ticks now) s = record s { managed = expire_overdue rt svc.sub_mgr now s.managed }

  unfoldable pub happen_all : List Event → State D I M H → State D I M H
  happen_all [] s = s
  happen_all (ev ∷ evs) s = happen_all evs (happen ev s)
