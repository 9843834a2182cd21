-- ===== src/Scheduler.antt =====
-- cmd/scheduler/main.go: what the command makes of the parts, its bootstrap, and the handlers of the
-- hub's events. Processes, signals and the start of the database are outside.
pub mod Bootstrap
pub mod Service
use package.shinzo_scheduler_service.Base.{
  String, Bool, true, false, ◌&&◌, not, Option, none, some, List, [], ◌∷◌, Result, ok, err, Action,
  ◌==◌, if◌then◌else◌,
}
use package.shinzo_scheduler_service.Base.Int.{ℤ, pos, ◌*ℤ◌, wrap64}
use package.shinzo_scheduler_service.Base.Time.{Runtime, seconds}
use package.shinzo_scheduler_service.Base.Float.{Float64, one_F}
use package.shinzo_scheduler_service.Store.Records.{IndexerRecord}
use package.shinzo_scheduler_service.Store.Db.{Db}
use package.shinzo_scheduler_service.Store.Status
use package.shinzo_scheduler_service.Store.IndexerStore
use package.shinzo_scheduler_service.Config.{SchedulerConfig, BootstrapIndexer}
use package.shinzo_scheduler_service.Discovery.Query.{DiscovererConfig}
use package.shinzo_scheduler_service.Payment.Hub.{
  Reaction, calls_created, waits_epoch, calls_expired,
}
use package.shinzo_scheduler_service.Subscription.Manager.{
  Manager, State, ActivateRequest, activate, cancel,
}
use package.shinzo_scheduler_service.Settlement.Hub.{HubBroadcaster, noop_broadcaster}

-- `time.Duration(n) * time.Hour`
abbrev hours : ℤ → ℤ
hours n = wrap64 (n *ℤ pos 3600000000000)

module _ {F : Type 0} ⦃fl : Float64 F⦄ where
  unfoldable pub discoverer_config : SchedulerConfig F → DiscovererConfig
  discoverer_config sc = record {
    staleness_window = seconds sc.probe.staleness_window_seconds;
    tip_exclusion_threshold = sc.probe.tip_exclusion_threshold;
    diversity_enabled = sc.diversity.enabled;
    recency_window = hours sc.diversity.recency_window_hours;
  }

  -- The broadcaster of the settlement subsystem: by RPC if the hub is enabled and has an address.
  unfoldable pub broadcaster :
      {H : Type 0} → SchedulerConfig F → HubBroadcaster F H → HubBroadcaster F H
  broadcaster sc tendermint =
      if sc.shinzohub.enabled && not (sc.shinzohub.rpc_url == "")
      then tendermint
      else noop_broadcaster

  -- The record of a bootstrap peer: it has no key and no prices.
  abbrev pub bootstrap_record : Runtime → SchedulerConfig F → BootstrapIndexer → ℤ → IndexerRecord F
  bootstrap_record rt sc bi now = record {
    doc_id = "";
    peer_id = bi.peer_id;
    defra_pk = "";
    http_url = bi.http_url;
    multiaddr = bi.multiaddr;
    chain = sc.chain;
    network = sc.network;
    current_tip = pos 0;
    snapshot_ranges = "[]";
    pricing = "";
    reliability_score = one_F;
    last_heartbeat = rt.format_time now;
    registered_at = rt.format_time now;
    status = Status.active;
  }

  module _ {D : Type 0} (rt : Runtime) (db : Db D (IndexerRecord F)) (sc : SchedulerConfig F) where
    -- One pass of the loop. The error of the lookup is dropped, and so is that of the creation. `now`
    -- gives the time at which a peer is seeded.
    unfoldable pub seed_one : BootstrapIndexer → ℤ → D → D
    seed_one bi now d = elim (IndexerStore.get_by_peer_id db bi.peer_id d) [
      | err e ↦ (IndexerStore.create db (bootstrap_record rt sc bi now) d).1
      | ok found ↦ elim found [
        | some existing ↦ d
        | none ↦ (IndexerStore.create db (bootstrap_record rt sc bi now) d).1
      ]
    ]

    unfoldable pub seed_all : List BootstrapIndexer → (BootstrapIndexer → ℤ) → D → D
    seed_all [] now d = d
    seed_all (bi ∷ peers) now d = seed_all peers now (seed_one bi (now bi) d)

    unfoldable pub seed_bootstrap_peers : (BootstrapIndexer → ℤ) → D → D
    seed_bootstrap_peers now d = seed_all sc.bootstrap now d

-- The handlers of the events of ShinzoHub: the activation of a subscription that is created there,
-- and the cancellation of one that expires there. Their errors are logged only.
module _ {F D I M : Type 0} ⦃fl : Float64 F⦄ (rt : Runtime) (mgr : Manager F D I M) where
  abbrev pub on_chain : String → String → ActivateRequest
  on_chain subscription_id expires_at = record {
    subscription_id = subscription_id;
    payment_ref = "shinzohub:on-chain";
    expires_at = expires_at;
  }

  -- The wait for an epoch is outside: it ends, if it does, with the call of the handler.
  unfoldable pub react_to_hub : Reaction → ℤ → State D I M → State D I M
  react_to_hub (calls_created ev) now s =
      (activate rt mgr (on_chain ev.subscription_id ev.expires_at) now s).1
  react_to_hub (waits_epoch height ev) now s = s
  react_to_hub (calls_expired sub_id) now s = (cancel rt mgr sub_id s).1
