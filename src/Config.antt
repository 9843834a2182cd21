-- ===== src/Config.antt =====
-- config/config.go: the scheduler's part of the configuration, its defaults and its validation.
pub mod Validation
pub mod Loading
use package.shinzo_scheduler_service.Base.{
  String, Bool, true, false, ◌&&◌, ◌||◌, List, [], Result, ok, err, Action, ◌>>=◌, ◌>>◌, fail_if,
  pure, ◌==◌, if◌then◌else◌,
}
use package.shinzo_scheduler_service.Base.Int.{ℤ, pos, leb_ℤ, ltb_ℤ}
use package.shinzo_scheduler_service.Base.Float.{Float64, zero_F}
use package.shinzo_scheduler_service.Accounting.Manager.{AccountingConfig}
use package.shinzo_scheduler_service.Settlement.Hub.{SettlementConfig}

pub record ServerConfig : Type 0 where
  pub port : ℤ
  pub read_timeout_seconds : ℤ
  pub write_timeout_seconds : ℤ

pub record ProbeConfig : Type 0 where
  pub interval_seconds : ℤ
  pub timeout_seconds : ℤ
  pub tip_lag_threshold : ℤ
  pub tip_exclusion_threshold : ℤ
  pub staleness_window_seconds : ℤ
  pub inactive_after_minutes : ℤ
  pub probe_history_limit : ℤ
  pub max_concurrent_probes : ℤ
  pub heartbeat_interval_seconds : ℤ

pub record ShinzoHubConfig : Type 0 where
  pub enabled : Bool
  pub rpc_url : String
  pub epoch_size : ℤ

pub record PricingConfig (F : Type 0) : Type 0 where
  pub floor_tip_per_1k_blocks : F
  pub floor_snapshot_per_range : F

pub record DiversityConfig : Type 0 where
  pub enabled : Bool
  pub recency_window_hours : ℤ

pub record BootstrapIndexer : Type 0 where
  pub peer_id : String
  pub http_url : String
  pub multiaddr : String

pub record SchedulerConfig (F : Type 0) : Type 0 where
  pub chain : String
  pub network : String
  pub server : ServerConfig
  pub probe : ProbeConfig
  pub shinzohub : ShinzoHubConfig
  pub pricing : PricingConfig F
  pub bootstrap : List BootstrapIndexer
  pub diversity : DiversityConfig
  pub accounting : AccountingConfig
  pub settlement : SettlementConfig F

-- `n <= 0`
abbrev not_positive : ℤ → Bool
not_positive n = leb_ℤ n (pos 0)

unfoldable pub validate_accounting : AccountingConfig → Result (Unit {0})
validate_accounting a =
    if not_positive a.comparison_interval_seconds
    then err "scheduler.accounting.comparison_interval_seconds must be > 0"
    else if not_positive a.attestation_window_seconds
    then err "scheduler.accounting.attestation_window_seconds must be > 0"
    else ok tt

module _ {F : Type 0} ⦃fl : Float64 F⦄ where
  unfoldable pub defaults : SchedulerConfig F
  defaults = record {
    chain = "";
    network = "";
    server = record {
      port = pos 8090;
      read_timeout_seconds = pos 30;
      write_timeout_seconds = pos 30;
    };
    probe = record {
      interval_seconds = pos 60;
      timeout_seconds = pos 5;
      tip_lag_threshold = pos 10;
      tip_exclusion_threshold = pos 50;
      staleness_window_seconds = pos 120;
      inactive_after_minutes = pos 10;
      probe_history_limit = pos 200;
      max_concurrent_probes = pos 20;
      heartbeat_interval_seconds = pos 30;
    };
    shinzohub = record {
      enabled = false;
      rpc_url = "rpc.devnet.shinzo.network:26657";
      epoch_size = pos 0;
    };
    pricing = record { floor_tip_per_1k_blocks = zero_F; floor_snapshot_per_range = zero_F };
    bootstrap = [];
    diversity = record { enabled = true; recency_window_hours = pos 24 };
    accounting = record {
      enabled = false;
      comparison_interval_seconds = pos 30;
      attestation_window_seconds = pos 300;
      under_report_grace_seconds = pos 600;
    };
    settlement = record {
      enabled = false;
      drain_interval_seconds = pos 60;
      low_credit_multiplier = fl.tenths 20;
      grace_period_seconds = pos 3600;
      settlement_window_blocks = pos 100;
      verdict_threshold_m = pos 1;
      verdict_threshold_n = pos 1;
      scheduler_key_path = "";
      contradiction_threshold = pos 3;
      contradiction_check_interval_seconds = pos 300;
    };
  }

  unfoldable pub validate_settlement : SettlementConfig F → Result (Unit {0})
  validate_settlement s =
      if not_positive s.drain_interval_seconds
      then err "scheduler.settlement.drain_interval_seconds must be > 0"
      else if not_positive s.grace_period_seconds
      then err "scheduler.settlement.grace_period_seconds must be > 0"
      else if not_positive s.verdict_threshold_m
      then err "scheduler.settlement.verdict_threshold_m must be > 0"
      else if not_positive s.verdict_threshold_n
      then err "scheduler.settlement.verdict_threshold_n must be > 0"
      else if ltb_ℤ s.verdict_threshold_n s.verdict_threshold_m
      then err "scheduler.settlement.verdict_threshold_m must be <= verdict_threshold_n"
      else if not_positive s.contradiction_threshold
      then err "scheduler.settlement.contradiction_threshold must be > 0"
      else if not_positive s.contradiction_check_interval_seconds
      then err "scheduler.settlement.contradiction_check_interval_seconds must be > 0"
      else ok tt

  -- The checks of what is always in use.
  unfoldable pub validate_scheduler : SchedulerConfig F → Result (Unit {0})
  validate_scheduler s =
      if s.chain == ""
      then err "scheduler.chain must not be empty"
      else if s.network == ""
      then err "scheduler.network must not be empty"
      else if not_positive s.server.port || ltb_ℤ (pos 65535) s.server.port
      then err "scheduler.server.port must be in range 1-65535"
      else if not_positive s.probe.interval_seconds
      then err "scheduler.probe.interval_seconds must be > 0"
      else if not_positive s.probe.timeout_seconds
      then err "scheduler.probe.timeout_seconds must be > 0"
      else if not_positive s.probe.max_concurrent_probes
      then err "scheduler.probe.max_concurrent_probes must be > 0"
      else if not_positive s.probe.heartbeat_interval_seconds
      then err "scheduler.probe.heartbeat_interval_seconds must be > 0"
      else if s.shinzohub.enabled && s.shinzohub.rpc_url == ""
      then err "scheduler.shinzohub.rpc_url must not be empty when shinzohub is enabled"
      else ok tt

  unfoldable pub validate : SchedulerConfig F → Result (Unit {0})
  validate s = elim (validate_scheduler s) [
    | err e ↦ err e
    | ok done ↦ elim (if s.accounting.enabled then validate_accounting s.accounting else ok tt) [
      | err e ↦ err e
      | ok done ↦ if s.settlement.enabled then validate_settlement s.settlement else ok tt
    ]
  ]
