-- ===== src/Config/Loading.antt =====
-- Load and applyEnvOverrides of config/config.go. The part of the SDK, the file and its decoding, and
-- the environment are parameters.
use package.shinzo_scheduler_service.Base.{
  String, Option, none, some, Result, ok, err, ◌==◌, if◌then◌else◌,
}
use package.shinzo_scheduler_service.Base.Float.{Float64}
use package.shinzo_scheduler_service.Config.{SchedulerConfig, defaults}

-- The whole configuration, with the part of the SDK, whose type is a parameter.
pub record Config (C F : Type 0) : Type 0 where
  pub sdk : C
  pub scheduler : SchedulerConfig F

-- `os.ReadFile`, `yaml.Unmarshal` onto a configuration, `os.Getenv`, and the setting of
-- `DefraDB.KeyringSecret` in the SDK's part, which is empty at first.
pub record Sources (C F : Type 0) : Type 0 where
  pub read_file : String → Result String
  pub unmarshal : String → Config C F → Option (Config C F)
  pub getenv : String → String
  pub set_keyring_secret : String → C → C
  pub empty_sdk : C

module _ {C F : Type 0} ⦃fl : Float64 F⦄ (env : Sources C F) where
  -- What a variable of the environment says, or else the value so far.
  abbrev pub override : String → String → String
  override name value = if env.getenv name == "" then value else env.getenv name

  unfoldable pub apply_env_overrides : Config C F → Config C F
  apply_env_overrides cfg = record {
    sdk =
        if env.getenv "DEFRA_KEYRING_SECRET" == ""
        then cfg.sdk
        else env.set_keyring_secret (env.getenv "DEFRA_KEYRING_SECRET") cfg.sdk;
    scheduler = record cfg.scheduler {
      chain = override "SCHEDULER_CHAIN" cfg.scheduler.chain;
      network = override "SCHEDULER_NETWORK" cfg.scheduler.network;
    };
  }

  unfoldable pub load : String → Result (Config C F)
  load path = elim (env.read_file path) [
    | err e ↦ err "read config"
    | ok text ↦ elim (env.unmarshal text (record { sdk = env.empty_sdk; scheduler = defaults })) [
      | none ↦ err "parse config"
      | some cfg ↦ ok (apply_env_overrides cfg)
    ]
  ]
