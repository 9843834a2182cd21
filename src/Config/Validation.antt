-- ===== src/Config/Validation.antt =====
-- Which configurations pass (config/config.go).
use package.shinzo_scheduler_service.Base.{
  ◌≡◌, ◌≢◌, ◌↔◌, ◌⊎◌, refl, Bool, true, false, Result, ok, arith, eq_iff, Bool-cases, inl, inr,
  if◌then◌else◌,
}
use package.shinzo_scheduler_service.Base.Int.{ℤ, pos, ◌≤ℤ◌, ◌<ℤ◌}
use package.shinzo_scheduler_service.Base.Float.{Float64}
use package.shinzo_scheduler_service.Accounting.Manager.{AccountingConfig}
use package.shinzo_scheduler_service.Settlement.Hub.{SettlementConfig}
use package.shinzo_scheduler_service.Config.{
  SchedulerConfig, validate_accounting, validate_settlement, validate_scheduler, validate,
}

abbrev pub Positive : ℤ → Type 0
Positive n = pos 0 <ℤ n

abbrev pub IsAccounting : AccountingConfig → Type 0
IsAccounting a = Positive a.comparison_interval_seconds × Positive a.attestation_window_seconds

validate_accounting-IsAccounting :
    (a : AccountingConfig) → (validate_accounting a ≡ ok tt) ↔ IsAccounting a
unfolding validate_accounting
validate_accounting-IsAccounting a = (λ h. ground arith, λ h. ground arith)

chosen-ok : (b : Bool) (r : Result (Unit {0})) → r ≡ ok tt → (if b then r else ok tt) ≡ ok tt
chosen-ok true r h = h
chosen-ok false r h = refl

module _ {F : Type 0} ⦃fl : Float64 F⦄ where
  -- The M-of-N threshold can be met: 0 < M and M at most N.
  abbrev pub IsSettlement : SettlementConfig F → Type 0
  IsSettlement s =
      Positive s.drain_interval_seconds
      × Positive s.grace_period_seconds
      × Positive s.verdict_threshold_m
      × (s.verdict_threshold_m ≤ℤ s.verdict_threshold_n)
      × Positive s.contradiction_threshold
      × Positive s.contradiction_check_interval_seconds

  abbrev pub IsScheduler : SchedulerConfig F → Type 0
  IsScheduler s =
      (s.chain ≢ "")
      × (s.network ≢ "")
      × (Positive s.server.port × (s.server.port ≤ℤ pos 65535))
      × Positive s.probe.interval_seconds
      × Positive s.probe.timeout_seconds
      × Positive s.probe.max_concurrent_probes
      × Positive s.probe.heartbeat_interval_seconds
      × ((s.shinzohub.enabled ≡ false) ⊎ (s.shinzohub.rpc_url ≢ ""))

  abbrev pub IsConfig : SchedulerConfig F → Type 0
  IsConfig s =
      IsScheduler s
      × ((s.accounting.enabled ≡ false) ⊎ IsAccounting s.accounting)
      × ((s.settlement.enabled ≡ false) ⊎ IsSettlement s.settlement)

  validate_settlement-IsSettlement :
      (s : SettlementConfig F) → (validate_settlement s ≡ ok tt) ↔ IsSettlement s
  unfolding validate_settlement
  validate_settlement-IsSettlement s = (λ h. ground arith, λ h. ground arith)

  validate_scheduler-IsScheduler :
      (s : SchedulerConfig F) → (validate_scheduler s ≡ ok tt) ↔ IsScheduler s
  unfolding validate_scheduler
  validate_scheduler-IsScheduler s =
      let chain = eq_iff s.chain "" in
      let network = eq_iff s.network "" in
      let url = eq_iff s.shinzohub.rpc_url "" in
      (λ h. ground (arith, chain, network, url), λ h. ground (arith, chain, network, url))

  validate-first : (s : SchedulerConfig F) → validate s ≡ ok tt → validate_scheduler s ≡ ok tt
  unfolding validate
  validate-first s h = ground arith

  validate-second :
      (s : SchedulerConfig F)
      → validate s ≡ ok tt
      → s.accounting.enabled ≡ true
      → validate_accounting s.accounting ≡ ok tt
  unfolding validate
  validate-second s h on = ground arith

  validate-third :
      (s : SchedulerConfig F)
      → validate s ≡ ok tt
      → s.settlement.enabled ≡ true
      → validate_settlement s.settlement ≡ ok tt
  unfolding validate
  validate-third s h on = ground arith

  validate-all :
      (s : SchedulerConfig F)
      → validate_scheduler s ≡ ok tt
      → (if s.accounting.enabled then validate_accounting s.accounting else ok tt) ≡ ok tt
      → (if s.settlement.enabled then validate_settlement s.settlement else ok tt) ≡ ok tt
      → validate s ≡ ok tt
  unfolding validate
  validate-all s base acct settle = ground (arith, base, acct, settle)

  -- The validation passes exactly the configurations that name a chain and a network, keep the port
  -- and the intervals in range, and fill in whatever of the hub, the accounting and the settlement
  -- is enabled.
  pub validate-IsConfig : (s : SchedulerConfig F) → (validate s ≡ ok tt) ↔ IsConfig s
  unfolding validate
  validate-IsConfig s =
      let scheduler = validate_scheduler-IsScheduler s in
      let accounting = validate_accounting-IsAccounting s.accounting in
      let settlement = validate_settlement-IsSettlement s.settlement in
      (
        λ h. (
          scheduler.0 (validate-first s h),
          elim (Bool-cases s.accounting.enabled) [
            | inl on ↦ inr (accounting.0 (validate-second s h on))
            | inr off ↦ inl off
          ],
          elim (Bool-cases s.settlement.enabled) [
            | inl on ↦ inr (settlement.0 (validate-third s h on))
            | inr off ↦ inl off
          ],
        ),
        λ (base, acct, settle).
            validate-all s (scheduler.1 base)
              (elim acct [ inl off ↦ rw off refl | inr good ↦ chosen-ok _ _ (accounting.1 good) ])
              (elim settle [
                | inl off ↦ rw off refl
                | inr good ↦ chosen-ok _ _ (settlement.1 good)
              ]),
      )
