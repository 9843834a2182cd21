-- ===== src/Probe/Prober/Loop.antt =====
-- The loop of pkg/probe/prober.go.
use package.shinzo_scheduler_service.Base.{ℕ, Option}
use package.shinzo_scheduler_service.Base.Int.{ℤ}
use package.shinzo_scheduler_service.Base.Time.{Runtime, seconds}
use package.shinzo_scheduler_service.Base.Float.{Float64}
use package.shinzo_scheduler_service.Base.Tickers.{Signal, ticker_loop}
use package.shinzo_scheduler_service.Store.Records.{IndexerRecord}
use package.shinzo_scheduler_service.Probe.Prober.{Prober, State, probe_all}

module _ {F D P C K S : Type 0} ⦃fl : Float64 F⦄ (rt : Runtime) (p : Prober F D P C K S) where
  abbrev pub probe_interval : ℤ
  probe_interval = seconds p.cfg.interval_seconds

  -- The times of the probes of each round are arguments.
  unfoldable pub start :
      (ℕ → IndexerRecord F → ℤ × ℤ) → (ℕ → Signal) → ℕ → State D P C → Option (State D P C)
  start times signals fuel s = ticker_loop (λ k now s. probe_all rt p (times k) s) signals fuel s
