-- ===== src/Accounting/Rounds/Loop.antt =====
-- The comparison loop of pkg/accounting/manager.go.
use package.shinzo_scheduler_service.Base.{ℕ, String, Option, List}
use package.shinzo_scheduler_service.Base.Int.{ℤ, pos}
use package.shinzo_scheduler_service.Base.Time.{Runtime}
use package.shinzo_scheduler_service.Base.Float.{Float64}
use package.shinzo_scheduler_service.Base.Tickers.{Signal, interval_or, ticker_loop}
use package.shinzo_scheduler_service.Accounting.Manager.{Manager, State}
use package.shinzo_scheduler_service.Accounting.Rounds.{Key, run_comparisons}

module _ {F C A L P E : Type 0} ⦃fl : Float64 F⦄ (rt : Runtime) (m : Manager F C A L P E) where
  abbrev pub comparison_interval : ℤ
  comparison_interval = interval_or (pos 30) m.cfg.comparison_interval_seconds

  -- The order in which each round iterates its map, and the ids that it makes, are arguments.
  unfoldable pub start_comparison_loop :
      (ℕ → List String → List String)
      → (ℕ → Key → String)
      → (ℕ → Signal)
      → ℕ
      → State C A L P E
      → Option (State C A L P E)
  start_comparison_loop order uuid signals fuel s =
      ticker_loop (λ k now s. run_comparisons rt m (order k) (uuid k) now s) signals fuel s
