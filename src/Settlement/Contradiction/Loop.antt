-- ===== src/Settlement/Contradiction/Loop.antt =====
-- The loop of pkg/settlement/contradiction.go.
use package.shinzo_scheduler_service.Base.{ℕ, String, Option, List}
use package.shinzo_scheduler_service.Base.Int.{ℤ, pos}
use package.shinzo_scheduler_service.Base.Time.{Runtime}
use package.shinzo_scheduler_service.Base.Tickers.{Signal, interval_or, ticker_loop}
use package.shinzo_scheduler_service.Settlement.Contradiction.{
  ContradictionAggregator, Evidence, check_and_slash,
}

module _ {F D H : Type 0} (rt : Runtime) (ca : ContradictionAggregator F D H) where
  abbrev pub check_interval : ℤ
  check_interval = interval_or (pos 300) ca.cfg.contradiction_check_interval_seconds

  -- The order in which each round iterates its map is an argument.
  unfoldable pub start :
      (ℕ → List String → List String) → (ℕ → Signal) → ℕ → Evidence D H → Option (Evidence D H)
  start order signals fuel s =
      ticker_loop (λ k now s. check_and_slash rt ca (order k) s) signals fuel s
