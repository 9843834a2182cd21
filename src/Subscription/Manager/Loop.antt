-- ===== src/Subscription/Manager/Loop.antt =====
-- The expiry loop of pkg/subscription/manager.go.
use package.shinzo_scheduler_service.Base.{
  ℕ, suc, ◌<◌, ◌≡◌, refl, ap, ◌∙◌, some, Option, List, [], ◌∷◌, length, map,
}
use package.shinzo_scheduler_service.Base.Int.{ℤ}
use package.shinzo_scheduler_service.Base.Time.{Runtime}
use package.shinzo_scheduler_service.Base.Float.{Float64}
use package.shinzo_scheduler_service.Base.Tickers.{
  Signal, TicksThenEnds, ticker_loop, rounds, ticker_loop-returns,
}
use package.shinzo_scheduler_service.Subscription.Manager.{Manager, State, expire_overdue}
use package.shinzo_scheduler_service.Subscription.Manager.Runs.{expires, run, run_all}

module _ {F D I M : Type 0} ⦃fl : Float64 F⦄ (rt : Runtime) (m : Manager F D I M) where
  -- A tick comes each minute.
  unfoldable pub start_expiry_loop : (ℕ → Signal) → ℕ → State D I M → Option (State D I M)
  start_expiry_loop signals fuel s =
      ticker_loop (λ k now s. expire_overdue rt m now s) signals fuel s

  expiries :
      (signals : ℕ → Signal) (k : ℕ) (times : List ℤ) (s : State D I M)
      → rounds (λ k now s. expire_overdue rt m now s) signals k times s
        ≡ run_all rt m (map (λ now. expires now) times) s
  unfolding rounds run_all run
  expiries signals k [] s = refl
  expiries signals k (now ∷ times) s = expiries signals (suc k) times (expire_overdue rt m now s)

  -- An expiry loop that finds ticks at these times and then is stopped or cancelled ends, and has
  -- done what one call of the expiry at each of these times does.
  pub start_expiry_loop-run_all :
      (signals : ℕ → Signal) (times : List ℤ) (fuel : ℕ) (s : State D I M)
      → TicksThenEnds signals 0 times
      → length times < fuel
      → start_expiry_loop signals fuel s ≡ some (run_all rt m (map (λ now. expires now) times) s)
  unfolding start_expiry_loop
  start_expiry_loop-run_all signals times fuel s ends enough =
      ticker_loop-returns (λ k now s. expire_overdue rt m now s) signals times fuel s ends enough
      ∙ ap some (expiries signals 0 times s)
