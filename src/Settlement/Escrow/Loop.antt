-- ===== src/Settlement/Escrow/Loop.antt =====
-- The drain loop of pkg/settlement/escrow.go.
use package.shinzo_scheduler_service.Base.{ℕ, ◌<◌, ◌≡◌, some, Option, List, length, All}
use package.shinzo_scheduler_service.Base.Int.{ℤ, pos}
use package.shinzo_scheduler_service.Base.Time.{Runtime}
use package.shinzo_scheduler_service.Base.Float.{Float64, IsIeee}
use package.shinzo_scheduler_service.Base.Tickers.{
  Signal, TicksThenEnds, interval_or, ticker_loop, rounds, ticker_loop-returns, rounds-keep,
}
use package.shinzo_scheduler_service.Store.Records.{EscrowAccountRecord}
use package.shinzo_scheduler_service.Store.Db.{LawfulDb}
use package.shinzo_scheduler_service.Store.Documents.{escrow_document}
use package.shinzo_scheduler_service.Settlement.Hub.{State}
use package.shinzo_scheduler_service.Settlement.Escrow.{EscrowManager, drain_all}
use package.shinzo_scheduler_service.Settlement.Escrow.Balances.{HasBalance, drain_all-HasBalance}

module _ {F E L H : Type 0} (em : EscrowManager F E L H) where
  abbrev pub drain_interval : ℤ
  drain_interval = interval_or (pos 60) em.cfg.drain_interval_seconds

module _ {F E L S H : Type 0} ⦃fl : Float64 F⦄ (rt : Runtime) (em : EscrowManager F E L H) where
  unfoldable pub start_drain_loop : (ℕ → Signal) → ℕ → State E L S H → Option (State E L S H)
  start_drain_loop signals fuel s = ticker_loop (λ k now s. drain_all rt em now s) signals fuel s

module _ {F E L S H : Type 0} ⦃fl : Float64 F⦄ (rt : Runtime) (em : EscrowManager F E L H)
    (docs : E → List (EscrowAccountRecord F))
    (lawful : LawfulDb escrow_document em.escrow_st docs) where
  -- A drain loop that finds ticks, however many, and then is stopped or cancelled ends, and if no
  -- account had a negative balance before, none has one after its rounds.
  pub start_drain_loop-HasBalance :
      (signals : ℕ → Signal) (times : List ℤ) (fuel : ℕ) (s : State E L S H)
      → IsIeee fl
      → TicksThenEnds signals 0 times
      → length times < fuel
      → All HasBalance (docs s.escrows)
      → (t : State E L S H) × (start_drain_loop rt em signals fuel s ≡ some t)
        × All HasBalance (docs t.escrows)
  unfolding start_drain_loop
  start_drain_loop-HasBalance signals times fuel s ieee ends enough h =
      let round = λ (k : ℕ) (now : ℤ) (s : State E L S H). drain_all rt em now s in
      (
        rounds round signals 0 times s,
        ticker_loop-returns round signals times fuel s ends enough,
        rounds-keep round signals (λ t. All HasBalance (docs t.escrows))
            (λ k now t b. drain_all-HasBalance rt em docs lawful now t ieee b) 0 times s h,
      )
