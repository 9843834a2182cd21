-- ===== src/Base/Tickers.antt =====
-- The loops that run a round on each tick, until they are stopped or their context is cancelled.
use package.shinzo_scheduler_service.Base.{
  ℕ, suc, ◌+◌, ◌<◌, ◌≡◌, ap, ◌⊎◌, inl, inr, some, Option, subst, arith, true, if◌then◌else◌, List,
  [], ◌∷◌, length,
}
use package.shinzo_scheduler_service.Base.Int.{ℤ, pos, leb_ℤ, ltb_ℤ}
use package.shinzo_scheduler_service.Base.Time.{seconds}
use package.shinzo_scheduler_service.Base.Loops.{
  Pass, goes_on, returns, loop, GoesOn, here, there, loop-returns,
}

-- What a `select` of such a loop finds: a tick, with its time, a closed `stopCh`, or the end of the
-- context. The k-th pass finds the k-th signal.
pub data Signal : Type 0 where
  ticks : ℤ → Signal
  stopped : Signal
  cancelled : Signal

abbrev pub Ends : Signal → Type 0
Ends x = (x ≡ stopped) ⊎ (x ≡ cancelled)

-- The interval of a ticker from a number of seconds, or a default number where that gives none.
-- `time.NewTicker` panics unless it is positive.
unfoldable pub interval_or : ℤ → ℤ → ℤ
interval_or default n =
    let interval = seconds n in if leb_ℤ interval (pos 0) then seconds default else interval

pub interval_or-positive :
    (default n : ℤ)
    → ltb_ℤ (pos 0) (seconds default) ≡ true
    → ltb_ℤ (pos 0) (interval_or default n) ≡ true
unfolding interval_or
interval_or-positive default n h = ground (arith, h)

module _ (signals : ℕ → Signal) where
  -- The signals from the k-th on are ticks at these times, and then an end.
  abbrev pub TicksThenEnds : ℕ → List ℤ → Type 0
  TicksThenEnds k [] = Ends (signals k)
  TicksThenEnds k (now ∷ times) = (signals k ≡ ticks now) × TicksThenEnds (suc k) times

module _ {S : Type 0} (round : ℕ → ℤ → S → S) (signals : ℕ → Signal) where
  abbrev on_signal : ℕ → Signal → S → Pass S S
  on_signal k (ticks now) s = goes_on (round k now s)
  on_signal k stopped s = returns s
  on_signal k cancelled s = returns s

  unfoldable pub ticker_loop : ℕ → S → Option S
  ticker_loop fuel s = loop (λ k s. on_signal k (signals k) s) fuel 0 s

  -- The rounds of the passes from the k-th on, at these times.
  unfoldable pub rounds : ℕ → List ℤ → S → S
  rounds k [] s = s
  rounds k (now ∷ times) s = rounds (suc k) times (round k now s)

  rounds-GoesOn :
      (k : ℕ) (times : List ℤ) (s : S)
      → TicksThenEnds signals k times
      → GoesOn (λ k s. on_signal k (signals k) s) (length times) k s (rounds k times s)
  unfolding rounds
  rounds-GoesOn k [] s h = here k s
  rounds-GoesOn k (now ∷ times) s (tick, rest) =
      there _ k s (round k now s) _ (ap (λ x. on_signal k x s) tick)
        (rounds-GoesOn (suc k) times _ rest)

  signal-returns : (k : ℕ) (s : S) → Ends (signals k) → on_signal k (signals k) s ≡ returns s
  signal-returns k s (inl e) = ap (λ x. on_signal k x s) e
  signal-returns k s (inr e) = ap (λ x. on_signal k x s) e

  last_signal :
      (k : ℕ) (times : List ℤ) → TicksThenEnds signals k times → Ends (signals (k + length times))
  last_signal k [] h = subst (λ j. Ends (signals j)) (omega arith) h
  last_signal k (now ∷ times) (tick, rest) =
      subst (λ j. Ends (signals j)) (omega arith) (last_signal (suc k) times rest)

  -- A loop that finds ticks and then an end runs the rounds of the ticks and returns.
  pub ticker_loop-returns :
      (times : List ℤ) (fuel : ℕ) (s : S)
      → TicksThenEnds signals 0 times
      → length times < fuel
      → ticker_loop fuel s ≡ some (rounds 0 times s)
  unfolding ticker_loop
  ticker_loop-returns times fuel s h enough =
      loop-returns _ (length times) 0 fuel s _ _ enough (rounds-GoesOn 0 times s h)
        (signal-returns _ _ (last_signal 0 times h))

  -- What every round keeps holds after all of them.
  pub rounds-keep :
      (P : S → Type 0)
      → ((k : ℕ) (now : ℤ) (s : S) → P s → P (round k now s))
      → (k : ℕ) (times : List ℤ) (s : S) → P s
      → P (rounds k times s)
  unfolding rounds
  rounds-keep P keep k [] s h = h
  rounds-keep P keep k (now ∷ times) s h = rounds-keep P keep (suc k) times _ (keep k now s h)
