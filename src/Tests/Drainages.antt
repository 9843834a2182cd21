-- ===== src/Tests/Drainages.antt =====
-- The theorems on pkg/settlement/escrow.go at one account.
use package.shinzo_scheduler_service.Base.{
  ℕ, inl, [], ◌∷◌, ltb, if◌then◌else◌, ◌≡◌, refl, ◌⊎◌, true, arith, All, some, false,
}
use package.shinzo_scheduler_service.Base.Int.{pos, ◌+ℤ◌}
use package.shinzo_scheduler_service.Base.Tickers.{Signal, ticks, stopped}
use package.shinzo_scheduler_service.Base.Float.{◌≤F◌}
use package.shinzo_scheduler_service.Store.Documents.{escrow_document}
use package.shinzo_scheduler_service.Store.Status
use package.shinzo_scheduler_service.Store.EscrowStore
use package.shinzo_scheduler_service.Store.LedgerStore
use package.shinzo_scheduler_service.Settlement.Escrow.{
  drained_balance, drain, drain_session, top_up,
}
use package.shinzo_scheduler_service.Settlement.Escrow.Balances.{HasBalance, drained_balance_mono}
use package.shinzo_scheduler_service.Settlement.Hub.{State}
use package.shinzo_scheduler_service.Settlement.Escrow.Loop.{
  start_drain_loop, start_drain_loop-HasBalance,
}
use package.shinzo_scheduler_service.Settlement.Escrow.Signals.{
  on_record, drain_twice_signals_once, top_up_reactivates,
}
use package.shinzo_scheduler_service.Tests.Collections.{all_docs, list_db-LawfulDb}
use package.shinzo_scheduler_service.Tests.Numbers.{whole, whole-IsIeee}
use package.shinzo_scheduler_service.Tests.Clock.{clock, noon}
use package.shinzo_scheduler_service.Tests.Accounts.{account, verified, escrows, paid_in}

drained_balance_mono_example :
    (drained_balance account (record verified { blocks_verified = pos 12 })
      ≤F drained_balance account verified)
    ≡ true
unfolding whole
drained_balance_mono_example =
    drained_balance_mono whole-IsIeee account verified
      (record verified { blocks_verified = pos 12 }) refl refl refl (ground arith) (ground arith)
      (ground arith)

-- Two ticks, and then the end.
abbrev signals : ℕ → Signal
signals k = if ltb k 2 then ticks noon else stopped

start_drain_loop-HasBalance_example :
    (t : State _ _ _ _) × (start_drain_loop clock escrows signals 3 paid_in ≡ some t)
    × All HasBalance t.escrows
unfolding whole
start_drain_loop-HasBalance_example =
    start_drain_loop-HasBalance clock escrows all_docs (list_db-LawfulDb escrow_document) signals
      (noon ∷ noon ∷ []) 3 paid_in whole-IsIeee (refl, (refl, inl refl)) (omega arith) (refl, tt)

drain_twice_signals_once_example :
    let s1 = (drain_session clock escrows "session" noon paid_in).1 in
    let s2 = (drain_session clock escrows "session" (pos 0) s1).1 in
    (s1.hub ≡ paid_in.hub) ⊎ (s2.hub ≡ s1.hub)
unfolding drain_session EscrowStore.get_by_session LedgerStore.get_by_session drain
    EscrowStore.update
drain_twice_signals_once_example =
    drain_twice_signals_once clock escrows all_docs (list_db-LawfulDb escrow_document) "session"
      noon (pos 0) paid_in refl

top_up_reactivates_example :
    on_record all_docs "session" (top_up clock escrows "session" (pos 50) noon paid_in).1.escrows
    ≡ some (record account {
      initial_balance = pos 150;
      current_balance = pos 150;
      low_credit_signaled = false;
      grace_period_ends_at = "";
      status = Status.active;
      updated_at = clock.format_time noon;
    })
unfolding whole top_up EscrowStore.get_by_session EscrowStore.update ◌+ℤ◌
top_up_reactivates_example =
    top_up_reactivates clock escrows all_docs (list_db-LawfulDb escrow_document) "session" (pos 50)
      noon paid_in account refl refl
