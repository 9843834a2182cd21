-- ===== src/Settlement/Escrow/Steps.antt =====
-- How `DrainSession` (pkg/settlement/escrow.go) can end, for the proofs about it.
use package.shinzo_scheduler_service.Base.{
  String, ◌≡◌, ◌∙◌, ap, true, none, some, Result, ok, arith, ◌==◌, inl, inr, Result-cases,
  Option-cases, Bool-cases,
}
use package.shinzo_scheduler_service.Base.Int.{ℤ}
use package.shinzo_scheduler_service.Base.Time.{Runtime}
use package.shinzo_scheduler_service.Base.Float.{Float64}
use package.shinzo_scheduler_service.Store.Records.{EscrowAccountRecord, SessionLedgerRecord}
use package.shinzo_scheduler_service.Store.Status
use package.shinzo_scheduler_service.Store.EscrowStore
use package.shinzo_scheduler_service.Store.LedgerStore
use package.shinzo_scheduler_service.Settlement.Hub.{State}
use package.shinzo_scheduler_service.Settlement.Escrow.{
  EscrowManager, drained_balance, drain_fields, drain, drain_session,
}

module _ {F E L S H : Type 0} ⦃fl : Float64 F⦄ (rt : Runtime) (em : EscrowManager F E L H) where
  found_cases {ℓ} :
      (P : Result (Unit {0}) × State E L S H → Type ℓ) (session_id : String) (now : ℤ)
      (s : State E L S H) (escrow : EscrowAccountRecord F)
      → EscrowStore.get_by_session em.escrow_st session_id s.escrows ≡ ok (some escrow)
      → ((r : Result (Unit {0})) → P (r, s))
      → ((ledger : SessionLedgerRecord F)
          → EscrowStore.get_by_session em.escrow_st session_id s.escrows ≡ ok (some escrow)
          → (escrow.status == Status.active) ≡ true
          → P (drain rt em escrow ledger now s))
      → P (drain_session rt em session_id now s)
  unfolding drain_session
  found_cases P session_id now s escrow q same drained =
      elim (Bool-cases (escrow.status == Status.active)) [
        | inr closed ↦ rw (q, drain_session, closed) (same _)
        | inl active ↦
            elim (Result-cases (LedgerStore.get_by_session em.ledger_st session_id s.ledgers)) [
              | inr (e, lq) ↦ rw (q, drain_session, active, lq) (same _)
              | inl (none, lq) ↦ rw (q, drain_session, active, lq) (same _)
              | inl (some ledger, lq) ↦ rw (q, drain_session, active, lq) (drained ledger q active)
            ]
      ]

  -- The call changes nothing, or it drains the active escrow that it has found.
  pub drain_session_cases {ℓ} :
      (P : Result (Unit {0}) × State E L S H → Type ℓ) (session_id : String) (now : ℤ)
      (s : State E L S H)
      → ((r : Result (Unit {0})) → P (r, s))
      → ((escrow : EscrowAccountRecord F) (ledger : SessionLedgerRecord F)
          → EscrowStore.get_by_session em.escrow_st session_id s.escrows ≡ ok (some escrow)
          → (escrow.status == Status.active) ≡ true
          → P (drain rt em escrow ledger now s))
      → P (drain_session rt em session_id now s)
  unfolding drain_session
  drain_session_cases P session_id now s same drained =
      elim (Result-cases (EscrowStore.get_by_session em.escrow_st session_id s.escrows)) [
        | inr (e, q) ↦ rw (q, drain_session) (same _)
        | inl (found, q) ↦ elim (Option-cases found) [
          | inl e ↦ rw (q, drain_session, e) (same _)
          | inr (escrow, e) ↦
              found_cases P session_id now s escrow (q ∙ ap ok e) same (drained escrow)
        ]
      ]

  pub drain_escrows :
      (escrow : EscrowAccountRecord F) (ledger : SessionLedgerRecord F) (now : ℤ)
      (s : State E L S H)
      → (drain rt em escrow ledger now s).1.escrows
        ≡ (EscrowStore.update em.escrow_st escrow.doc_id
            (drain_fields rt em escrow (drained_balance escrow ledger) now)
            s.escrows).1
  unfolding drain
  drain_escrows escrow ledger now s = ground arith
