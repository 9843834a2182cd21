-- ===== src/Settlement/Batch/Amounts.antt =====
-- What a batch (pkg/settlement/batch.go) pays, against the accounts and ledgers on record.
use package.shinzo_scheduler_service.Base.{
  ℕ, suc, String, ◌≡◌, refl, sym, subst, none, some, List, [], ◌∷◌, ok, arith, ◌==◌, false, filter,
  if◌then◌else◌, first, Result-cases, Bool-cases, inl, inr,
}
use package.shinzo_scheduler_service.Base.Int.{ℤ}
use package.shinzo_scheduler_service.Base.Time.{Runtime}
use package.shinzo_scheduler_service.Base.Float.{Float64, IsIeee, ◌-F◌, ◌*F◌, ◌<F◌, zero_F}
use package.shinzo_scheduler_service.Store.Records.{EscrowAccountRecord, SessionLedgerRecord}
use package.shinzo_scheduler_service.Store.Db.{LawfulDb}
use package.shinzo_scheduler_service.Store.Documents.{escrow_document, ledger_document}
use package.shinzo_scheduler_service.Store.EscrowStore
use package.shinzo_scheduler_service.Store.LedgerStore
use package.shinzo_scheduler_service.Store.EscrowStore.Answers as Escrows
use package.shinzo_scheduler_service.Store.LedgerStore.Answers as Ledgers
use package.shinzo_scheduler_service.Settlement.Hub.{State}
use package.shinzo_scheduler_service.Settlement.Batch.{
  BatchProcessor, Closing, closing_of, indexer_amount, host_refund, validate_session, validate_all,
}

host_refund-nonneg :
    {F : Type 0} ⦃fl : Float64 F⦄
    → IsIeee fl
    → (escrow : EscrowAccountRecord F) (ledger : SessionLedgerRecord F)
    → (host_refund escrow ledger <F zero_F) ≡ false
unfolding host_refund
host_refund-nonneg ieee escrow ledger =
    elim (Bool-cases (escrow.initial_balance -F indexer_amount ledger <F zero_F)) [
      | inl low ↦ rw low (ieee.lt_irrefl zero_F)
      | inr high ↦ rw high high
    ]

module _ {F E L S H : Type 0} ⦃fl : Float64 F⦄ (rt : Runtime) (bp : BatchProcessor F E L S H)
    (escrows : E → List (EscrowAccountRecord F)) (ledgers : L → List (SessionLedgerRecord F))
    (lawful_e : LawfulDb escrow_document bp.escrow_st escrows)
    (lawful_l : LawfulDb ledger_document bp.ledger_st ledgers) where
  -- A session's closing: its escrow and its ledger are on record, the indexer gets the verified
  -- blocks at the ledger's price, the host what is left of the escrow and nothing negative, and
  -- message and record agree.
  abbrev pub Closes : State E L S H → String → Closing F → Type 0
  Closes s session_id c =
      (escrow : EscrowAccountRecord F) × (ledger : SessionLedgerRecord F) × (first
          (filter (λ r. r.session_id == session_id) (escrows s.escrows))
        ≡ some escrow)
      × (first (filter (λ r. r.session_id == session_id) (ledgers s.ledgers)) ≡ some ledger)
      × (c.msg.session_id ≡ session_id)
      × (c.msg.blocks_verified ≡ ledger.blocks_verified)
      × (c.msg.indexer_amount ≡ fl.of_int ledger.blocks_verified *F ledger.price_per_block)
      × (c.msg.host_refund ≡ (
          let left =
            escrow.initial_balance -F fl.of_int ledger.blocks_verified *F ledger.price_per_block in
          if left <F zero_F then zero_F else left))
      × ((c.msg.host_refund <F zero_F) ≡ false)
      × (c.rec.session_id ≡ session_id)
      × (c.rec.indexer_amount ≡ c.msg.indexer_amount)
      × (c.rec.host_refund ≡ c.msg.host_refund)

  -- One closing for each session, in the same order.
  abbrev pub ClosesAll : State E L S H → List String → List (Closing F) → Type 0
  ClosesAll s [] [] = Unit
  ClosesAll s [] (c ∷ cs) = ⊥
  ClosesAll s (session_id ∷ session_ids) [] = ⊥
  ClosesAll s (session_id ∷ session_ids) (c ∷ cs) =
      Closes s session_id c × ClosesAll s session_ids cs

  validate_session-Closes :
      (session_id close_reason batch_id uuid : String) (now : ℤ) (s : State E L S H) (c : Closing F)
      → IsIeee fl
      → validate_session rt bp session_id close_reason batch_id uuid now s ≡ ok c
      → Closes s session_id c
  unfolding validate_session indexer_amount host_refund
  validate_session-Closes session_id close_reason batch_id uuid now s c ieee h =
      elim (Result-cases (EscrowStore.get_by_session bp.escrow_st session_id s.escrows)) [
        | inr (e, q) ↦ absurd (ground arith)
        | inl (none, q) ↦ absurd (ground arith)
        | inl (some escrow, q) ↦
            elim (Result-cases (LedgerStore.get_by_session bp.ledger_st session_id s.ledgers)) [
              | inr (e, q') ↦ absurd (ground arith)
              | inl (none, q') ↦ absurd (ground arith)
              | inl (some ledger, q') ↦
                  let same : closing_of rt bp escrow ledger session_id close_reason batch_id uuid
                        now
                      ≡ c =
                    ground arith in
                  subst (Closes s session_id) same (
                    escrow,
                    ledger,
                    sym (
                        Escrows.get_by_session-ok bp.escrow_st escrows lawful_e session_id s.escrows
                          (some escrow) q),
                    sym (
                        Ledgers.get_by_session-ok bp.ledger_st ledgers lawful_l session_id s.ledgers
                          (some ledger) q'),
                    refl,
                    refl,
                    refl,
                    refl,
                    host_refund-nonneg ieee escrow ledger,
                    refl,
                    refl,
                    refl,
                  )
            ]
      ]

  -- A batch that passes the validation has one message for each of its sessions, in their order, that
  -- pays what the escrow and the ledger on record say.
  pub validate_all-ClosesAll :
      (session_ids : List String) (close_reason batch_id : String) (ids : ℕ → String) (k : ℕ)
      (now : ℤ) (s : State E L S H) (cs : List (Closing F))
      → IsIeee fl
      → validate_all rt bp session_ids close_reason batch_id ids k now s ≡ ok cs
      → ClosesAll s session_ids cs
  unfolding validate_all
  validate_all-ClosesAll [] close_reason batch_id ids k now s cs ieee h = ground arith
  validate_all-ClosesAll (session_id ∷ session_ids) close_reason batch_id ids k now s [] ieee h =
      absurd (ground arith)
  validate_all-ClosesAll (session_id ∷ session_ids) close_reason batch_id ids k now s (c ∷ cs) ieee
        h =
      (
        validate_session-Closes session_id close_reason batch_id (ids k) now s c ieee
            (ground arith),
        validate_all-ClosesAll session_ids close_reason batch_id ids (suc k) now s cs ieee
            (ground arith),
      )
