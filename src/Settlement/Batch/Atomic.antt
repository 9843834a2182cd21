-- ===== src/Settlement/Batch/Atomic.antt =====
-- What a batch (pkg/settlement/batch.go) leaves when it fails, and when it succeeds.
use package.shinzo_scheduler_service.Base.{
  ℕ, String, ◌≡◌, refl, ◌⊎◌, none, some, List, [], ◌∷◌, map, ok, err, arith, Result-cases, inl, inr,
}
use package.shinzo_scheduler_service.Base.Int.{ℤ}
use package.shinzo_scheduler_service.Base.Time.{Runtime}
use package.shinzo_scheduler_service.Base.Float.{Float64, IsIeee}
use package.shinzo_scheduler_service.Store.Records.{EscrowAccountRecord, SessionLedgerRecord}
use package.shinzo_scheduler_service.Store.Db.{LawfulDb}
use package.shinzo_scheduler_service.Store.Documents.{escrow_document, ledger_document}
use package.shinzo_scheduler_service.Store.EscrowStore
use package.shinzo_scheduler_service.Settlement.Hub.{MsgBatchSettlement, State}
use package.shinzo_scheduler_service.Settlement.Batch.Amounts.{ClosesAll, validate_all-ClosesAll}
use package.shinzo_scheduler_service.Settlement.Batch.{
  BatchProcessor, Closing, validate_all, record_all, mark_settled, mark_all, process_batch,
}

module _ {F E L S H : Type 0} ⦃fl : Float64 F⦄ (rt : Runtime) (bp : BatchProcessor F E L S H) where
  -- Marking the escrows concerns these only.
  mark_settled-frame :
      (session_id : String) (now : ℤ) (s : State E L S H)
      → let t = mark_settled rt bp session_id now s in
        (t.settlements ≡ s.settlements) × (t.hub ≡ s.hub)
  unfolding mark_settled
  mark_settled-frame session_id now s =
      elim (Result-cases (EscrowStore.get_by_session bp.escrow_st session_id s.escrows)) [
        | inr (e, q) ↦ ground arith
        | inl (none, q) ↦ ground arith
        | inl (some escrow, q) ↦ ground arith
      ]

  pub mark_all-frame :
      (session_ids : List String) (now : ℤ) (s : State E L S H)
      → let t = mark_all rt bp session_ids now s in
        (t.0 ≡ ok tt) × (t.1.settlements ≡ s.settlements) × (t.1.hub ≡ s.hub)
  unfolding mark_all
  mark_all-frame [] now s = (refl, refl, refl)
  mark_all-frame (session_id ∷ session_ids) now s = ground (
    arith,
    mark_all-frame session_ids now (mark_settled rt bp session_id now s),
    mark_settled-frame session_id now s,
  )

  -- Writing the records does not fail, and does not reach the hub.
  record_all-frame :
      (tx_hash : String) (cs : List (Closing F)) (s : State E L S H)
      → let t = record_all rt bp tx_hash cs s in (t.0 ≡ ok tt) × (t.1.hub ≡ s.hub)
  unfolding record_all
  record_all-frame tx_hash [] s = (refl, refl)
  record_all-frame tx_hash (c ∷ cs) s = record_all-frame tx_hash cs _

  -- A batch goes through: its sessions' messages were sent, all in one message.
  abbrev pub Sent : String → State E L S H → State E L S H → List (Closing F) → Type 0
  Sent batch_id s t cs =
      (tx_hash : String) × (bp.hub.broadcast_batch_settlement
          (record { batch_id = batch_id; sessions = map (λ c. c.msg) cs }) s.hub
        ≡ (ok tx_hash, t.hub))

  -- A batch fails: nothing was written.
  abbrev pub Unwritten : State E L S H → State E L S H → Type 0
  Unwritten s t =
      (t.escrows ≡ s.escrows) × (t.ledgers ≡ s.ledgers) × (t.settlements ≡ s.settlements)

module _ {F E L S H : Type 0} ⦃fl : Float64 F⦄ (rt : Runtime) (bp : BatchProcessor F E L S H)
    (escrows : E → List (EscrowAccountRecord F)) (ledgers : L → List (SessionLedgerRecord F))
    (lawful_e : LawfulDb escrow_document bp.escrow_st escrows)
    (lawful_l : LawfulDb ledger_document bp.ledger_st ledgers) where
  -- A batch either succeeds, and then the hub has got one message, which closes each of its sessions,
  -- in their order, for what the escrow and the ledger on record say; or it fails, and then no
  -- escrow, ledger or settlement has changed.
  pub process_batch_atomic :
      (session_id : String) (session_ids : List String) (close_reason batch_id : String)
      (ids : ℕ → String) (now : ℤ) (s : State E L S H)
      → IsIeee fl
      → let t = process_batch rt bp (session_id ∷ session_ids) close_reason batch_id ids now s in
        ((t.0 ≡ ok tt)
          × ((cs : List (Closing F)) × ClosesAll rt bp escrows ledgers lawful_e lawful_l s
                (session_id ∷ session_ids)
                cs
              × Sent rt bp batch_id s t.1 cs))
        ⊎ ((e : String) × (t.0 ≡ err e) × Unwritten rt bp s t.1)
  unfolding process_batch
  process_batch_atomic session_id session_ids close_reason batch_id ids now s ieee =
      elim (Result-cases
        (validate_all rt bp (session_id ∷ session_ids) close_reason batch_id ids 0 now s)) [
          | inr (e, q) ↦ inr (e, ground arith, (ground arith, ground arith, ground arith))
          | inl (cs, q) ↦
              let msg : MsgBatchSettlement F = record {
                batch_id = batch_id;
                sessions = map (λ c. c.msg) cs;
              } in
              let sent = bp.hub.broadcast_batch_settlement msg s.hub in
              elim (Result-cases sent.0) [
                | inr (e, q') ↦ inr (e, ground arith, (ground arith, ground arith, ground arith))
                | inl (tx_hash, q') ↦
                    let recorded = record_all-frame rt bp tx_hash cs (record s { hub = sent.1 }) in
                    let marked =
                      mark_all-frame rt bp (session_id ∷ session_ids) now
                        (record_all rt bp tx_hash cs (record s { hub = sent.1 })).1 in
                    inl (
                      ground (arith, recorded, marked),
                      (
                        cs,
                        validate_all-ClosesAll rt bp escrows ledgers lawful_e lawful_l
                            (session_id ∷ session_ids) close_reason batch_id ids 0 now s cs ieee q,
                        (tx_hash, ground (arith, recorded, marked)),
                      ),
                    )
              ]
        ]
