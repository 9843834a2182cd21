-- ===== src/Settlement/Batch/Records.antt =====
-- The settlement records that a batch (pkg/settlement/batch.go) leaves.
use mathlib.Core.List.{append-nil}
use package.shinzo_scheduler_service.Base.{
  ℕ, suc, String, ◌≡◌, refl, sym, ◌∙◌, ap, ◌⊎◌, map, List, [], ◌∷◌, ◌++◌, ok, arith, All,
  Result-cases, inl, inr,
}
use package.shinzo_scheduler_service.Base.Int.{ℤ}
use package.shinzo_scheduler_service.Base.Time.{Runtime}
use package.shinzo_scheduler_service.Base.Float.{Float64}
use package.shinzo_scheduler_service.Store.Records.{SettlementRecord}
use package.shinzo_scheduler_service.Store.Db.{LawfulDb}
use package.shinzo_scheduler_service.Store.Status
use package.shinzo_scheduler_service.Store.Documents.{settlement_document}
use package.shinzo_scheduler_service.Store.SettlementStore
use package.shinzo_scheduler_service.Store.SettlementStore.Answers.{create_docs}
use package.shinzo_scheduler_service.Settlement.Hub.{State, on_settlements}
use package.shinzo_scheduler_service.Settlement.Batch.{
  BatchProcessor, Closing, validate_session, validate_all, settled_record, record_all,
  process_batch,
}
use package.shinzo_scheduler_service.Settlement.Batch.Atomic.{mark_all-frame}

-- `ys` is `xs` with elements after it that have the property.
abbrev pub Appended : {A : Type 0} → (A → Type 0) → List A → List A → Type 0
Appended {A} P xs ys = (zs : List A) × (ys ≡ xs ++ zs) × All P zs

append_one_more :
    {A : Type 0} (xs : List A) (y : A) (zs : List A) → (xs ++ y ∷ []) ++ zs ≡ xs ++ y ∷ zs
append_one_more [] y zs = refl
append_one_more (x ∷ xs) y zs = ap (λ ws. x ∷ ws) (append_one_more xs y zs)

module _ {F : Type 0} where
  -- A record of the batch that is settled.
  abbrev pub Settled : String → SettlementRecord F → Type 0
  Settled batch_id r = (r.batch_id ≡ batch_id) × (r.status ≡ Status.active)

  abbrev OfBatch : String → Closing F → Type 0
  OfBatch batch_id c = c.rec.batch_id ≡ batch_id

module _ {F E L S H : Type 0} ⦃fl : Float64 F⦄ (rt : Runtime) (bp : BatchProcessor F E L S H) where
  validate_session-OfBatch :
      (session_id close_reason batch_id uuid : String) (now : ℤ) (s : State E L S H) (c : Closing F)
      → validate_session rt bp session_id close_reason batch_id uuid now s ≡ ok c
      → OfBatch batch_id c
  unfolding validate_session
  validate_session-OfBatch session_id close_reason batch_id uuid now s c h = ground arith

  validate_all-OfBatch :
      (session_ids : List String) (close_reason batch_id : String) (ids : ℕ → String) (k : ℕ)
      (now : ℤ) (s : State E L S H) (cs : List (Closing F))
      → validate_all rt bp session_ids close_reason batch_id ids k now s ≡ ok cs
      → All (OfBatch batch_id) cs
  unfolding validate_all
  validate_all-OfBatch [] close_reason batch_id ids k now s cs h = ground arith
  validate_all-OfBatch (session_id ∷ session_ids) close_reason batch_id ids k now s [] h = tt
  validate_all-OfBatch (session_id ∷ session_ids) close_reason batch_id ids k now s (c ∷ cs) h = (
    validate_session-OfBatch session_id close_reason batch_id (ids k) now s c (ground arith),
    validate_all-OfBatch session_ids close_reason batch_id ids (suc k) now s cs (ground arith),
  )

  -- Where the settlements of a batch come from: nowhere, or from closings of the batch.
  process_batch-settlements :
      (session_id : String) (session_ids : List String) (close_reason batch_id : String)
      (ids : ℕ → String) (now : ℤ) (s : State E L S H)
      → let t = process_batch rt bp (session_id ∷ session_ids) close_reason batch_id ids now s in
        (t.1.settlements ≡ s.settlements)
        ⊎ ((cs : List (Closing F)) × (tx_hash : String) × (h : H) × All (OfBatch batch_id) cs
            × (t.1.settlements
                ≡ (record_all rt bp tx_hash cs (record s { hub = h })).1.settlements))
  unfolding process_batch
  process_batch-settlements session_id session_ids close_reason batch_id ids now s =
      elim (Result-cases
        (validate_all rt bp (session_id ∷ session_ids) close_reason batch_id ids 0 now s)) [
          | inr (e, q) ↦ inl (ground arith)
          | inl (cs, q) ↦
              let sent =
                bp.hub.broadcast_batch_settlement
                  (record { batch_id = batch_id; sessions = map (λ c. c.msg) cs }) s.hub in
              elim (Result-cases sent.0) [
                | inr (e, q') ↦ inl (ground arith)
                | inl (tx_hash, q') ↦ inr (
                  cs,
                  tx_hash,
                  sent.1,
                  validate_all-OfBatch (session_id ∷ session_ids) close_reason batch_id ids 0 now s
                      cs q,
                  ground (
                    arith,
                    mark_all-frame rt bp (session_id ∷ session_ids) now
                        (record_all rt bp tx_hash cs (record s { hub = sent.1 })).1,
                  ),
                )
              ]
        ]

module _ {F E L S H : Type 0} ⦃fl : Float64 F⦄ (rt : Runtime) (bp : BatchProcessor F E L S H)
    (docs : S → List (SettlementRecord F))
    (lawful : LawfulDb settlement_document bp.settle_st docs) where
  record_all-Appended :
      (batch_id tx_hash : String) (cs : List (Closing F)) (s : State E L S H)
      → All (OfBatch batch_id) cs
      → Appended
          (Settled batch_id)
          (docs s.settlements)
          (docs (record_all rt bp tx_hash cs s).1.settlements)
  unfolding record_all
  record_all-Appended batch_id tx_hash [] s h = ([], sym (append-nil (docs s.settlements)), tt)
  record_all-Appended batch_id tx_hash (c ∷ cs) s h =
      let s1 =
        (on_settlements (SettlementStore.create bp.settle_st (settled_record rt bp tx_hash c.rec))
          s).1 in
      let (zs, e, a) = record_all-Appended batch_id tx_hash cs s1 h.1 in
      elim (create_docs bp.settle_st docs lawful (settled_record rt bp tx_hash c.rec)
        s.settlements) [
          | inl same ↦ (zs, e ∙ ap (λ xs. xs ++ zs) same, a)
          | inr (id, added) ↦ (
            record (settled_record rt bp tx_hash c.rec) { doc_id = id } ∷ zs,
            e ∙ ap (λ xs. xs ++ zs) added ∙ append_one_more (docs s.settlements) _ zs,
            ((h.0, refl), a),
          )
        ]

  -- Settlement records are append-only under batches: a batch that succeeds adds records that carry
  -- its id and are settled; no older record changes or goes.
  pub process_batch-Appended :
      (session_ids : List String) (close_reason batch_id : String) (ids : ℕ → String) (now : ℤ)
      (s : State E L S H)
      → Appended
          (Settled batch_id)
          (docs s.settlements)
          (docs (process_batch rt bp session_ids close_reason batch_id ids now s).1.settlements)
  unfolding process_batch
  process_batch-Appended [] close_reason batch_id ids now s =
      ([], sym (append-nil (docs s.settlements)), tt)
  process_batch-Appended (session_id ∷ session_ids) close_reason batch_id ids now s =
      elim (process_batch-settlements rt bp session_id session_ids close_reason batch_id ids now
        s) [
          | inl same ↦ rw same ([], sym (append-nil (docs s.settlements)), tt)
          | inr (cs, tx_hash, h, of_batch, e) ↦
              rw e (record_all-Appended batch_id tx_hash cs (record s { hub = h }) of_batch)
        ]
