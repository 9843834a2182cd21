-- ===== src/Accounting/Compare/Ledgers.antt =====
-- The session ledgers under `Compare` and `updateLedger` (pkg/accounting/manager.go).
use package.shinzo_scheduler_service.Base.{
  String, ◌≡◌, sym, false, Option, none, some, List, map, Result, ok, err, arith, ◌==◌,
  Result-cases, Bool-cases, ◌⊎◌, inl, inr, first, filter, All, ◌≢◌, eq_iff, if◌then◌else◌,
}
use package.shinzo_scheduler_service.Base.Int.{ℤ, pos, ◌+ℤ◌, wrap64}
use package.shinzo_scheduler_service.Base.Time.{Runtime}
use package.shinzo_scheduler_service.Base.Float.{Float64, IsIeee, ◌<F◌, ◌-F◌, zero_F}
use package.shinzo_scheduler_service.Base.Unique.{All-map_of}
use package.shinzo_scheduler_service.Store.Records.{SessionLedgerRecord}
use package.shinzo_scheduler_service.Store.Db.{LawfulDb, write_at}
use package.shinzo_scheduler_service.Store.Documents.{ledger_document}
use package.shinzo_scheduler_service.Store.LedgerStore.Answers.{
  get_by_session-ok, update_docs, update-ok,
}
use package.shinzo_scheduler_service.Store.LedgerStore
use package.shinzo_scheduler_service.Store.Outcome
use package.shinzo_scheduler_service.Accounting.Manager.{Manager, State, ComparisonResult}
use package.shinzo_scheduler_service.Accounting.Compare.{next_credit, update_ledger, compare}
use package.shinzo_scheduler_service.Accounting.Compare.Effects.{compare-Compared, Compared}

module _ {F : Type 0} ⦃fl : Float64 F⦄ where
  next_credit-nonneg : IsIeee fl → (credit price : F) → (next_credit credit price <F zero_F) ≡ false
  unfolding next_credit
  next_credit-nonneg ieee credit price = elim (Bool-cases (credit -F price <F zero_F)) [
    | inl low ↦ rw low (ieee.lt_irrefl zero_F)
    | inr high ↦ rw high high
  ]

  abbrev pub HasCredit : SessionLedgerRecord F → Type 0
  HasCredit r = (r.credit_remaining <F zero_F) ≡ false

module _ {F C A L P E : Type 0} ⦃fl : Float64 F⦄ (rt : Runtime) (m : Manager F C A L P E)
    (docs : L → List (SessionLedgerRecord F))
    (lawful : LawfulDb ledger_document m.ledger_st docs) where
  -- One block more on a ledger, at the price that the ledger names, and never below zero.
  abbrev pub one_block :
      SessionLedgerRecord F → ℤ → ℤ → SessionLedgerRecord F → SessionLedgerRecord F
  one_block ledger block_n now r =
      let left = ledger.credit_remaining -F ledger.price_per_block in
      record r {
        blocks_verified = wrap64 (ledger.blocks_verified +ℤ pos 1);
        credit_remaining = if left <F zero_F then zero_F else left;
        last_compared_block = block_n;
        updated_at = rt.format_time now;
      }

  abbrev pub on_record : String → L → Option (SessionLedgerRecord F)
  on_record session_id l = first (filter (λ r. r.session_id == session_id) (docs l))

  -- The first ledger of the session is charged.
  abbrev pub Paid : String → ℤ → ℤ → L → L → Type 0
  Paid session_id block_n now l l' =
      (ledger : SessionLedgerRecord F) × (on_record session_id l ≡ some ledger)
      × (docs l'
          ≡ map (write_at ledger_document ledger.doc_id (one_block ledger block_n now)) (docs l))

  -- The store does not give a ledger of the session, or refuses the write.
  abbrev pub Unpaid : String → ℤ → ℤ → L → Type 0
  Unpaid session_id block_n now l =
      ((e : String) × (LedgerStore.get_by_session m.ledger_st session_id l ≡ err e))
      ⊎ (on_record session_id l ≡ none)
      ⊎ ((ledger : SessionLedgerRecord F) × (e : String) × (on_record session_id l ≡ some ledger)
          × ((LedgerStore.update m.ledger_st ledger.doc_id (one_block ledger block_n now) l).0
              ≡ err e))

  abbrev pub Charged : String → ℤ → ℤ → L → L → Type 0
  Charged session_id block_n now l l' =
      Paid session_id block_n now l l' ⊎ ((docs l' ≡ docs l) × Unpaid session_id block_n now l)

  -- By the answer of a comparison.
  abbrev pub ChargedFor : Result (Option ComparisonResult) → String → ℤ → ℤ → L → L → Type 0
  ChargedFor (err e) session_id block_n now l l' = docs l' ≡ docs l
  ChargedFor (ok none) session_id block_n now l l' = docs l' ≡ docs l
  ChargedFor (ok (some r)) session_id block_n now l l' =
      ((r.outcome ≡ Outcome.clean) × Charged session_id block_n now l l')
      ⊎ ((r.outcome ≢ Outcome.clean) × (docs l' ≡ docs l))

  pub update_ledger-Charged :
      (session_id : String) (block_n now : ℤ) (s : State C A L P E)
      → Charged session_id block_n now s.ledgers
          (update_ledger rt m session_id block_n now s).1.ledgers
  unfolding update_ledger next_credit
  update_ledger-Charged session_id block_n now s =
      elim (Result-cases (LedgerStore.get_by_session m.ledger_st session_id s.ledgers)) [
        | inr (e, q) ↦ inr (ground arith, inl (e, q))
        | inl (none, q) ↦
            let found = get_by_session-ok m.ledger_st docs lawful session_id s.ledgers none q in
            inr (ground arith, inr (inl (sym found)))
        | inl (some ledger, q) ↦
            let found =
              sym
                (get_by_session-ok m.ledger_st docs lawful session_id s.ledgers (some ledger) q) in
            let f = one_block ledger block_n now in
            elim (Result-cases (LedgerStore.update m.ledger_st ledger.doc_id f s.ledgers).0) [
              | inl (tt, w) ↦
                  let written = update-ok m.ledger_st docs lawful ledger.doc_id f s.ledgers w in
                  inl (ledger, found, ground (arith, written))
              | inr (e, w) ↦ elim (update_docs m.ledger_st docs lawful ledger.doc_id f s.ledgers) [
                | inl same ↦ inr (ground (arith, same), inr (inr (ledger, e, found, w)))
                | inr written ↦ inl (ledger, found, ground (arith, written))
              ]
            ]
      ]

  Compared-ChargedFor :
      (session_id : String) (block_n now : ℤ) (s s' : State C A L P E)
      (r : Result (Option ComparisonResult))
      → Compared rt m session_id block_n now s (r, s')
      → ChargedFor r session_id block_n now s.ledgers s'.ledgers
  Compared-ChargedFor session_id block_n now s s' (err e) c = rw c
  Compared-ChargedFor session_id block_n now s s' (ok none) c = rw c
  Compared-ChargedFor session_id block_n now s s' (ok (some r)) c =
      elim (Bool-cases (r.outcome == Outcome.clean)) [
        | inl e ↦ inl (
          (eq_iff r.outcome Outcome.clean).0 e,
          rw (c.0, e) (update_ledger-Charged session_id block_n now s),
        )
        | inr e ↦ inr (ground (arith, eq_iff r.outcome Outcome.clean), rw (c.0, e))
      ]

  -- A comparison with the outcome clean charges the first ledger of its session for one block: one
  -- more verified block, one price less of credit, and 0 where that would be negative. It leaves
  -- the ledgers as they are only where the store fails to give that ledger, has none, or refuses
  -- the write. Any other comparison changes no ledger.
  pub compare-ChargedFor :
      (session_id : String) (block_n : ℤ) (uuid : String) (now : ℤ) (s : State C A L P E)
      → let t = compare rt m session_id block_n uuid now s in
        ChargedFor t.0 session_id block_n now s.ledgers t.1.ledgers
  compare-ChargedFor session_id block_n uuid now s =
      Compared-ChargedFor session_id block_n now s _ (compare rt m session_id block_n uuid now s).0
        (compare-Compared rt m session_id block_n uuid now s)

  Charged-HasCredit :
      (session_id : String) (block_n now : ℤ) (l l' : L)
      → IsIeee fl
      → All HasCredit (docs l)
      → Charged session_id block_n now l l'
      → All HasCredit (docs l')
  unfolding next_credit
  Charged-HasCredit session_id block_n now l l' ieee h (inr (same, why)) = rw same h
  Charged-HasCredit session_id block_n now l l' ieee h (inl (ledger, found, e)) = rw e (
      All-map_of HasCredit (write_at ledger_document ledger.doc_id (one_block ledger block_n now))
        (λ r c.
          ground (arith, next_credit-nonneg ieee ledger.credit_remaining ledger.price_per_block))
        (docs l) h)

  ChargedFor-HasCredit :
      (r : Result (Option ComparisonResult)) (session_id : String) (block_n now : ℤ) (l l' : L)
      → IsIeee fl
      → All HasCredit (docs l)
      → ChargedFor r session_id block_n now l l'
      → All HasCredit (docs l')
  ChargedFor-HasCredit (err e) session_id block_n now l l' ieee h c = rw c h
  ChargedFor-HasCredit (ok none) session_id block_n now l l' ieee h c = rw c h
  ChargedFor-HasCredit (ok (some r)) session_id block_n now l l' ieee h (inl (e, c)) =
      Charged-HasCredit session_id block_n now l l' ieee h c
  ChargedFor-HasCredit (ok (some r)) session_id block_n now l l' ieee h (inr (e, c)) = rw c h

  -- No comparison leaves a ledger with a negative credit, whatever the price of a block.
  pub compare-HasCredit :
      (session_id : String) (block_n : ℤ) (uuid : String) (now : ℤ) (s : State C A L P E)
      → IsIeee fl
      → All HasCredit (docs s.ledgers)
      → All HasCredit (docs (compare rt m session_id block_n uuid now s).1.ledgers)
  compare-HasCredit session_id block_n uuid now s ieee h =
      ChargedFor-HasCredit _ session_id block_n now s.ledgers _ ieee h
        (compare-ChargedFor session_id block_n uuid now s)
