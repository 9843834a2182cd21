-- ===== src/Settlement/Escrow/Balances.antt =====
-- The balances under `DrainSession`, `drainAll` and `TopUp` (pkg/settlement/escrow.go).
use package.shinzo_scheduler_service.Base.{
  String, ◌≡◌, sym, true, false, none, some, List, [], ◌∷◌, arith, if◌then◌else◌, inl, inr, All,
  Result-cases, Bool-cases,
}
use package.shinzo_scheduler_service.Base.Int.{IsInt64, ℤ, ◌≤ℤ◌}
use package.shinzo_scheduler_service.Base.Time.{Runtime}
use package.shinzo_scheduler_service.Base.Float.{Float64, IsIeee, ◌<F◌, ◌≤F◌, ◌-F◌, ◌*F◌, zero_F}
use package.shinzo_scheduler_service.Base.Unique.{All-map_of, first-filter_All}
use package.shinzo_scheduler_service.Store.Records.{EscrowAccountRecord, SessionLedgerRecord}
use package.shinzo_scheduler_service.Store.Db.{LawfulDb, write_at}
use package.shinzo_scheduler_service.Store.Documents.{escrow_document}
use package.shinzo_scheduler_service.Store.EscrowStore
use package.shinzo_scheduler_service.Store.EscrowStore.Answers.{get_by_session-ok, update_docs}
use package.shinzo_scheduler_service.Settlement.Escrow.Steps.{drain_session_cases, drain_escrows}
use package.shinzo_scheduler_service.Settlement.Hub.{State}
use package.shinzo_scheduler_service.Settlement.Escrow.{
  EscrowManager, drained_balance, drain_fields, drain_session, top_up, drain_each, drain_all,
}

module _ {F : Type 0} ⦃fl : Float64 F⦄ where
  abbrev pub HasBalance : EscrowAccountRecord F → Type 0
  HasBalance r = (r.current_balance <F zero_F) ≡ false

  drained_balance-nonneg :
      IsIeee fl
      → (escrow : EscrowAccountRecord F) (ledger : SessionLedgerRecord F)
      → (drained_balance escrow ledger <F zero_F) ≡ false
  unfolding drained_balance
  drained_balance-nonneg ieee escrow ledger =
      elim (Bool-cases (
        escrow.initial_balance -F fl.of_int ledger.blocks_verified *F escrow.price_per_block
        <F zero_F)) [ inl low ↦ rw low (ieee.lt_irrefl zero_F) | inr high ↦ rw high high ]

  abbrev clamp : F → F
  clamp x = if x <F zero_F then zero_F else x

  clamp_mono : IsIeee fl → (x y : F) → (x ≤F y) ≡ true → (clamp x ≤F clamp y) ≡ true
  clamp_mono ieee x y h =
      let zero_refl = ieee.le_refl zero_F (ieee.tenths_finite 0 (ground arith)) in
      ground (
        arith,
        zero_refl,
        ieee.le_of_not_lt y zero_F (ieee.le_right x y h) zero_refl,
        ieee.le_of_lt y zero_F,
        ieee.le_trans x y zero_F h,
      )

  -- The more blocks a ledger has verified, the less is left, for finite amounts and a price that is
  -- not negative.
  pub drained_balance_mono :
      IsIeee fl
      → (escrow : EscrowAccountRecord F) (ledger later : SessionLedgerRecord F)
      → fl.is_finite escrow.initial_balance ≡ true
      → fl.is_finite escrow.price_per_block ≡ true
      → (zero_F ≤F escrow.price_per_block) ≡ true
      → IsInt64 ledger.blocks_verified
      → IsInt64 later.blocks_verified
      → ledger.blocks_verified ≤ℤ later.blocks_verified
      → (drained_balance escrow later ≤F drained_balance escrow ledger) ≡ true
  unfolding drained_balance
  drained_balance_mono ieee escrow ledger later fb fp pos_price before after h =
      let less = ieee.sub_mono escrow.initial_balance _ _ fb (
        ieee.mul_mono _ _ escrow.price_per_block (ieee.of_int_finite ledger.blocks_verified before)
          (ieee.of_int_finite later.blocks_verified after) fp pos_price (ieee.of_int_mono _ _ h)) in
      clamp_mono ieee _ _ less

module _ {F E L H : Type 0} ⦃fl : Float64 F⦄ (rt : Runtime) (em : EscrowManager F E L H) where
  drain_fields-HasBalance :
      (escrow : EscrowAccountRecord F) (balance : F) (now : ℤ) (r : EscrowAccountRecord F)
      → (balance <F zero_F) ≡ false
      → HasBalance (drain_fields rt em escrow balance now r)
  unfolding drain_fields
  drain_fields-HasBalance escrow balance now r h = ground arith

module _ {F E L H : Type 0} ⦃fl : Float64 F⦄ (em : EscrowManager F E L H)
    (docs : E → List (EscrowAccountRecord F))
    (lawful : LawfulDb escrow_document em.escrow_st docs) where
  -- A write to one escrow that leaves its balance at 0 or more.
  update-HasBalance :
      (id : String) (f : EscrowAccountRecord F → EscrowAccountRecord F) (e : E)
      → ((r : EscrowAccountRecord F) → HasBalance (f r))
      → All HasBalance (docs e)
      → All HasBalance (docs (EscrowStore.update em.escrow_st id f e).1)
  update-HasBalance id f e keep h = elim (update_docs em.escrow_st docs lawful id f e) [
    | inl same ↦ rw same h
    | inr written ↦ rw written (
        All-map_of HasBalance (write_at escrow_document id f) (λ r b. ground (arith, keep r, b))
          (docs e) h)
  ]

module _ {F E L S H : Type 0} ⦃fl : Float64 F⦄ (rt : Runtime) (em : EscrowManager F E L H)
    (docs : E → List (EscrowAccountRecord F))
    (lawful : LawfulDb escrow_document em.escrow_st docs) where
  -- No drainage leaves an account with a negative balance.
  pub drain_session-HasBalance :
      (session_id : String) (now : ℤ) (s : State E L S H)
      → IsIeee fl
      → All HasBalance (docs s.escrows)
      → All HasBalance (docs (drain_session rt em session_id now s).1.escrows)
  drain_session-HasBalance session_id now s ieee h =
      drain_session_cases rt em (λ t. All HasBalance (docs t.1.escrows)) session_id now s (λ r. h)
        λ escrow ledger found active. rw (drain_escrows rt em escrow ledger now s) (
          update-HasBalance em docs lawful escrow.doc_id _ s.escrows
            (λ r.
              drain_fields-HasBalance rt em escrow _ now r
                (drained_balance-nonneg ieee escrow ledger))
            h)

  drain_each-HasBalance :
      (es : List (EscrowAccountRecord F)) (now : ℤ) (s : State E L S H)
      → IsIeee fl
      → All HasBalance (docs s.escrows)
      → All HasBalance (docs (drain_each rt em es now s).escrows)
  unfolding drain_each
  drain_each-HasBalance [] now s ieee h = h
  drain_each-HasBalance (e ∷ es) now s ieee h =
      drain_each-HasBalance es now _ ieee (drain_session-HasBalance e.session_id now s ieee h)

  -- Nor does a round of the drain loop.
  pub drain_all-HasBalance :
      (now : ℤ) (s : State E L S H)
      → IsIeee fl
      → All HasBalance (docs s.escrows)
      → All HasBalance (docs (drain_all rt em now s).escrows)
  unfolding drain_all
  drain_all-HasBalance now s ieee h =
      elim (Result-cases (EscrowStore.list_active em.escrow_st s.escrows)) [
        | inr (e, q) ↦ rw (q, drain_all) h
        | inl (active, q) ↦ rw (q, drain_all) (drain_each-HasBalance active now s ieee h)
      ]

  -- Nor does a top-up, if the account on record has no negative balance.
  pub top_up-HasBalance :
      (session_id : String) (amount : F) (now : ℤ) (s : State E L S H)
      → IsIeee fl
      → All HasBalance (docs s.escrows)
      → All HasBalance (docs (top_up rt em session_id amount now s).1.escrows)
  unfolding top_up
  top_up-HasBalance session_id amount now s ieee h = elim (Bool-cases (amount ≤F zero_F)) [
    | inl refused ↦ rw refused h
    | inr positive ↦
        elim (Result-cases (EscrowStore.get_by_session em.escrow_st session_id s.escrows)) [
          | inr (e, q) ↦ rw (positive, q) h
          | inl (none, q) ↦ rw (positive, q) h
          | inl (some escrow, q) ↦
              rw (positive, q)
                (update-HasBalance em docs lawful escrow.doc_id _ s.escrows
                  (λ r.
                    ieee.add_nonneg escrow.current_balance amount
                      (first-filter_All HasBalance _ (docs s.escrows) escrow h (
                        sym (
                          get_by_session-ok em.escrow_st docs lawful session_id s.escrows
                            (some escrow) q)))
                      (ground (arith, ieee.le_of_lt amount zero_F)))
                  h)
        ]
  ]
