-- ===== src/Settlement/Escrow.antt =====
-- pkg/settlement/escrow.go: the escrow accounts, their drainage and their top-ups.
pub mod Steps
pub mod Balances
pub mod Signals
pub mod Loop
use package.shinzo_scheduler_service.Base.{
  String, Bool, true, false, ◌&&◌, not, Option, none, some, List, [], ◌∷◌, Result, ok, err, Action,
  ◌>>=◌, ◌>>◌, pure, fail, attempt, attempt_if, fail_if, ◌==◌, if◌then◌else◌,
}
use package.shinzo_scheduler_service.Base.Int.{ℤ}
use package.shinzo_scheduler_service.Base.Time.{Runtime, seconds, after, add_time}
use package.shinzo_scheduler_service.Base.Float.{Float64, ◌+F◌, ◌-F◌, ◌*F◌, ◌<F◌, ◌≤F◌, zero_F}
use package.shinzo_scheduler_service.Store.Records.{EscrowAccountRecord, SessionLedgerRecord}
use package.shinzo_scheduler_service.Store.Db.{Db}
use package.shinzo_scheduler_service.Store.Status
use package.shinzo_scheduler_service.Store.EscrowStore
use package.shinzo_scheduler_service.Store.LedgerStore
use package.shinzo_scheduler_service.Settlement.Hub.{
  HubBroadcaster, MsgSignalLowCredit, SettlementConfig, State, on_escrows, on_hub,
}

pub record EscrowManager (F E L H : Type 0) : Type 0 where
  pub escrow_st : Db E (EscrowAccountRecord F)
  pub ledger_st : Db L (SessionLedgerRecord F)
  pub hub : HubBroadcaster F H
  pub cfg : SettlementConfig F

module _ {F : Type 0} ⦃fl : Float64 F⦄ where
  -- `newBalance`: what is left after the verified blocks, but not below 0.
  unfoldable pub drained_balance : EscrowAccountRecord F → SessionLedgerRecord F → F
  drained_balance escrow ledger =
      let balance =
        escrow.initial_balance -F fl.of_int ledger.blocks_verified *F escrow.price_per_block in
      if balance <F zero_F then zero_F else balance

  -- The test before the low-credit signal.
  abbrev pub is_low : EscrowAccountRecord F → F → Bool
  is_low escrow balance = balance <F escrow.low_water_threshold && not escrow.low_credit_signaled

module _ {F E L H : Type 0} ⦃fl : Float64 F⦄ (rt : Runtime) (em : EscrowManager F E L H) where
  unfoldable pub grace_expired : EscrowAccountRecord F → ℤ → Bool
  grace_expired escrow now =
      escrow.low_credit_signaled
      && (not (escrow.grace_period_ends_at == "")
          && elim (rt.parse_time escrow.grace_period_ends_at) [
            | none ↦ false
            | some grace_end ↦ after now grace_end
          ])

  -- The map `fields`, in the order in which `DrainSession` fills it.
  unfoldable pub drain_fields :
      EscrowAccountRecord F → F → ℤ → EscrowAccountRecord F → EscrowAccountRecord F
  drain_fields escrow balance now r =
      let r1 = record r { current_balance = balance; updated_at = rt.format_time now } in
      let r2 =
        if is_low escrow balance
        then record r1 {
          low_credit_signaled = true;
          grace_period_ends_at =
              rt.format_time (add_time now (seconds em.cfg.grace_period_seconds));
        }
        else r1 in
      let r3 = if grace_expired escrow now then record r2 { status = Status.expired } else r2 in
      if balance ≤F zero_F then record r3 { status = Status.expired } else r3

  abbrev pub top_up_fields :
      EscrowAccountRecord F → F → ℤ → EscrowAccountRecord F → EscrowAccountRecord F
  top_up_fields escrow amount now r = record r {
    current_balance = escrow.current_balance +F amount;
    initial_balance = escrow.initial_balance +F amount;
    low_credit_signaled = false;
    grace_period_ends_at = "";
    status = Status.active;
    updated_at = rt.format_time now;
  }

module _ {F E L S H : Type 0} ⦃fl : Float64 F⦄ (rt : Runtime) (em : EscrowManager F E L H) where
  -- The arguments: the session, the host, the indexer, the balance and the price of a block.
  unfoldable pub create_escrow :
      String → String → String → F → F → String → ℤ → Action (State E L S H) (Unit {0})
  create_escrow session_id host_id indexer_id initial_balance price_per_block uuid now = do
    on_escrows (
        EscrowStore.create em.escrow_st (record {
          doc_id = "";
          escrow_id = uuid;
          session_id = session_id;
          host_id = host_id;
          indexer_id = indexer_id;
          initial_balance = initial_balance;
          current_balance = initial_balance;
          price_per_block = price_per_block;
          low_water_threshold = price_per_block *F em.cfg.low_credit_multiplier;
          low_credit_signaled = false;
          grace_period_ends_at = "";
          status = Status.active;
          created_at = rt.format_time now;
          updated_at = rt.format_time now;
        }))
    pure tt

  -- The part of `DrainSession` behind the two lookups.
  unfoldable pub drain :
      EscrowAccountRecord F → SessionLedgerRecord F → ℤ → Action (State E L S H) (Unit {0})
  drain escrow ledger now = do
    let balance = drained_balance escrow ledger
    attempt_if (is_low escrow balance) (
        on_hub (
          em.hub.broadcast_low_credit (record {
            session_id = escrow.session_id;
            credit_remaining = balance;
            price_per_block = escrow.price_per_block;
          })))
    on_escrows
        (EscrowStore.update em.escrow_st escrow.doc_id (drain_fields rt em escrow balance now))

  unfoldable pub drain_session : String → ℤ → Action (State E L S H) (Unit {0})
  drain_session session_id now s =
      elim (EscrowStore.get_by_session em.escrow_st session_id s.escrows) [
        | err e ↦ (err "escrow lookup", s)
        | ok found ↦ elim found [
          | none ↦ (ok tt, s)
          | some escrow ↦
              if not (escrow.status == Status.active)
              then (ok tt, s)
              else elim (LedgerStore.get_by_session em.ledger_st session_id s.ledgers) [
                | err e ↦ (err e, s)
                | ok ledger_found ↦ elim ledger_found [
                  | none ↦ (ok tt, s)
                  | some ledger ↦ drain escrow ledger now s
                ]
              ]
        ]
      ]

  unfoldable pub top_up : String → F → ℤ → Action (State E L S H) (Unit {0})
  top_up session_id amount now s =
      if amount ≤F zero_F
      then (err "topup amount must be positive", s)
      else elim (EscrowStore.get_by_session em.escrow_st session_id s.escrows) [
        | err e ↦ (err "escrow not found", s)
        | ok found ↦ elim found [
          | none ↦ (err "escrow not found", s)
          | some escrow ↦
              on_escrows
                (EscrowStore.update em.escrow_st escrow.doc_id
                  (top_up_fields rt em escrow amount now))
                s
        ]
      ]

  unfoldable pub drain_each : List (EscrowAccountRecord F) → ℤ → State E L S H → State E L S H
  drain_each [] now s = s
  drain_each (e ∷ es) now s = drain_each es now (drain_session e.session_id now s).1

  unfoldable pub drain_all : ℤ → State E L S H → State E L S H
  drain_all now s = elim (EscrowStore.list_active em.escrow_st s.escrows) [
    | err e ↦ s
    | ok active ↦ drain_each active now s
  ]
