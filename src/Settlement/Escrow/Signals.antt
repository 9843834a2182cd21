-- ===== src/Settlement/Escrow/Signals.antt =====
-- The low-credit signal, the expiry and the top-up of an escrow (pkg/settlement/escrow.go).
use package.shinzo_scheduler_service.Base.{
  String, ◌≡◌, refl, sym, ◌∙◌, ap, true, false, Option, none, some, List, ok, arith, ◌==◌, eq_refl,
  if◌then◌else◌, ◌⊎◌, inl, inr, first, filter, Result-cases, Bool-cases, ◌||◌,
}
use package.shinzo_scheduler_service.Base.Int.{ℤ}
use package.shinzo_scheduler_service.Base.Time.{Runtime}
use package.shinzo_scheduler_service.Base.Float.{Float64, ◌+F◌, ◌≤F◌, zero_F}
use package.shinzo_scheduler_service.Base.Unique.{first-filter-map}
use package.shinzo_scheduler_service.Store.Records.{EscrowAccountRecord}
use package.shinzo_scheduler_service.Store.Db.{LawfulDb, write_at}
use package.shinzo_scheduler_service.Store.Documents.{escrow_document}
use package.shinzo_scheduler_service.Store.Status
use package.shinzo_scheduler_service.Store.EscrowStore
use package.shinzo_scheduler_service.Store.EscrowStore.Answers.{get_by_session-ok, update-ok}
use package.shinzo_scheduler_service.Settlement.Hub.{State}
use package.shinzo_scheduler_service.Settlement.Escrow.{
  EscrowManager, drained_balance, is_low, grace_expired, drain_fields, drain, drain_session,
  top_up_fields, top_up,
}
use package.shinzo_scheduler_service.Settlement.Escrow.Steps.{drain_session_cases, drain_escrows}

module _ {F E L H : Type 0} ⦃fl : Float64 F⦄ (rt : Runtime) (em : EscrowManager F E L H) where
  drain_fields-session :
      (escrow : EscrowAccountRecord F) (balance : F) (now : ℤ) (r : EscrowAccountRecord F)
      → (drain_fields rt em escrow balance now r).session_id ≡ r.session_id
  unfolding drain_fields
  drain_fields-session escrow balance now r = ground arith

  -- A drainage expires an active account exactly if its balance has run out or its grace period is
  -- over, and leaves its status alone otherwise. It signals exactly if the balance is low.
  pub drain_fields_status :
      (escrow : EscrowAccountRecord F) (balance : F) (now : ℤ)
      → let r = drain_fields rt em escrow balance now escrow in
        (r.status ≡ (
          if grace_expired rt em escrow now || balance ≤F zero_F
          then Status.expired
          else escrow.status))
        × (r.low_credit_signaled ≡ (escrow.low_credit_signaled || is_low escrow balance))
        × (r.initial_balance ≡ escrow.initial_balance)
        × (r.current_balance ≡ balance)
  unfolding drain_fields
  drain_fields_status escrow balance now = ground arith

-- The escrow on record for a session.
abbrev pub on_record :
    {F E : Type 0}
    → (E → List (EscrowAccountRecord F))
    → String
    → E
    → Option (EscrowAccountRecord F)
on_record docs session_id e = first (filter (λ r. r.session_id == session_id) (docs e))

module _ {F E L H : Type 0} ⦃fl : Float64 F⦄ (em : EscrowManager F E L H)
    (docs : E → List (EscrowAccountRecord F))
    (lawful : LawfulDb escrow_document em.escrow_st docs) where
  -- A write to an escrow shows on record, if it keeps the sessions.
  update-on_record :
      (session_id : String) (f : EscrowAccountRecord F → EscrowAccountRecord F) (e : E)
      (escrow : EscrowAccountRecord F)
      → ((r : EscrowAccountRecord F) → (f r).session_id ≡ r.session_id)
      → on_record docs session_id e ≡ some escrow
      → (EscrowStore.update em.escrow_st escrow.doc_id f e).0 ≡ ok tt
      → on_record docs session_id (EscrowStore.update em.escrow_st escrow.doc_id f e).1
        ≡ some (f escrow)
  update-on_record session_id f e escrow keep rec done =
      rw (update-ok em.escrow_st docs lawful escrow.doc_id f e done) (
        first-filter-map _ (write_at escrow_document escrow.doc_id f) (docs e) escrow
          (λ r. ground (arith, keep r)) rec
        ∙ ground (arith, eq_refl escrow.doc_id))

module _ {F E L S H : Type 0} ⦃fl : Float64 F⦄ (rt : Runtime) (em : EscrowManager F E L H)
    (docs : E → List (EscrowAccountRecord F))
    (lawful : LawfulDb escrow_document em.escrow_st docs) where
  -- No signal is sent for an account that has been signalled.
  signaled-quiet :
      (session_id : String) (now : ℤ) (s : State E L S H) (escrow : EscrowAccountRecord F)
      → on_record docs session_id s.escrows ≡ some escrow
      → escrow.low_credit_signaled ≡ true
      → (drain_session rt em session_id now s).1.hub ≡ s.hub
  unfolding drain
  signaled-quiet session_id now s escrow rec signaled =
      drain_session_cases rt em (λ t. t.1.hub ≡ s.hub) session_id now s (λ r. refl)
        λ found ledger q active.
          let same : some found ≡ some escrow =
            get_by_session-ok em.escrow_st docs lawful session_id s.escrows (some found) q ∙ rec in
          ground (arith, same)

  -- A drainage whose write succeeds has signalled nothing, or has noted its signal on record.
  abbrev Noted : String → State E L S H → State E L S H → Type 0
  Noted session_id s t =
      (t.hub ≡ s.hub)
      ⊎ ((escrow : EscrowAccountRecord F) × (on_record docs session_id t.escrows ≡ some escrow)
          × (escrow.low_credit_signaled ≡ true))

  drain_session-Noted :
      (session_id : String) (now : ℤ) (s : State E L S H)
      → (drain_session rt em session_id now s).0 ≡ ok tt
      → Noted session_id s (drain_session rt em session_id now s).1
  unfolding drain
  drain_session-Noted session_id now s =
      drain_session_cases rt em (λ t. t.0 ≡ ok tt → Noted session_id s t.1) session_id now s
        (λ r done. inl refl)
        λ escrow ledger q active done.
          let rec =
            sym (get_by_session-ok em.escrow_st docs lawful session_id s.escrows (some escrow) q) in
          let balance = drained_balance escrow ledger in
          elim (Bool-cases (is_low escrow balance)) [
            | inr high ↦ inl (ground (arith, high))
            | inl low ↦ inr (
              drain_fields rt em escrow balance now escrow,
              ap (on_record docs session_id) (drain_escrows rt em escrow ledger now s)
                  ∙ update-on_record em docs lawful session_id
                      (drain_fields rt em escrow balance now) s.escrows escrow
                      (drain_fields-session rt em escrow balance now) rec (ground (arith, done)),
              ground (arith, low, (drain_fields_status rt em escrow balance now).1),
            )
          ]

  -- Of two drainages of a session in a row, the first of which has written its fields, at most one
  -- sends a low-credit signal.
  pub drain_twice_signals_once :
      (session_id : String) (now later : ℤ) (s : State E L S H)
      → (drain_session rt em session_id now s).0 ≡ ok tt
      → let s1 = (drain_session rt em session_id now s).1 in
        let s2 = (drain_session rt em session_id later s1).1 in (s1.hub ≡ s.hub) ⊎ (s2.hub ≡ s1.hub)
  drain_twice_signals_once session_id now later s done =
      elim (drain_session-Noted session_id now s done) [
        | inl quiet ↦ inl quiet
        | inr (escrow, rec, signaled) ↦ inr (signaled-quiet session_id later _ escrow rec signaled)
      ]

  -- A top-up puts the account on record back into use, whatever its status was, also when it has been
  -- settled: both balances grow by the amount, and a signal and its grace period are forgotten.
  pub top_up_reactivates :
      (session_id : String) (amount : F) (now : ℤ) (s : State E L S H)
      (escrow : EscrowAccountRecord F)
      → on_record docs session_id s.escrows ≡ some escrow
      → (top_up rt em session_id amount now s).0 ≡ ok tt
      → on_record docs session_id (top_up rt em session_id amount now s).1.escrows
        ≡ some (record escrow {
          initial_balance = escrow.initial_balance +F amount;
          current_balance = escrow.current_balance +F amount;
          low_credit_signaled = false;
          grace_period_ends_at = "";
          status = Status.active;
          updated_at = rt.format_time now;
        })
  unfolding top_up
  top_up_reactivates session_id amount now s escrow rec = elim (Bool-cases (amount ≤F zero_F)) [
    | inl refused ↦ rw refused (λ e. absurd (cc))
    | inr positive ↦
        elim (Result-cases (EscrowStore.get_by_session em.escrow_st session_id s.escrows)) [
          | inr (e, q) ↦ rw (positive, q) (λ e. absurd (cc))
          | inl (none, q) ↦ rw (positive, q) (λ e. absurd (cc))
          | inl (some found, q) ↦
              let same : some found ≡ some escrow =
                get_by_session-ok em.escrow_st docs lawful session_id s.escrows (some found) q
                ∙ rec in
              λ done. ground (
                arith,
                positive,
                q,
                same,
                update-on_record em docs lawful session_id (top_up_fields rt em escrow amount now)
                    s.escrows escrow (λ r. refl) rec,
              )
        ]
  ]
