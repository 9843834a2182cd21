-- ===== src/Accounting/Rounds.antt =====
-- `runComparisons` and `escalateExpiredUnderReports` of pkg/accounting/manager.go: one round of the
-- comparison loop.
pub mod Sorting
pub mod Order
pub mod Escalation
pub mod Loop
use package.shinzo_scheduler_service.Base.{
  String, Bool, true, false, ◌&&◌, ◌||◌, not, Option, none, some, List, [], ◌∷◌, map, Result, ok,
  err, Action, pure, attempt, ◌==◌, elem, if◌then◌else◌,
}
use package.shinzo_scheduler_service.Base.Int.{ℤ, pos, ltb_ℤ, leb_ℤ, eqb_ℤ}
use package.shinzo_scheduler_service.Base.Order.{str_lt}
use package.shinzo_scheduler_service.Base.Time.{Runtime, seconds, since}
use package.shinzo_scheduler_service.Base.Float.{Float64}
use package.shinzo_scheduler_service.Store.Records.{DeliveryClaimRecord, ComparisonResultRecord}
use package.shinzo_scheduler_service.Store.Outcome
use package.shinzo_scheduler_service.Store.ClaimStore
use package.shinzo_scheduler_service.Store.ComparisonStore
use package.shinzo_scheduler_service.Accounting.Manager.{Manager, State, EscalationHandler, on_hub}
use package.shinzo_scheduler_service.Accounting.Compare.{compare}

-- The struct `key` of `runComparisons`.
pub record Key : Type 0 where
  pub session : String
  pub block : ℤ

unfoldable pub key_eq : Key → Key → Bool
key_eq k j = k.session == j.session && eqb_ℤ k.block j.block

-- The comparison that `sort.Slice` is given.
unfoldable pub key_lt : Key → Key → Bool
key_lt k j = if k.session == j.session then ltb_ℤ k.block j.block else str_lt k.session j.session

abbrev pub key_of : DeliveryClaimRecord → Key
key_of c = record { session = c.session_id; block = c.block_number }

abbrev pub has_key : Key → List Key → Bool
has_key k [] = false
has_key k (j ∷ ks) = key_eq k j || has_key k ks

-- The first loop: each key of the pending claims once, in the order of its first claim.
unfoldable pub distinct_keys : List Key → List DeliveryClaimRecord → List Key
distinct_keys seen [] = []
distinct_keys seen (c ∷ cs) =
    let fresh = key_of c ∷ distinct_keys (key_of c ∷ seen) cs in
    let rest = distinct_keys seen cs in if has_key (key_of c) seen then rest else fresh

insert_key : Key → List Key → List Key
insert_key k [] = k ∷ []
insert_key k (j ∷ js) = if key_lt j k then j ∷ insert_key k js else k ∷ j ∷ js

-- `sort.Slice`. The keys differ, so every sorting algorithm gives this list.
unfoldable pub sort_keys : List Key → List Key
unfolding insert_key
sort_keys [] = []
sort_keys (k ∷ ks) = insert_key k (sort_keys ks)

-- `toCompare`, sorted.
unfoldable pub to_compare : List DeliveryClaimRecord → List Key
to_compare pending = sort_keys (distinct_keys [] pending)

-- The keys of the map `sessions`, each once.
unfoldable pub session_ids : List String → List DeliveryClaimRecord → List String
session_ids seen [] = []
session_ids seen (c ∷ cs) =
    let fresh = c.session_id ∷ session_ids (c.session_id ∷ seen) cs in
    let rest = session_ids seen cs in if elem c.session_id seen then rest else fresh

module _ {F C A L P E : Type 0} ⦃fl : Float64 F⦄ (rt : Runtime) (m : Manager F C A L P E) where
  -- `uuid` gives the id of each comparison record.
  unfoldable pub compare_all : List Key → (Key → String) → ℤ → State C A L P E → State C A L P E
  compare_all [] uuid now s = s
  compare_all (k ∷ ks) uuid now s =
      compare_all ks uuid now (compare rt m k.session k.block (uuid k) now s).1

  -- One comparison record: escalated if it is an under-report older than the grace time.
  unfoldable pub escalate_one :
      EscalationHandler E
      → ℤ
      → ℤ
      → String
      → ComparisonResultRecord
      → State C A L P E
      → State C A L P E
  escalate_one h grace now session_id comp s =
      if comp.outcome == Outcome.under_report
      then elim (rt.parse_time comp.compared_at) [
        | none ↦ s
        | some compared_at ↦
            if ltb_ℤ grace (since now compared_at)
            then (on_hub (h.on_under_report_expired session_id comp.claim_id comp.attestation_id)
                s).1
            else s
      ]
      else s

  unfoldable pub escalate_records :
      EscalationHandler E
      → ℤ
      → ℤ
      → String
      → List ComparisonResultRecord
      → State C A L P E
      → State C A L P E
  escalate_records h grace now session_id [] s = s
  escalate_records h grace now session_id (comp ∷ comps) s =
      escalate_records h grace now session_id comps (escalate_one h grace now session_id comp s)

  unfoldable pub escalate_sessions :
      EscalationHandler E → ℤ → ℤ → List String → State C A L P E → State C A L P E
  escalate_sessions h grace now [] s = s
  escalate_sessions h grace now (sid ∷ sids) s =
      let listed : State C A L P E = elim (ComparisonStore.list_by_session m.comp_st sid s.comps) [
        | err e ↦ s
        | ok comps ↦ escalate_records h grace now sid comps s
      ] in
      escalate_sessions h grace now sids listed

  -- `order` is the order in which the map `sessions` is iterated.
  unfoldable pub escalate_expired_under_reports :
      (List String → List String) → ℤ → State C A L P E → State C A L P E
  escalate_expired_under_reports order now s = elim (m.escalation) [
    | none ↦ s
    | some h ↦
        if leb_ℤ m.cfg.under_report_grace_seconds (pos 0)
        then s
        else elim (ClaimStore.list_pending m.claim_st s.claims) [
          | err e ↦ s
          | ok pending ↦
              escalate_sessions h (seconds m.cfg.under_report_grace_seconds) now
                (order (session_ids [] pending)) s
        ]
  ]

  -- Errors of single comparisons are logged and dropped.
  unfoldable pub run_comparisons :
      (List String → List String) → (Key → String) → ℤ → State C A L P E → State C A L P E
  run_comparisons order uuid now s = elim (ClaimStore.list_pending m.claim_st s.claims) [
    | err e ↦ s
    | ok pending ↦
        escalate_expired_under_reports order now (compare_all (to_compare pending) uuid now s)
  ]
