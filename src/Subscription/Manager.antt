-- ===== src/Subscription/Manager.antt =====
-- pkg/subscription/manager.go and types.go. A call reads the clock once; ids are arguments.
pub mod Validation
pub mod Lifecycle
pub mod Operations
pub mod Expiry
pub mod Runs
pub mod Endings
pub mod Passes
pub mod Effects
pub mod Traces
pub mod Activations
pub mod Loop
use package.shinzo_scheduler_service.Base.{
  String, Bool, true, false, ◌&&◌, ◌||◌, not, none, some, Option, List, [], ◌∷◌, Result, ok, err,
  Action, ◌>>=◌, ◌>>◌, pure, reads, fail, fail_if, attempt, ◌==◌, if◌then◌else◌,
}
use package.shinzo_scheduler_service.Base.Int.{ℤ, pos, eqb_ℤ, leb_ℤ}
use package.shinzo_scheduler_service.Base.Time.{Runtime, after}
use package.shinzo_scheduler_service.Base.Float.{Float64, zero_F}
use package.shinzo_scheduler_service.Store.Records.{
  SubscriptionRecord, IndexerRecord, MatchHistoryRecord,
}
use package.shinzo_scheduler_service.Store.Db.{Db}
use package.shinzo_scheduler_service.Store.Status
use package.shinzo_scheduler_service.Store.SubType
use package.shinzo_scheduler_service.Store.SubscriptionStore
use package.shinzo_scheduler_service.Store.IndexerStore
use package.shinzo_scheduler_service.Store.MatchStore

pub record CreateRequest : Type 0 where
  pub host_id : String
  pub indexer_id : String
  pub sub_type : String
  pub block_from : ℤ
  pub block_to : ℤ
  pub metadata : String

pub record ActivateRequest : Type 0 where
  pub subscription_id : String
  pub payment_ref : String
  pub expires_at : String

-- `match_st` is `none` where the match history is not recorded.
pub record Manager (F D I M : Type 0) : Type 0 where
  pub sub_st : Db D SubscriptionRecord
  pub indexer_st : Db I (IndexerRecord F)
  pub match_st : Option (Db M (MatchHistoryRecord F))

pub record State (D I M : Type 0) : Type 0 where
  pub subs : D
  pub indexers : I
  pub matches : M

module _ {D I M T : Type 0} where
  abbrev pub on_subs : Action D T → Action (State D I M) T
  on_subs m s = let (r, d) = m s.subs in (r, record s { subs = d })

  abbrev pub on_matches : Action M T → Action (State D I M) T
  on_matches m s = let (r, d) = m s.matches in (r, record s { matches = d })

unfoldable pub validate_create : CreateRequest → Result (Unit {0})
validate_create req =
    if req.host_id == ""
    then err "host_id is required"
    else if req.indexer_id == ""
    then err "indexer_id is required"
    else if not (req.sub_type == SubType.tip) && not (req.sub_type == SubType.snapshot)
    then err "sub_type must be 'tip' or 'snapshot'"
    else if req.sub_type == SubType.snapshot
        && (eqb_ℤ req.block_from (pos 0) || eqb_ℤ req.block_to (pos 0))
    then err "block_from and block_to are required for snapshot subscriptions"
    else if req.sub_type == SubType.snapshot && leb_ℤ req.block_to req.block_from
    then err "block_from must be less than block_to"
    else ok tt

module _ {F D I M : Type 0} ⦃fl : Float64 F⦄ (rt : Runtime) (m : Manager F D I M) where
  abbrev pub subscription_of : CreateRequest → String → ℤ → SubscriptionRecord
  subscription_of req uuid now = record {
    doc_id = "";
    subscription_id = uuid;
    host_id = req.host_id;
    indexer_id = req.indexer_id;
    sub_type = req.sub_type;
    block_from = req.block_from;
    block_to = req.block_to;
    status = Status.pending;
    payment_ref = "";
    created_at = rt.format_time now;
    activated_at = "";
    expires_at = "";
    metadata = req.metadata;
  }

  -- "Record match history for diversity weighting": an error is logged only.
  unfoldable pub record_match :
      Option (Db M (MatchHistoryRecord F))
      → CreateRequest
      → String
      → ℤ
      → Action (State D I M) (Unit {0})
  record_match none req uuid now = pure tt
  record_match (some match_st) req uuid now = attempt (
      on_matches (
        MatchStore.create match_st (record {
          doc_id = "";
          match_id = uuid;
          host_id = req.host_id;
          indexer_id = req.indexer_id;
          match_type = req.sub_type;
          matched_at = rt.format_time now;
          clearing_price = zero_F;
        })))

  -- `uuid` and `match_uuid` are the ids of the two records.
  unfoldable pub create :
      CreateRequest → String → String → ℤ → Action (State D I M) SubscriptionRecord
  create req uuid match_uuid now = do
    reads λ _. validate_create req
    indexer ← reads λ s. IndexerStore.get_by_peer_id m.indexer_st req.indexer_id s.indexers
    elim indexer [
      | none ↦ fail "indexer is not available"
      | some found ↦
          if not (found.status == Status.active) then fail "indexer is not available" else do
            created ← on_subs (SubscriptionStore.create m.sub_st (subscription_of req uuid now))
            record_match m.match_st req match_uuid now
            pure created
    ]

  unfoldable pub list_by_host : String → State D I M → Result (List SubscriptionRecord)
  list_by_host host_id s = SubscriptionStore.list_by_host m.sub_st host_id s.subs

  -- The map `fields`.
  abbrev pub activate_fields : ActivateRequest → ℤ → SubscriptionRecord → SubscriptionRecord
  activate_fields req now r = record r {
    status = Status.active;
    payment_ref = req.payment_ref;
    activated_at = rt.format_time now;
    expires_at = if req.expires_at == "" then r.expires_at else req.expires_at;
  }

  unfoldable pub activate : ActivateRequest → ℤ → Action (State D I M) (Unit {0})
  activate req now = do
    found ← reads λ s. SubscriptionStore.get_by_id m.sub_st req.subscription_id s.subs
    elim found [
      | none ↦ fail "subscription not found"
      | some sub ↦
          if not (sub.status == Status.pending)
          then fail "subscription is not pending"
          else on_subs (SubscriptionStore.update m.sub_st sub.doc_id (activate_fields req now))
    ]

  unfoldable pub cancel : String → Action (State D I M) (Unit {0})
  cancel sub_id = do
    found ← reads λ s. SubscriptionStore.get_by_id m.sub_st sub_id s.subs
    elim found [
      | none ↦ fail "subscription not found"
      | some sub ↦
          if sub.status == Status.expired || sub.status == Status.cancelled
          then fail "subscription is already over"
          else on_subs (
              SubscriptionStore.update m.sub_st sub.doc_id
                (λ r. record r { status = Status.cancelled }))
    ]

  -- The subscription, and its indexer if it is active.
  unfoldable pub get : String → State D I M → Result (SubscriptionRecord × Option (IndexerRecord F))
  get sub_id s = elim (SubscriptionStore.get_by_id m.sub_st sub_id s.subs) [
    | err e ↦ err e
    | ok found ↦ elim found [
      | none ↦ err "subscription not found"
      | some sub ↦
          if sub.status == Status.active
          then elim (IndexerStore.get_by_peer_id m.indexer_st sub.indexer_id s.indexers) [
            | err e ↦ err e
            | ok indexer ↦ ok (sub, indexer)
          ]
          else ok (sub, none)
    ]
  ]

  -- `expiresAt` is set, can be read, and is over.
  unfoldable pub is_overdue : ℤ → SubscriptionRecord → Bool
  is_overdue now sub =
      not (sub.expires_at == "")
      && elim (rt.parse_time sub.expires_at) [ none ↦ false | some expiry ↦ after now expiry ]

  -- One pass of the loop: an error is logged only.
  unfoldable pub expire_one : SubscriptionRecord → ℤ → State D I M → State D I M
  expire_one sub now s =
      if is_overdue now sub
      then (on_subs
          (SubscriptionStore.update m.sub_st sub.doc_id (λ r. record r { status = Status.expired }))
          s).1
      else s

  unfoldable pub expire_each : List SubscriptionRecord → ℤ → State D I M → State D I M
  expire_each [] now s = s
  expire_each (sub ∷ subs) now s = expire_each subs now (expire_one sub now s)

  unfoldable pub expire_overdue : ℤ → State D I M → State D I M
  expire_overdue now s = elim (SubscriptionStore.list_by_status m.sub_st Status.active s.subs) [
    | err e ↦ s
    | ok actives ↦ expire_each actives now s
  ]
