-- ===== src/Payment/Hub/Dispatch.antt =====
-- Which events are acted on (pkg/payment/shinzohub.go).
use package.shinzo_scheduler_service.Base.{
  String, ◌≡◌, ◌≢◌, ◌↔◌, ◌⊎◌, true, false, ◌&&◌, none, some, Option, List, [], ◌∷◌, Result, ok, err,
  arith, All, eq_iff, Result-cases, Bool-cases, Option-cases, inl, inr,
}
use package.shinzo_scheduler_service.Base.Int.{ℤ, pos, ◌+ℤ◌, leb_ℤ, ltb_ℤ, wrap64}
use package.shinzo_scheduler_service.Base.Unique.{All-append}
use package.shinzo_scheduler_service.Payment.Client.{TxEvent, attribute, value_or_empty}
use package.shinzo_scheduler_service.Payment.Hub.{
  SubscriptionCreatedEvent, ShinzoHubSubscriber, Reaction, calls_created, waits_epoch,
  calls_expired, validate_subscription_created, react_to, react_created, react_expired, react,
  dispatch, wait_epoch,
}

-- All the fields that the scheduler needs.
abbrev pub IsComplete : SubscriptionCreatedEvent → Type 0
IsComplete e =
    (e.subscription_id ≢ "") × (e.host_id ≢ "") × (e.indexer_id ≢ "") × (e.expires_at ≢ "")

module _ (s : ShinzoHubSubscriber) where
  -- A reaction that is due: to a complete event, at once without epochs, or after one; or to the end
  -- of a subscription with an id. Its handler is set.
  abbrev pub IsDue : ℤ → Reaction → Type 0
  IsDue height (calls_created e) =
      IsComplete e
      × (s.on_created ≡ true)
      × ((ltb_ℤ (pos 0) s.epoch_size && ltb_ℤ (pos 0) height) ≡ false)
  IsDue height (waits_epoch from e) =
      IsComplete e × (s.on_created ≡ true) × (ltb_ℤ (pos 0) s.epoch_size ≡ true) × (from ≡ height)
  IsDue height (calls_expired sub_id) = (sub_id ≢ "") × (s.on_expired ≡ true)

  validate-IsComplete :
      (e : SubscriptionCreatedEvent) → validate_subscription_created e ≡ ok tt → IsComplete e
  unfolding validate_subscription_created
  validate-IsComplete e h = (
    ground (arith, eq_iff e.subscription_id ""),
    ground (arith, eq_iff e.host_id ""),
    ground (arith, eq_iff e.indexer_id ""),
    ground (arith, eq_iff e.expires_at ""),
  )

  react_to-IsDue :
      (height : ℤ) (e : SubscriptionCreatedEvent)
      → s.on_created ≡ true
      → All (IsDue height) (react_to s height e)
  unfolding react_to
  react_to-IsDue height e set = elim (Result-cases (validate_subscription_created e)) [
    | inr (missing, q) ↦ ground arith
    | inl (tt, q) ↦
        let complete = validate-IsComplete e q in
        elim (Bool-cases (ltb_ℤ (pos 0) s.epoch_size && ltb_ℤ (pos 0) height)) [
          | inl later ↦ ground (arith, complete)
          | inr now ↦ ground (arith, complete)
        ]
  ]

  react_created-IsDue :
      (height : ℤ) (text : Option String) → All (IsDue height) (react_created s height text)
  unfolding react_created
  react_created-IsDue height none = tt
  react_created-IsDue height (some text) = elim (Bool-cases s.on_created) [
    | inr unset ↦ ground arith
    | inl set ↦ elim (Option-cases (s.decode_created text)) [
      | inl e ↦ ground arith
      | inr (e, q) ↦ ground (arith, react_to-IsDue height e set)
    ]
  ]

  react_expired-IsDue : (height : ℤ) (sub_id : String) → All (IsDue height) (react_expired s sub_id)
  unfolding react_expired
  react_expired-IsDue height sub_id = ground (arith, eq_iff sub_id "")

  react-IsDue : (height : ℤ) (ev : TxEvent) → All (IsDue height) (react s height ev)
  unfolding react
  react-IsDue height ev = ground (
    arith,
    react_created-IsDue height (attribute "data" ev.attributes),
    react_expired-IsDue height (value_or_empty (attribute "subscription_id" ev.attributes)),
  )

  -- Whatever a message says, a subscription is activated only on a complete event, at once only where
  -- no epoch is to be waited for, and ended only by its id.
  pub dispatch-IsDue :
      (height : ℤ) (evs : List TxEvent) → All (IsDue height) (dispatch s height evs)
  unfolding dispatch
  dispatch-IsDue height [] = tt
  dispatch-IsDue height (ev ∷ evs) =
      All-append (IsDue height) (react s height ev) (dispatch s height evs) (react-IsDue height ev)
        (dispatch-IsDue height evs)

  -- One of the polls has answered with the height of the target or more.
  abbrev pub Reached : ℤ → List (Result ℤ) → Type 0
  Reached target [] = ⊥
  Reached target (err e ∷ polls) = Reached target polls
  Reached target (ok h ∷ polls) = (leb_ℤ target h ≡ true) ⊎ Reached target polls

  -- The wait ends with the activation exactly if some poll reaches the end of the epoch; polls that
  -- fail only delay it.
  pub wait_epoch-Reached :
      (from_height : ℤ) (ev : SubscriptionCreatedEvent) (polls : List (Result ℤ))
      → (wait_epoch s from_height ev polls ≡ some (calls_created ev))
        ↔ Reached (wrap64 (from_height +ℤ s.epoch_size)) polls
  unfolding wait_epoch
  wait_epoch-Reached from_height ev [] = (λ h. absurd (ground arith), λ h. absurd h)
  wait_epoch-Reached from_height ev (err e ∷ polls) = wait_epoch-Reached from_height ev polls
  wait_epoch-Reached from_height ev (ok h ∷ polls) =
      let rest = wait_epoch-Reached from_height ev polls in
      elim (Bool-cases (leb_ℤ (wrap64 (from_height +ℤ s.epoch_size)) h)) [
        | inl there ↦ (λ e. inl there, λ r. ground (arith, there))
        | inr below ↦ (
          λ e. inr (rest.0 (ground (arith, below))),
          λ r. elim r [
            | inl there ↦ absurd (ground (arith, below, there))
            | inr later ↦ ground (arith, below, rest.1 later)
          ],
        )
      ]
