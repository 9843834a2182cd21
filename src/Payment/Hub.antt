-- ===== src/Payment/Hub.antt =====
-- pkg/payment/shinzohub.go: the events of ShinzoHub and what they set off, and below it the
-- connection. The decoding of messages and the clock between two polls are outside.
pub mod Connection
pub mod Dispatch
pub mod Handshake
pub mod Reader
use package.shinzo_scheduler_service.Base.{
  ℕ, String, Bool, true, false, ◌&&◌, ◌||◌, not, none, some, Option, List, [], ◌∷◌, ◌++◌, Result,
  ok, err, ◌==◌, if◌then◌else◌,
}
use package.shinzo_scheduler_service.Base.Int.{ℤ, pos, ◌+ℤ◌, leb_ℤ, ltb_ℤ, wrap64}
use package.shinzo_scheduler_service.Payment.Client.{
  TxEvent, attribute, value_or_empty, event_subscription_created, event_subscription_expired,
}

pub record SubscriptionCreatedEvent : Type 0 where
  pub subscription_id : String
  pub host_id : String
  pub indexer_id : String
  pub sub_type : String
  pub block_from : ℤ
  pub block_to : ℤ
  pub payment_amount : String
  pub expires_at : String

-- Whether the two handlers are set; `decode_created` is `json.Unmarshal` at the event's type, and
-- `decode_envelope` at that of a message, with the height and the events in it.
pub record ShinzoHubSubscriber : Type 0 where
  pub rpc_url : String
  pub epoch_size : ℤ
  pub on_created : Bool
  pub on_expired : Bool
  pub decode_created : String → Option SubscriptionCreatedEvent
  pub decode_envelope : String → Option (ℤ × List TxEvent)

-- What an event sets off: a call of a handler, or the wait for the end of an epoch, from a height.
pub data Reaction : Type 0 where
  calls_created : SubscriptionCreatedEvent → Reaction
  waits_epoch : ℤ → SubscriptionCreatedEvent → Reaction
  calls_expired : String → Reaction

-- The list `missing` is not empty.
unfoldable pub validate_subscription_created : SubscriptionCreatedEvent → Result (Unit {0})
validate_subscription_created e =
    if e.subscription_id == "" || (e.host_id == "" || (e.indexer_id == "" || e.expires_at == ""))
    then err "missing fields"
    else ok tt

module _ (s : ShinzoHubSubscriber) where
  unfoldable pub react_to : ℤ → SubscriptionCreatedEvent → List Reaction
  react_to height e = elim (validate_subscription_created e) [
    | err missing ↦ []
    | ok done ↦
        if ltb_ℤ (pos 0) s.epoch_size && ltb_ℤ (pos 0) height
        then waits_epoch height e ∷ []
        else calls_created e ∷ []
  ]

  -- The event's text is the attribute "data".
  unfoldable pub react_created : ℤ → Option String → List Reaction
  react_created height none = []
  react_created height (some text) =
      if not s.on_created
      then []
      else elim (s.decode_created text) [ none ↦ [] | some e ↦ react_to height e ]

  unfoldable pub react_expired : String → List Reaction
  react_expired sub_id =
      if not s.on_expired then [] else if sub_id == "" then [] else calls_expired sub_id ∷ []

  -- One pass of the loop over the events.
  unfoldable pub react : ℤ → TxEvent → List Reaction
  react height ev =
      if ev.kind == event_subscription_created
      then react_created height (attribute "data" ev.attributes)
      else if ev.kind == event_subscription_expired
      then react_expired (value_or_empty (attribute "subscription_id" ev.attributes))
      else []

  -- The reactions to a message, in the order of its events.
  unfoldable pub dispatch : ℤ → List TxEvent → List Reaction
  dispatch height [] = []
  dispatch height (ev ∷ evs) = react height ev ++ dispatch height evs

  -- `waitEpochThenActivate`, over the answers of the polls in their order: the call of the handler,
  -- if it is made.
  unfoldable pub wait_epoch : ℤ → SubscriptionCreatedEvent → List (Result ℤ) → Option Reaction
  wait_epoch from_height ev [] = none
  wait_epoch from_height ev (err e ∷ polls) = wait_epoch from_height ev polls
  wait_epoch from_height ev (ok h ∷ polls) =
      if leb_ℤ (wrap64 (from_height +ℤ s.epoch_size)) h
      then some (calls_created ev)
      else wait_epoch from_height ev polls
