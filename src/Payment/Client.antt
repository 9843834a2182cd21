-- ===== src/Payment/Client.antt =====
-- pkg/payment/client.go: the lookup of transactions and the check of a payment. HTTP and the JSON
-- of the answer are a parameter.
pub mod Evidence
use Prim.Native.String.{count}
use package.shinzo_scheduler_service.Base.{
  ℕ, String, Bool, true, false, ◌&&◌, ◌||◌, not, none, some, Option, is_some, List, [], ◌∷◌, Result,
  ok, err, ◌==◌, nat_eq, if◌then◌else◌,
}

pub record TxEvent : Type 0 where
  pub kind : String
  pub attributes : List (String × String)

pub record TxResult : Type 0 where
  pub hash : String
  pub events : List TxEvent

abbrev pub event_subscription_created : String
event_subscription_created = "SubscriptionCreated"

abbrev pub event_subscription_expired : String
event_subscription_expired = "SubscriptionExpired"

-- `attributeMap(attrs)[key]`, where the last entry of a key counts, and whether there is one.
unfoldable pub attribute : String → List (String × String) → Option String
attribute key [] = none
attribute key ((k, v) ∷ attrs) = elim (attribute key attrs) [
  | some later ↦ some later
  | none ↦ if key == k then some v else none
]

-- A missing key reads as "".
abbrev pub value_or_empty : Option String → String
value_or_empty none = ""
value_or_empty (some v) = v

-- `trim_0x` is `strings.TrimPrefix(s, "0x")`, `decode_hex` is `hex.DecodeString`, `length` is `len`,
-- and `fetch` the request for a transaction.
pub record Client : Type 0 where
  pub trim_0x : String → String
  pub decode_hex : String → Option String
  pub length : String → ℕ
  pub fetch : String → Result TxResult

module _ (c : Client) where
  unfoldable pub get_tx : String → Result TxResult
  get_tx tx_hash =
      let normalized = c.trim_0x tx_hash in
      if not (is_some (c.decode_hex normalized)) || not (nat_eq (c.length normalized) 64)
      then err "invalid tx hash"
      else c.fetch normalized

  -- The test of the loop: an event of a subscription's creation, with this id.
  abbrev pub pays_for : String → TxEvent → Bool
  pays_for subscription_id ev =
      ev.kind == event_subscription_created
      && value_or_empty (attribute "subscription_id" ev.attributes) == subscription_id

  unfoldable pub find_payment : String → List TxEvent → Result (Unit {0})
  find_payment subscription_id [] = err "no matching SubscriptionCreated event"
  find_payment subscription_id (ev ∷ evs) =
      if pays_for subscription_id ev then ok tt else find_payment subscription_id evs

  unfoldable pub verify_subscription_payment : String → String → Result (Unit {0})
  verify_subscription_payment tx_hash subscription_id = elim (get_tx tx_hash) [
    | err e ↦ err e
    | ok tx ↦ find_payment subscription_id tx.events
  ]
