-- ===== src/Payment/Client/Evidence.antt =====
-- What a payment that is accepted has shown (pkg/payment/client.go).
use package.shinzo_scheduler_service.Base.{
  String, ◌≡◌, ◌↔◌, ◌⊎◌, true, is_some, List, [], ◌∷◌, ok, arith, eq_iff, Result-cases, Bool-cases,
  inl, inr,
}
use package.shinzo_scheduler_service.Payment.Client.{
  Client, TxEvent, TxResult, attribute, value_or_empty, get_tx, pays_for, find_payment,
  verify_subscription_payment, event_subscription_created,
}

module _ (c : Client) where
  -- One of the events is the creation of the subscription.
  abbrev pub HasPayment : String → List TxEvent → Type 0
  HasPayment subscription_id [] = ⊥
  HasPayment subscription_id (ev ∷ evs) =
      ((ev.kind ≡ event_subscription_created)
        × (value_or_empty (attribute "subscription_id" ev.attributes) ≡ subscription_id))
      ⊎ HasPayment subscription_id evs

  find_payment-HasPayment :
      (subscription_id : String) (evs : List TxEvent)
      → (find_payment c subscription_id evs ≡ ok tt) ↔ HasPayment subscription_id evs
  unfolding find_payment
  find_payment-HasPayment subscription_id [] = (λ h. absurd (ground arith), λ h. absurd h)
  find_payment-HasPayment subscription_id (ev ∷ evs) =
      let rest = find_payment-HasPayment subscription_id evs in
      let kind = eq_iff ev.kind event_subscription_created in
      let named =
        eq_iff (value_or_empty (attribute "subscription_id" ev.attributes)) subscription_id in
      elim (Bool-cases (pays_for c subscription_id ev)) [
        | inl pays ↦ (λ h. inl (ground (arith, kind), ground (arith, named)), λ h. ground arith)
        | inr other ↦ (
          λ h. inr (rest.0 (ground arith)),
          λ h. elim h [
            | inl here ↦ absurd (ground (arith, kind, named))
            | inr later ↦ ground (arith, rest.1 later)
          ],
        )
      ]

  -- A payment is accepted exactly if the hash is 64 hexadecimal digits, with or without 0x, the
  -- transaction is found, and one of its events is the creation of this very subscription.
  pub verify_subscription_payment-HasPayment :
      (tx_hash subscription_id : String)
      → (verify_subscription_payment c tx_hash subscription_id ≡ ok tt) ↔ (
          (tx : TxResult) × (is_some (c.decode_hex (c.trim_0x tx_hash)) ≡ true)
          × (c.length (c.trim_0x tx_hash) ≡ 64)
          × (c.fetch (c.trim_0x tx_hash) ≡ ok tx)
          × HasPayment subscription_id tx.events)
  unfolding verify_subscription_payment get_tx
  verify_subscription_payment-HasPayment tx_hash subscription_id = (
    λ h. elim (Result-cases (c.fetch (c.trim_0x tx_hash))) [
      | inr (e, q) ↦ absurd (ground arith)
      | inl (tx, q) ↦ (
        tx,
        ground arith,
        ground arith,
        q,
        (find_payment-HasPayment subscription_id tx.events).0 (ground arith),
      )
    ],
    λ (tx, hex, digits, q, paid).
        ground (arith, (find_payment-HasPayment subscription_id tx.events).1 paid),
  )
