-- ===== src/Api/Payments/Activation.antt =====
-- When a request activates a subscription (pkg/api/handlers/payment.go).
use package.shinzo_scheduler_service.Base.{
  String, ◌≡◌, ◌≢◌, ◌∙◌, ◌⊎◌, inl, inr, ◌||◌, Option, none, some, ok, Result-cases, Option-cases,
  Bool-cases, ◌==◌, eq_iff, arith,
}
use package.shinzo_scheduler_service.Base.Int.{ℤ}
use package.shinzo_scheduler_service.Base.Time.{Runtime}
use package.shinzo_scheduler_service.Base.Float.{Float64}
use package.shinzo_scheduler_service.Store.Records.{HostRecord}
use package.shinzo_scheduler_service.Registry.Hosts.{verify_request}
use package.shinzo_scheduler_service.Subscription.Manager as Subscriptions
use package.shinzo_scheduler_service.Payment.Client.{Client, verify_subscription_payment}
use package.shinzo_scheduler_service.Api.Discovery.{Strconv}
use package.shinzo_scheduler_service.Api.Subscriptions.{State}
use package.shinzo_scheduler_service.Api.Payments.{
  PaymentHandler, VerifyPaymentRequest, check_payment, activation_of, verify_decoded,
  verify_payment,
}

module _ {F D I M H K S : Type 0} ⦃fl : Float64 F⦄ (rt : Runtime) (sc : Strconv F)
    (h : PaymentHandler F D I M H K S) where
  -- The check on the chain passes where there is a hash and a verifier.
  abbrev pub IsPaid : Option Client → VerifyPaymentRequest → Type 0
  IsPaid none req = Unit
  IsPaid (some c) req =
      (req.tx_hash ≡ "") ⊎ (verify_subscription_payment c req.tx_hash req.subscription_id ≡ ok tt)

  check_payment-IsPaid :
      (verifier : Option Client) (req : VerifyPaymentRequest)
      → check_payment rt sc h verifier req.tx_hash req.subscription_id ≡ ok tt
      → IsPaid verifier req
  unfolding check_payment
  check_payment-IsPaid none req q = tt
  check_payment-IsPaid (some c) req q = elim (Bool-cases (req.tx_hash == "")) [
    | inl no_hash ↦ inl ((eq_iff _ _).0 no_hash)
    | inr hash ↦ inr (ground arith)
  ]

  -- The request is the activation that the manager is asked for.
  abbrev pub Activates : VerifyPaymentRequest → ℤ → State D I M H → State D I M H → Type 0
  Activates req now s s' = s' ≡ record s {
    managed = (Subscriptions.activate rt h.mgr (activation_of rt sc h req) now s.managed).1;
  }

  verify_decoded-IsPaid :
      (req : VerifyPaymentRequest) (now : ℤ) (s : State D I M H)
      → ((verify_decoded rt sc h req now s).1 ≡ s)
        ⊎ ((req.subscription_id ≢ "")
            × (req.payment_ref ≢ "")
            × IsPaid h.tx_verifier req
            × Activates req now s (verify_decoded rt sc h req now s).1)
  unfolding verify_decoded
  verify_decoded-IsPaid req now s =
      elim (Bool-cases (req.subscription_id == "" || req.payment_ref == "")) [
        | inl missing ↦ inl (ground arith)
        | inr given ↦
            elim (Result-cases
              (check_payment rt sc h h.tx_verifier req.tx_hash req.subscription_id)) [
                | inr (e, q) ↦ inl (ground arith)
                | inl (tt, q) ↦ inr (
                  ground (arith, given, eq_iff req.subscription_id ""),
                  ground (arith, given, eq_iff req.payment_ref ""),
                  check_payment-IsPaid h.tx_verifier req q,
                  ground arith,
                )
              ]
      ]

  -- A request changes nothing, or it comes with a good token of some host, names a subscription and
  -- a payment, has passed the check on the chain if it gives a hash and there is a verifier, and
  -- activates the subscription, whichever host that belongs to.
  pub verify_payment-IsPaid :
      (token : String) (unix : ℤ) (body : Option VerifyPaymentRequest) (now : ℤ) (s : State D I M H)
      → ((verify_payment rt sc h token unix body now s).1 ≡ s)
        ⊎ ((host : HostRecord) × (req : VerifyPaymentRequest) × (verify_request rt h.host_reg token
                unix s.hosts
              ≡ ok host)
            × (body ≡ some req)
            × (req.subscription_id ≢ "")
            × (req.payment_ref ≢ "")
            × IsPaid h.tx_verifier req
            × Activates req now s (verify_payment rt sc h token unix body now s).1)
  unfolding verify_payment
  verify_payment-IsPaid token unix body now s =
      elim (Result-cases (verify_request rt h.host_reg token unix s.hosts)) [
        | inr (e, q) ↦ inl (ground arith)
        | inl (host, q) ↦ elim (Option-cases body) [
          | inl missing ↦ inl (ground arith)
          | inr (req, given) ↦
              let same : (verify_payment rt sc h token unix body now s).1
                  ≡ (verify_decoded rt sc h req now s).1 =
                ground arith in
              elim (verify_decoded-IsPaid req now s) [
                | inl unchanged ↦ inl (same ∙ unchanged)
                | inr (named, referred, paid, activated) ↦
                    inr (host, req, q, given, named, referred, paid, same ∙ activated)
              ]
        ]
      ]
