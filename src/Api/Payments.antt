-- ===== src/Api/Payments.antt =====
-- pkg/api/handlers/payment.go: quotes, and the activation of subscriptions after a payment.
pub mod Quotes
pub mod Activation
use Prim.Native.String.{◌++◌}
use package.shinzo_scheduler_service.Base.{
  ℕ, String, Bool, true, false, ◌||◌, ◌&&◌, not, Option, none, some, Result, ok, err, ◌==◌,
  if◌then◌else◌,
}
use package.shinzo_scheduler_service.Base.Int.{ℤ, pos}
use package.shinzo_scheduler_service.Base.Time.{Runtime, add_time, minutes}
use package.shinzo_scheduler_service.Base.Float.{Float64, zero_F, ◌<F◌, ◌≤F◌, ◌*F◌, ◌/F◌}
use package.shinzo_scheduler_service.Store.Records.{HostRecord, IndexerRecord, Pricing}
use package.shinzo_scheduler_service.Store.Db.{Db}
use package.shinzo_scheduler_service.Store.SubType
use package.shinzo_scheduler_service.Store.IndexerStore
use package.shinzo_scheduler_service.Registry.Hosts.{HostRegistry, verify_request}
use package.shinzo_scheduler_service.Subscription.Manager as Subscriptions
use package.shinzo_scheduler_service.Subscription.Manager.{ActivateRequest, Manager}
use package.shinzo_scheduler_service.Payment.Client.{Client, verify_subscription_payment}
use package.shinzo_scheduler_service.Api.Discovery.{Strconv, Values}
use package.shinzo_scheduler_service.Api.Subscriptions.{State}
use package.shinzo_scheduler_service.Api.Reply.{
  Reply, write_json, write_error, Handler, refuse, answer, reply_to, status_ok, status_bad_request,
  status_unauthorized, status_payment_required, status_not_found, status_internal_server_error,
}

-- pkg/payment/types.go
pub record Quote (F : Type 0) : Type 0 where
  pub indexer_id : String
  pub sub_type : String
  pub block_from : ℤ
  pub block_to : ℤ
  pub price_tokens : F
  pub currency : String
  pub valid_until : String

pub record VerifyPaymentRequest : Type 0 where
  pub subscription_id : String
  pub payment_ref : String
  pub expires_at : String
  pub tx_hash : String

-- `tx_verifier` is `none` where payments are not verified on the chain; `decode_pricing` is
-- `json.Unmarshal` at the type of prices.
pub record PaymentHandler (F D I M H K S : Type 0) : Type 0 where
  pub mgr : Manager F D I M
  pub indexer_st : Db I (IndexerRecord F)
  pub host_reg : HostRegistry H K S
  pub tx_verifier : Option Client
  pub floor_tip_per_1k_blocks : F
  pub floor_snapshot_per_range : F
  pub decode_pricing : String → Option (Pricing F)

module _ {F D I M H K S : Type 0} ⦃fl : Float64 F⦄ (rt : Runtime) (sc : Strconv F)
    (h : PaymentHandler F D I M H K S) where
  -- Prices that are not given are 0; `none` if their text cannot be decoded.
  unfoldable pub pricing_of : IndexerRecord F → Option (Pricing F)
  pricing_of idx =
      if idx.pricing == "" || idx.pricing == "{}"
      then some (record { tip_per_1k_blocks = zero_F; snapshot_per_range = zero_F })
      else h.decode_pricing idx.pricing

  unfoldable pub below_floor : Pricing F → Bool
  below_floor pricing =
      pricing.tip_per_1k_blocks <F h.floor_tip_per_1k_blocks
      || pricing.snapshot_per_range <F h.floor_snapshot_per_range

  -- 1000, or the parameter `blocks` if that is positive.
  unfoldable pub blocks_of : String → Result F
  blocks_of text =
      let (blocks, parsed) = sc.parse_float text in
      if text == ""
      then ok (fl.tenths 10000)
      else if not parsed
      then err "blocks must be a number"
      else if blocks ≤F zero_F
      then ok (fl.tenths 10000)
      else ok blocks

  -- The switch over the type.
  unfoldable pub price_for : Pricing F → String → String → Result F
  unfolding blocks_of
  price_for pricing sub_type blocks_text =
      if sub_type == SubType.tip
      then elim (blocks_of blocks_text) [
        | err e ↦ err e
        | ok blocks ↦ ok (pricing.tip_per_1k_blocks *F (blocks /F fl.tenths 10000))
      ]
      else if sub_type == SubType.snapshot
      then ok pricing.snapshot_per_range
      else err "type must be 'tip' or 'snapshot'"

  abbrev pub quote_of : Values → ℤ → F → Quote F
  quote_of q now price = record {
    indexer_id = q "indexer_id";
    sub_type = q "type";
    block_from = sc.atoi (q "block_from");
    block_to = sc.atoi (q "block_to");
    price_tokens = price;
    currency = "SHINZO";
    valid_until = rt.format_time (add_time now (minutes (pos 15)));
  }

  -- The part of `Quote` behind the lookup of the indexer.
  unfoldable pub quote_for : IndexerRecord F → Values → ℤ → Reply (Quote F)
  quote_for idx q now = elim (pricing_of idx) [
    | none ↦ write_error status_internal_server_error "failed to parse indexer pricing"
    | some pricing ↦
        if below_floor pricing
        then write_error status_bad_request "indexer pricing below floor"
        else elim (price_for pricing (q "type") (q "blocks")) [
          | err e ↦ write_error status_bad_request e
          | ok price ↦ write_json status_ok (quote_of q now price)
        ]
  ]

  -- `Quote` in the source.
  unfoldable pub quote : Values → ℤ → I → Reply (Quote F)
  quote q now i =
      if q "indexer_id" == "" || q "type" == ""
      then write_error status_bad_request "indexer_id and type are required"
      else elim (IndexerStore.get_by_peer_id h.indexer_st (q "indexer_id") i) [
        | err e ↦ write_error status_not_found "indexer not found"
        | ok found ↦ elim found [
          | none ↦ write_error status_not_found "indexer not found"
          | some idx ↦ quote_for idx q now
        ]
      ]

  -- The check on the chain, if there is a hash and a verifier.
  unfoldable pub check_payment : Option Client → String → String → Result (Unit {0})
  check_payment none tx_hash subscription_id = ok tt
  check_payment (some c) tx_hash subscription_id =
      if tx_hash == "" then ok tt else verify_subscription_payment c tx_hash subscription_id

  abbrev pub activation_of : VerifyPaymentRequest → ActivateRequest
  activation_of req = record {
    subscription_id = req.subscription_id;
    payment_ref = req.payment_ref;
    expires_at = req.expires_at;
  }

  -- The part of `VerifyPayment` behind the decoding of the body.
  unfoldable pub verify_decoded : VerifyPaymentRequest → ℤ → Handler (State D I M H) String
  verify_decoded req now s =
      if req.subscription_id == "" || req.payment_ref == ""
      then refuse status_bad_request "subscription_id and payment_ref are required" s
      else elim (check_payment h.tx_verifier req.tx_hash req.subscription_id) [
        | err e ↦ refuse status_payment_required ("tx verification failed: " ++ e) s
        | ok done ↦
            let (res, managed') =
              Subscriptions.activate rt h.mgr (activation_of req) now s.managed in
            (
              reply_to res (write_error status_bad_request)
                  (λ done. write_json status_ok "activated"),
              record s { managed = managed' },
            )
      ]

  unfoldable pub verify_payment :
      String → ℤ → Option VerifyPaymentRequest → ℤ → Handler (State D I M H) String
  verify_payment token unix body now s = elim (verify_request rt h.host_reg token unix s.hosts) [
    | err e ↦ refuse status_unauthorized "unauthorized" s
    | ok host ↦ elim body [
      | none ↦ refuse status_bad_request "invalid request body" s
      | some req ↦ verify_decoded req now s
    ]
  ]
