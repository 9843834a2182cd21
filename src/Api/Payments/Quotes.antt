-- ===== src/Api/Payments/Quotes.antt =====
-- Which quotes are given, and at which price (pkg/api/handlers/payment.go).
use package.shinzo_scheduler_service.Base.{
  ◌≡◌, sym, ◌⊎◌, inl, inr, false, ◌||◌, none, some, List, first, filter, ok, Result-cases,
  Option-cases, Bool-cases, ◌==◌, eq_iff, arith,
}
use package.shinzo_scheduler_service.Base.Int.{ℤ}
use package.shinzo_scheduler_service.Base.Time.{Runtime}
use package.shinzo_scheduler_service.Base.Float.{Float64, ◌*F◌, ◌/F◌, ◌<F◌}
use package.shinzo_scheduler_service.Store.Records.{IndexerRecord, Pricing}
use package.shinzo_scheduler_service.Store.Db.{LawfulDb}
use package.shinzo_scheduler_service.Store.Documents.{indexer_document}
use package.shinzo_scheduler_service.Store.SubType
use package.shinzo_scheduler_service.Store.IndexerStore
use package.shinzo_scheduler_service.Store.IndexerStore.Answers.{get_by_peer_id-ok}
use package.shinzo_scheduler_service.Api.Discovery.{Strconv, Values}
use package.shinzo_scheduler_service.Api.Payments.{
  PaymentHandler, Quote, pricing_of, below_floor, blocks_of, price_for, quote_of, quote_for, quote,
}
use package.shinzo_scheduler_service.Api.Reply.{write_json}

module _ {F D I M H K S : Type 0} ⦃fl : Float64 F⦄ (rt : Runtime) (sc : Strconv F)
    (h : PaymentHandler F D I M H K S) where
  -- The price of a type: the tip by the thousand blocks, a snapshot by the range.
  abbrev pub IsPrice : Pricing F → Values → F → Type 0
  IsPrice pricing q price =
      ((q "type" ≡ SubType.tip)
        × (blocks : F) × (blocks_of rt sc h (q "blocks") ≡ ok blocks)
        × (price ≡ pricing.tip_per_1k_blocks *F (blocks /F fl.tenths 10000)))
      ⊎ ((q "type" ≡ SubType.snapshot) × (price ≡ pricing.snapshot_per_range))

  price_for-IsPrice :
      (pricing : Pricing F) (q : Values) (price : F)
      → price_for rt sc h pricing (q "type") (q "blocks") ≡ ok price
      → IsPrice pricing q price
  unfolding price_for
  price_for-IsPrice pricing q price e = elim (Bool-cases (q "type" == SubType.tip)) [
    | inl tip ↦ elim (Result-cases (blocks_of rt sc h (q "blocks"))) [
      | inl (blocks, b) ↦ inl ((eq_iff _ _).0 tip, blocks, b, ground arith)
      | inr (t, b) ↦ absurd (ground arith)
    ]
    | inr other ↦ elim (Bool-cases (q "type" == SubType.snapshot)) [
      | inl snapshot ↦ inr ((eq_iff _ _).0 snapshot, ground arith)
      | inr neither ↦ absurd (ground arith)
    ]
  ]

  -- A quote for an indexer: its prices can be read and are not below the floor, and the price is one
  -- of theirs.
  abbrev pub IsQuote : IndexerRecord F → Values → ℤ → Quote F → Type 0
  IsQuote idx q now quoted =
      (pricing : Pricing F) × (price : F) × (pricing_of rt sc h idx ≡ some pricing)
      × (pricing.tip_per_1k_blocks <F h.floor_tip_per_1k_blocks ≡ false)
      × (pricing.snapshot_per_range <F h.floor_snapshot_per_range ≡ false)
      × IsPrice pricing q price
      × (quoted ≡ quote_of rt sc h q now price)

  quote_for-IsQuote :
      (idx : IndexerRecord F) (q : Values) (now : ℤ) (quoted : Quote F)
      → quote_for rt sc h idx q now ≡ write_json 200 quoted
      → IsQuote idx q now quoted
  unfolding quote_for below_floor
  quote_for-IsQuote idx q now quoted e = elim (Option-cases (pricing_of rt sc h idx)) [
    | inl unread ↦ absurd (ground arith)
    | inr (pricing, p) ↦ elim (Bool-cases (below_floor rt sc h pricing)) [
      | inl below ↦ absurd (ground arith)
      | inr above ↦ elim (Result-cases (price_for rt sc h pricing (q "type") (q "blocks"))) [
        | inr (t, r) ↦ absurd (ground arith)
        | inl (price, r) ↦ (
          pricing,
          price,
          p,
          ground arith,
          ground arith,
          price_for-IsPrice pricing q price r,
          ground arith,
        )
      ]
    ]
  ]

  -- A quote is given only for an indexer on record whose prices can be read and are not below the
  -- floor; the price is that of the type: for the tip by thousands of blocks, for a snapshot as
  -- listed.
  pub quote-IsQuote :
      (docs : I → List (IndexerRecord F))
      → LawfulDb indexer_document h.indexer_st docs
      → (q : Values) (now : ℤ) (i : I) (quoted : Quote F)
      → quote rt sc h q now i ≡ write_json 200 quoted
      → (idx : IndexerRecord F) × (first (filter (λ r. r.peer_id == q "indexer_id") (docs i))
          ≡ some idx)
        × IsQuote idx q now quoted
  unfolding quote
  quote-IsQuote docs lawful q now i quoted e =
      elim (Bool-cases (q "indexer_id" == "" || q "type" == "")) [
        | inl missing ↦ absurd (ground arith)
        | inr given ↦
            elim (Result-cases (IndexerStore.get_by_peer_id h.indexer_st (q "indexer_id") i)) [
              | inr (t, r) ↦ absurd (ground arith)
              | inl (none, r) ↦ absurd (ground arith)
              | inl (some idx, r) ↦ (
                idx,
                sym (get_by_peer_id-ok h.indexer_st docs lawful (q "indexer_id") i (some idx) r),
                quote_for-IsQuote idx q now quoted (ground arith),
              )
            ]
      ]
