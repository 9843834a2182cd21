-- ===== src/Discovery/Pricing.antt =====
-- pkg/discovery/pricing.go, diversity.go and scorer.go: prices and scores.
use package.shinzo_scheduler_service.Base.{
  String, Bool, true, ◌&&◌, not, none, some, Option, ◌==◌, if◌then◌else◌,
}
use package.shinzo_scheduler_service.Base.Int.{ℤ, pos, ◌-ℤ◌, leb_ℤ, ltb_ℤ, wrap64}
use package.shinzo_scheduler_service.Base.Time.{since}
use package.shinzo_scheduler_service.Base.Float.{
  Float64, ◌+F◌, ◌*F◌, ◌/F◌, ◌<F◌, ◌≤F◌, zero_F, one_F,
}
use package.shinzo_scheduler_service.Store.Records.{Pricing, HostBudget}
use package.shinzo_scheduler_service.Store.SubType

module _ {F : Type 0} ⦃fl : Float64 F⦄ where
  unfoldable pub clearing_price : F → F → F → F
  clearing_price indexer_ask host_bid reliability =
      if reliability ≤F zero_F
      then host_bid
      else (indexer_ask *F reliability +F host_bid) /F (one_F +F reliability)

  unfoldable pub price_overlaps : Option (Pricing F) → Option (HostBudget F) → String → Bool
  price_overlaps none budget sub_type = true
  price_overlaps (some pricing) none sub_type = true
  price_overlaps (some pricing) (some budget) sub_type =
      if sub_type == SubType.tip
      then not (
          zero_F <F budget.max_tip_per_1k_blocks
          && budget.max_tip_per_1k_blocks <F pricing.tip_per_1k_blocks)
      else if sub_type == SubType.snapshot
      then not (
          zero_F <F budget.max_snapshot_per_range
          && budget.max_snapshot_per_range <F pricing.snapshot_per_range)
      else true

  unfoldable pub ask_for_type : Option (Pricing F) → String → F
  ask_for_type none sub_type = zero_F
  ask_for_type (some pricing) sub_type =
      if sub_type == SubType.tip
      then pricing.tip_per_1k_blocks
      else if sub_type == SubType.snapshot
      then pricing.snapshot_per_range
      else zero_F

  unfoldable pub bid_for_type : Option (HostBudget F) → String → F
  bid_for_type none sub_type = zero_F
  bid_for_type (some budget) sub_type =
      if sub_type == SubType.tip
      then budget.max_tip_per_1k_blocks
      else if sub_type == SubType.snapshot
      then budget.max_snapshot_per_range
      else zero_F

  -- 0.1 just after a match, 1 once the window is over.
  unfoldable pub diversity_weight : ℤ → ℤ → ℤ → F
  diversity_weight last_matched_at recency_window now =
      let elapsed = since now last_matched_at in
      if leb_ℤ recency_window (pos 0)
      then one_F
      else if leb_ℤ recency_window elapsed
      then one_F
      else fl.tenths 1 +F fl.tenths 9 *F (fl.of_int elapsed /F fl.of_int recency_window)

  unfoldable pub apply_tip_currency_penalty : F → ℤ → ℤ → ℤ → F
  apply_tip_currency_penalty score current_tip reference_tip lag_threshold =
      if ltb_ℤ (pos 0) reference_tip && ltb_ℤ lag_threshold (wrap64 (reference_tip -ℤ current_tip))
      then score *F fl.tenths 5
      else score

  -- The constant expression `1 - weight` is 0.9 exactly before it is rounded.
  unfoldable pub update_ema : F → Bool → F
  update_ema prev_score success =
      fl.tenths 9 *F prev_score +F fl.tenths 1 *F (if success then one_F else zero_F)
