-- ===== src/Accounting/Honesty.antt =====
-- pkg/accounting/honesty.go: the checks of a host's and of an indexer's honesty.
use package.shinzo_scheduler_service.Base.{
  ℕ, String, Bool, false, none, some, List, filter, length, Result, ok, err, ◌==◌, nat_eq, ltb,
  if◌then◌else◌,
}
use package.shinzo_scheduler_service.Base.Int.{ℤ, pos}
use package.shinzo_scheduler_service.Base.Time.{Runtime}
use package.shinzo_scheduler_service.Base.Float.{Float64, ◌/F◌, ◌<F◌}
use package.shinzo_scheduler_service.Store.Records.{ComparisonResultRecord}
use package.shinzo_scheduler_service.Store.Outcome
use package.shinzo_scheduler_service.Store.ComparisonStore
use package.shinzo_scheduler_service.Accounting.Manager.{Manager}

-- `underReports`, which the loop counts.
abbrev pub under_reports : List ComparisonResultRecord → ℕ
under_reports cs = length (filter (λ c. c.outcome == Outcome.under_report) cs)

module _ {F C A L P E : Type 0} ⦃fl : Float64 F⦄ (rt : Runtime) (m : Manager F C A L P E) where
  -- More than 30% of the comparisons are under-reports.
  unfoldable pub is_outlier : List ComparisonResultRecord → Bool
  is_outlier cs =
      if nat_eq (length cs) 0
      then false
      else fl.tenths 3 <F fl.of_int (pos (under_reports cs)) /F fl.of_int (pos (length cs))

  -- The host only stands in the log.
  unfoldable pub cross_check_host : String → String → P → Result Bool
  cross_check_host session_id host_id d =
      elim (ComparisonStore.list_by_session m.comp_st session_id d) [
        | err e ↦ err e
        | ok cs ↦ ok (is_outlier cs)
      ]

  -- Neither the indexer nor the block is looked at.
  unfoldable pub verify_content_addressing : String → ℤ → String → Result Bool
  verify_content_addressing indexer_id block_n expected_doc_cids =
      elim (rt.decode_strings expected_doc_cids) [
        | none ↦ err "decode"
        | some expected ↦ ok (ltb 0 (length expected))
      ]
