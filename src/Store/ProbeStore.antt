-- ===== src/Store/ProbeStore.antt =====
-- The `ProbeStore` of pkg/store/probe_store.go: the history of the probes of each indexer, and its
-- pruning.
pub mod Order
pub mod Pruning
pub mod History
use package.shinzo_scheduler_service.Base.{
  ℕ, ◌-◌, String, Bool, true, List, [], ◌∷◌, Result, ok, err, Action, ◌>>◌, pure, fail, reads,
  ◌>>=◌, filter, length, take, drop, ◌==◌, nat_eq, leb, if◌then◌else◌,
}
use package.shinzo_scheduler_service.Base.Int.{ℤ, pos, negsuc}
use package.shinzo_scheduler_service.Base.Order.{str_lt}
use package.shinzo_scheduler_service.Base.Float.{Float64, ◌/F◌, zero_F}
use package.shinzo_scheduler_service.Store.Records.{ProbeResultRecord}
use package.shinzo_scheduler_service.Store.Db.{Db, has_errors}
use package.shinzo_scheduler_service.Store.Queries.{query_many, delete_one}
use mathlib.Core.List.{reverse}

-- The inner loop of the sort: the result moves down past those that were probed later. `before` is
-- the part of the slice before it, from its end.
unfoldable pub move_down : ProbeResultRecord → List ProbeResultRecord → List ProbeResultRecord
move_down r [] = r ∷ []
move_down r (q ∷ before) =
    if str_lt r.probed_at q.probed_at then q ∷ move_down r before else r ∷ q ∷ before

-- The outer loop: the sorted part of the slice, from its end, and the rest of it.
unfoldable pub sort_rest : List ProbeResultRecord → List ProbeResultRecord → List ProbeResultRecord
sort_rest sorted [] = reverse sorted
sort_rest sorted (r ∷ rest) = sort_rest (move_down r sorted) rest

unfoldable pub sort_probe_results_asc : List ProbeResultRecord → List ProbeResultRecord
unfolding sort_rest move_down
sort_probe_results_asc recs = sort_rest [] recs

abbrev pub successes : List ProbeResultRecord → ℕ
successes recs = length (filter (λ r. r.success) recs)

-- A negative limit slices out of bounds.
abbrev pub out_of_bounds : String
out_of_bounds = "slice bounds out of range"

-- `recs[len(recs)-limit:]`, if there are more than `limit`, and the rate of successes in it.
unfoldable pub rate_of : {F : Type 0} ⦃fl : Float64 F⦄ → ℤ → List ProbeResultRecord → Result F
rate_of ⦃fl⦄ (negsuc n) recs = err out_of_bounds
rate_of ⦃fl⦄ (pos limit) recs =
    let recent = drop (length recs - limit) recs in
    ok (fl.of_int (pos (successes recent)) /F fl.of_int (pos (length recent)))

module _ {D : Type 0} (db : Db D ProbeResultRecord) where
  unfoldable pub insert : ProbeResultRecord → Action D (Unit {0})
  insert r d =
      let (res, d') = db.create r d in
      (if has_errors res then err "insert probe result" else ok tt, d')

  unfoldable pub list_by_indexer : String → D → Result (List ProbeResultRecord)
  unfolding query_many
  list_by_indexer indexer_id d =
      query_many db "query probe results" (λ r. r.indexer_id == indexer_id) d

  -- The loop over `toDelete`, which stops at the first error.
  unfoldable pub delete_all : List ProbeResultRecord → Action D (Unit {0})
  unfolding delete_one
  delete_all [] = pure tt
  delete_all (r ∷ rs) = do delete_one db "prune probe result" r.doc_id; delete_all rs

  unfoldable pub prune : ℤ → List ProbeResultRecord → Action D (Unit {0})
  unfolding sort_probe_results_asc
  prune (negsuc n) recs = fail out_of_bounds
  prune (pos limit) recs =
      if leb (length recs) limit
      then pure tt
      else delete_all (take (length recs - limit) (sort_probe_results_asc recs))

  unfoldable pub prune_oldest : String → ℤ → Action D (Unit {0})
  prune_oldest indexer_id limit = do recs ← reads (list_by_indexer indexer_id); prune limit recs

module _ {D F : Type 0} ⦃fl : Float64 F⦄ (db : Db D ProbeResultRecord) where
  unfoldable pub recent_success_rate : ℤ → D → Result F
  unfolding query_many sort_probe_results_asc rate_of
  recent_success_rate limit d = elim (query_many db "query probe results" (λ r. true) d) [
    | err e ↦ err e
    | ok recs ↦
        if nat_eq (length recs) 0 then ok zero_F else rate_of limit (sort_probe_results_asc recs)
  ]
