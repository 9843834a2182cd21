-- ===== src/Settlement/Contradiction/Threshold.antt =====
-- Who is slashed, and what is resolved (pkg/settlement/contradiction.go).
use package.shinzo_scheduler_service.Base.{
  String, ◌≡◌, refl, sym, subst, true, List, [], ◌∷◌, length, filter, arith, not, Result-cases, inl,
  inr,
}
use package.shinzo_scheduler_service.Base.Int.{pos, ltb_ℤ}
use package.shinzo_scheduler_service.Base.Time.{Runtime}
use package.shinzo_scheduler_service.Store.Records.{ContradictionRecord}
use package.shinzo_scheduler_service.Store.Db.{LawfulDb}
use package.shinzo_scheduler_service.Store.Documents.{contradiction_document}
use package.shinzo_scheduler_service.Store.ContradictionStore
use package.shinzo_scheduler_service.Store.ContradictionStore.Answers.{list_unresolved-ok}
use package.shinzo_scheduler_service.Settlement.Contradiction.{
  ContradictionAggregator, Evidence, records_of, indexers_of, threshold, slash_group, slash_groups,
  check_and_slash,
}

-- Nobody among these has enough records.
abbrev pub BelowThreshold :
    {F D H : Type 0} → Runtime → ContradictionAggregator F D H → List ContradictionRecord → Type 0
BelowThreshold rt ca records =
    (indexer_id : String)
    → ltb_ℤ (pos (length (records_of indexer_id records))) (threshold rt ca) ≡ true

module _ {F D H : Type 0} (rt : Runtime) (ca : ContradictionAggregator F D H) where
  slash_groups-below :
      (ids : List String) (records : List ContradictionRecord) (s : Evidence D H)
      → BelowThreshold rt ca records
      → slash_groups rt ca ids records s ≡ s
  unfolding slash_groups slash_group
  slash_groups-below [] records s low = refl
  slash_groups-below (i ∷ ids) records s low = rw (low i) (slash_groups-below ids records s low)

module _ {F D H : Type 0} (rt : Runtime) (ca : ContradictionAggregator F D H)
    (docs : D → List ContradictionRecord)
    (lawful : LawfulDb contradiction_document ca.contradiction_st docs) where
  -- If no indexer has as many unresolved contradictions on record as the threshold asks for, a round
  -- sends nothing and resolves nothing, in whatever order the indexers come.
  pub check_and_slash-below :
      (order : List String → List String) (s : Evidence D H)
      → BelowThreshold rt ca (filter (λ r. not r.resolved) (docs s.contradictions))
      → check_and_slash rt ca order s ≡ s
  unfolding check_and_slash
  check_and_slash-below order s low =
      elim (Result-cases
        (ContradictionStore.list_unresolved ca.contradiction_st s.contradictions)) [
          | inr (e, q) ↦ ground arith
          | inl (records, q) ↦
              let same : records ≡ filter (λ r. not r.resolved) (docs s.contradictions) =
                list_unresolved-ok ca.contradiction_st docs lawful s.contradictions records q in
              ground (
                arith,
                slash_groups-below rt ca (order (indexers_of [] records)) records s,
                subst (BelowThreshold rt ca) (sym same) low,
              )
        ]
