-- ===== src/Settlement/Contradiction/Indexers.antt =====
-- The indexers that a round of pkg/settlement/contradiction.go collects.

use package.shinzo_scheduler_service.Base.{
  String, ◌≡◌, refl, Bool, false, List, [], ◌∷◌, length, elem, ◌==◌, eq_refl, eq_iff, arith, not,
  ◌&&◌, ◌||◌,
}
use package.shinzo_scheduler_service.Base.Sets.{Distinct}
use package.shinzo_scheduler_service.Store.Records.{ContradictionRecord}
use package.shinzo_scheduler_service.Settlement.Contradiction.{records_of, indexers_of}

-- An indexer of one of the records.
abbrev pub has_record : String → List ContradictionRecord → Bool
has_record i [] = false
has_record i (r ∷ rs) = (i == r.indexer_id) || has_record i rs

elem-indexers_of :
    (i : String) (seen : List String) (rs : List ContradictionRecord)
    → elem i (indexers_of seen rs) ≡ (not (elem i seen) && has_record i rs)
unfolding indexers_of
elem-indexers_of i seen [] = ground arith
elem-indexers_of i seen (r ∷ rs) = ground (
  arith,
  elem-indexers_of i seen rs,
  elem-indexers_of i (r.indexer_id ∷ seen) rs,
  eq_iff i r.indexer_id,
)

indexers_of-Distinct :
    (seen : List String) (rs : List ContradictionRecord) → Distinct (indexers_of seen rs)
unfolding indexers_of
indexers_of-Distinct seen [] = tt
indexers_of-Distinct seen (r ∷ rs) = ground (
  arith,
  eq_refl r.indexer_id,
  elem-indexers_of r.indexer_id (r.indexer_id ∷ seen) rs,
  indexers_of-Distinct seen rs,
  indexers_of-Distinct (r.indexer_id ∷ seen) rs,
)

-- The indexers of a list of records, each once.
pub indexers_of_lem :
    (rs : List ContradictionRecord)
    → Distinct (indexers_of [] rs) × ((i : String) → elem i (indexers_of [] rs) ≡ has_record i rs)
indexers_of_lem rs = (indexers_of-Distinct [] rs, λ i. elem-indexers_of i [] rs)

pub has_record-records_of :
    (i : String) (rs : List ContradictionRecord)
    → has_record i rs ≡ false
    → length (records_of i rs) ≡ 0
has_record-records_of i [] h = refl
has_record-records_of i (r ∷ rs) h =
    ground (arith, has_record-records_of i rs, eq_iff i r.indexer_id, eq_iff r.indexer_id i)
