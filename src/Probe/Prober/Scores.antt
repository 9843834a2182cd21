-- ===== src/Probe/Prober/Scores.antt =====
-- The range of the reliability scores (pkg/probe, pkg/registry, pkg/discovery/scorer.go).
use package.shinzo_scheduler_service.Base.{
  ◌≡◌, Bool, true, false, List, All, arith, if◌then◌else◌, subst, ℕ, ◌<◌, ◌≤◌, ◌^◌,
}
use package.shinzo_scheduler_service.Base.Time.{Runtime}
use package.shinzo_scheduler_service.Base.Float.{Float64, IsIeee, HasExactUnits, zero_F, one_F}
use package.shinzo_scheduler_service.Store.Records.{IndexerRecord}
use package.shinzo_scheduler_service.Store.Db.{LawfulDb}
use package.shinzo_scheduler_service.Store.Documents.{indexer_document}
use package.shinzo_scheduler_service.Discovery.Pricing.{update_ema}
use package.shinzo_scheduler_service.Probe.Prober.{Prober, State}
use package.shinzo_scheduler_service.Probe.Prober.Rounds.{Call, run_all}
use package.shinzo_scheduler_service.Probe.Prober.Changes.{Changes-All}
use package.shinzo_scheduler_service.Probe.Prober.Runs.{run_all-Changes}

module _ {F : Type 0} ⦃fl : Float64 F⦄ where
  abbrev pub IsScore : F → Type 0
  IsScore a = (fl.le (fl.tenths 0) a ≡ true) × (fl.le a (fl.tenths 10) ≡ true)

  -- Every score on record lies between 0 and 1.
  abbrev pub HasScores : List (IndexerRecord F) → Type 0
  HasScores rs = All (λ i. IsScore i.reliability_score) rs

  module _ (ieee : IsIeee fl) (units : HasExactUnits fl) where
    abbrev IsFinite : F → Type 0
    IsFinite a = fl.is_finite a ≡ true

    tenths-IsFinite : (n : ℕ) → n < 2 ^ 53 → IsFinite (fl.tenths n)
    tenths-IsFinite n h = ieee.tenths_finite n h

    score-IsFinite : (a : F) → IsScore a → IsFinite a
    score-IsFinite a s = units.finite_between a s.0 s.1

    -- A weight between 0 and 1, applied to a score.
    weighted :
        (n : ℕ) (a : F)
        → n ≤ 10
        → IsScore a
        → (fl.le (fl.tenths 0) (fl.mul (fl.tenths n) a) ≡ true)
          × (fl.le (fl.mul (fl.tenths n) a) (fl.tenths n) ≡ true)
    weighted n a h s =
        let low = units.tenths_mono 0 n (omega arith) (omega arith) in
        let fin = tenths-IsFinite n (omega arith) in
        (
          ieee.le_trans _ _ _ (units.zero_mul_nonneg a (score-IsFinite a s) s.0) (
              ieee.mul_mono (fl.tenths 0) (fl.tenths n) a (tenths-IsFinite 0 (omega arith)) fin
                (score-IsFinite a s) s.0 low),
          subst (λ x. fl.le x (fl.tenths n) ≡ true) (units.mul_comm a (fl.tenths n))
              (subst (λ x. fl.le (fl.mul a (fl.tenths n)) x ≡ true)
                (units.mul_one (fl.tenths n) fin)
                (ieee.mul_mono a (fl.tenths 10) (fl.tenths n) (score-IsFinite a s)
                  (tenths-IsFinite 10 (omega arith)) fin low s.1)),
        )

    below_ten :
        (n : ℕ) (a : F) → n ≤ 10 → fl.le a (fl.tenths n) ≡ true → fl.le a (fl.tenths 10) ≡ true
    below_ten n a h l =
        ieee.le_trans a (fl.tenths n) (fl.tenths 10) l (units.tenths_mono n 10 h (omega arith))

    pub outcome-IsScore : (success : Bool) → IsScore (if success then one_F else zero_F)
    outcome-IsScore true = (
      units.tenths_mono 0 10 (omega arith) (omega arith),
      ieee.le_refl _ (tenths-IsFinite 10 (omega arith)),
    )
    outcome-IsScore false = (
      ieee.le_refl _ (tenths-IsFinite 0 (omega arith)),
      units.tenths_mono 0 10 (omega arith) (omega arith),
    )

    -- The sum of two weighted scores, the weights being 0.9 and 0.1.
    pub update_ema-IsScore : (a : F) (success : Bool) → IsScore a → IsScore (update_ema a success)
    unfolding update_ema
    update_ema-IsScore a success s =
        let x = weighted 9 a (omega arith) s in
        let y =
          weighted 1 (if success then one_F else zero_F) (omega arith) (outcome-IsScore success) in
        let fx = units.finite_between _ x.0 (below_ten 9 _ (omega arith) x.1) in
        let fy = units.finite_between _ y.0 (below_ten 1 _ (omega arith) y.1) in
        let f0 = tenths-IsFinite 0 (omega arith) in
        (
          subst (λ z. fl.le z (update_ema a success) ≡ true) units.zero-add_zero
              (units.add_mono _ _ _ _ f0 fx f0 fy x.0 y.0),
          ieee.le_trans _ _ _
              (units.add_mono _ _ _ _ fx (tenths-IsFinite 9 (omega arith)) fy
                (tenths-IsFinite 1 (omega arith)) x.1 y.1)
              units.nine_and_one,
        )

-- Where every score on record lies between 0 and 1, every score still does after any sequence of
-- registrations, heartbeats, deregistrations and rounds of the prober, with whatever failures.
pub run_all-HasScores :
    {F D P C K S : Type 0} ⦃fl : Float64 F⦄
    → IsIeee fl
    → HasExactUnits fl
    → (rt : Runtime) (p : Prober F D P C K S) (docs : D → List (IndexerRecord F))
    → LawfulDb indexer_document p.indexer_reg.indexer_st docs
    → LawfulDb indexer_document p.indexer_st docs
    → (calls : List (Call F)) (s : State D P C) → HasScores (docs s.indexers)
    → HasScores (docs (run_all rt p calls s).indexers)
run_all-HasScores ieee units rt p docs lawful lawful_listing calls s h =
    Changes-All (λ i. IsScore i.reliability_score) _ _
      (run_all-Changes rt p docs lawful lawful_listing (λ i. IsScore i.reliability_score)
        (λ req now id. outcome-IsScore ieee units true) (λ req i k. k) (λ req now i k. k) (λ i k. k)
        (λ idx threshold now k i _. update_ema-IsScore ieee units _ _ k) calls s h)
      h
