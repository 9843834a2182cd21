-- ===== src/Settlement/Verdict.antt =====
-- pkg/settlement/verdict.go: verdicts on sessions and their signatures. Nothing of it calls the hub,
-- so the state is the collection of verdicts.
pub mod Quorum
use package.shinzo_scheduler_service.Base.{
  ℕ, String, Bool, true, false, none, some, Option, List, [], ◌∷◌, ◌++◌, length, Result, ok, err,
  Action, ◌>>=◌, ◌>>◌, reads, fail, fail_if, not, if◌then◌else◌,
}
use package.shinzo_scheduler_service.Base.Int.{ℤ, pos, leb_ℤ}
use package.shinzo_scheduler_service.Base.Time.{Runtime}
use package.shinzo_scheduler_service.Store.Records.{VerdictRecord}
use package.shinzo_scheduler_service.Store.Db.{Db}
use package.shinzo_scheduler_service.Store.VerdictStore
use package.shinzo_scheduler_service.Settlement.Hub.{HubBroadcaster, SettlementConfig}

pub record VerdictManager (F V H : Type 0) : Type 0 where
  pub verdict_st : Db V VerdictRecord
  pub hub : HubBroadcaster F H
  pub cfg : SettlementConfig F

module _ {F V H : Type 0} (rt : Runtime) (vm : VerdictManager F V H) where
  -- `sig` is the signature of this node, made of the time.
  unfoldable pub create_verdict :
      String → String → List String → String → String → ℤ → Action V VerdictRecord
  create_verdict session_id outcome evidence_cids sig uuid now =
      VerdictStore.create vm.verdict_st (record {
        doc_id = "";
        verdict_id = uuid;
        session_id = session_id;
        outcome = outcome;
        evidence_cids = rt.encode_strings evidence_cids;
        scheduler_signatures = rt.encode_strings (sig ∷ []);
        created_at = rt.format_time now;
        submitted_to_hub = false;
      })

  abbrev pub signed_by : List String → VerdictRecord → VerdictRecord
  signed_by sigs r = record r { scheduler_signatures = rt.encode_strings sigs }

  unfoldable pub add_signature : String → String → Action V (Unit {0})
  add_signature session_id signature v =
      elim (VerdictStore.get_by_session vm.verdict_st session_id v) [
        | err e ↦ (err "lookup verdict", v)
        | ok found ↦ elim found [
          | none ↦ (err "verdict not found", v)
          | some verdict ↦ elim (rt.decode_strings verdict.scheduler_signatures) [
            | none ↦ (err "corrupt scheduler signatures", v)
            | some sigs ↦
                VerdictStore.update vm.verdict_st verdict.doc_id
                  (signed_by (sigs ++ signature ∷ [])) v
          ]
        ]
      ]

  unfoldable pub has_quorum : String → V → Result Bool
  has_quorum session_id v = elim (VerdictStore.get_by_session vm.verdict_st session_id v) [
    | err e ↦ err "lookup verdict"
    | ok found ↦ elim found [
      | none ↦ ok false
      | some verdict ↦ elim (rt.decode_strings verdict.scheduler_signatures) [
        | none ↦ err "corrupt scheduler signatures"
        | some sigs ↦ ok (leb_ℤ vm.cfg.verdict_threshold_m (pos (length sigs)))
      ]
    ]
  ]

  unfoldable pub submit_to_hub : String → Action V (Unit {0})
  submit_to_hub session_id = do
    quorum ← reads (has_quorum session_id)
    fail_if (not quorum) "verdict does not meet M-of-N threshold"
    found ← reads (VerdictStore.get_by_session vm.verdict_st session_id)
    elim found [
      | none ↦ fail "verdict not found"
      | some verdict ↦
          VerdictStore.update vm.verdict_st verdict.doc_id
            (λ r. record r { submitted_to_hub = true })
    ]
