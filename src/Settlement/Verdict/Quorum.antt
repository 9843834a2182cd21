-- ===== src/Settlement/Verdict/Quorum.antt =====
-- The M-of-N threshold of pkg/settlement/verdict.go.
use package.shinzo_scheduler_service.Base.{
  ◌+◌, String, ◌≡◌, refl, sym, ◌∙◌, ◌⊎◌, Bool, true, false, none, some, Option, List, [], ◌∷◌, ◌++◌,
  map, length, length-append, ok, arith, ◌==◌, eq_refl, filter, first, Result-cases, Option-cases,
  inl, inr,
}
use package.shinzo_scheduler_service.Base.Int.{pos, leb_ℤ}
use package.shinzo_scheduler_service.Base.Time.{Runtime}
use package.shinzo_scheduler_service.Base.Unique.{first-filter-map}
use package.shinzo_scheduler_service.Store.Records.{VerdictRecord}
use package.shinzo_scheduler_service.Store.Db.{LawfulDb, write_at}
use package.shinzo_scheduler_service.Store.Documents.{verdict_document}
use package.shinzo_scheduler_service.Store.VerdictStore
use package.shinzo_scheduler_service.Store.VerdictStore.Answers.{
  get_by_session-ok, update_docs, update-ok,
}
use package.shinzo_scheduler_service.Settlement.Verdict.{
  VerdictManager, signed_by, add_signature, has_quorum, submit_to_hub,
}

abbrev pub verdict_on_record :
    {V : Type 0} → (V → List VerdictRecord) → String → V → Option VerdictRecord
verdict_on_record docs session_id v = first (filter (λ r. r.session_id == session_id) (docs v))

module _ {F V H : Type 0} (rt : Runtime) (vm : VerdictManager F V H) (docs : V → List VerdictRecord)
    (lawful : LawfulDb verdict_document vm.verdict_st docs) where
  -- A session's verdict is on record with at least M signatures.
  abbrev pub InQuorum : String → V → VerdictRecord → Type 0
  InQuorum session_id v verdict =
      (sigs : List String) × (verdict_on_record docs session_id v ≡ some verdict)
      × (rt.decode_strings verdict.scheduler_signatures ≡ some sigs)
      × (leb_ℤ vm.cfg.verdict_threshold_m (pos (length sigs)) ≡ true)

  has_quorum-InQuorum :
      (session_id : String) (v : V) (verdict : VerdictRecord)
      → has_quorum rt vm session_id v ≡ ok true
      → VerdictStore.get_by_session vm.verdict_st session_id v ≡ ok (some verdict)
      → InQuorum session_id v verdict
  unfolding has_quorum
  has_quorum-InQuorum session_id v verdict h q =
      elim (Option-cases (rt.decode_strings verdict.scheduler_signatures)) [
        | inl e ↦ absurd (ground arith)
        | inr (sigs, e) ↦ (
          sigs,
          sym (get_by_session-ok vm.verdict_st docs lawful session_id v (some verdict) q),
          e,
          ground arith,
        )
      ]

  -- The verdict of a session is in quorum, and has been marked as submitted.
  abbrev pub Submitted : String → V → V → Type 0
  Submitted session_id v v' =
      (verdict : VerdictRecord) × InQuorum session_id v verdict
      × (docs v'
          ≡ map
              (write_at verdict_document verdict.doc_id (λ r. record r { submitted_to_hub = true }))
              (docs v))

  -- A submission that succeeds has found M signatures on record for the session's verdict, and has
  -- marked that verdict.
  pub submit_to_hub-Submitted :
      (session_id : String) (v : V)
      → (submit_to_hub rt vm session_id v).0 ≡ ok tt
      → Submitted session_id v (submit_to_hub rt vm session_id v).1
  unfolding submit_to_hub
  submit_to_hub-Submitted session_id v done = elim (Result-cases (has_quorum rt vm session_id v)) [
    | inr (e, q) ↦ absurd (ground arith)
    | inl (false, q) ↦ absurd (ground arith)
    | inl (true, q) ↦ elim (Result-cases (VerdictStore.get_by_session vm.verdict_st session_id v)) [
      | inr (e, q') ↦ absurd (ground arith)
      | inl (none, q') ↦ absurd (ground arith)
      | inl (some verdict, q') ↦ (
        verdict,
        has_quorum-InQuorum session_id v verdict q q',
        ground (
          arith,
          update-ok vm.verdict_st docs lawful verdict.doc_id
              (λ r. record r { submitted_to_hub = true }) v,
        ),
      )
    ]
  ]

  -- Whatever a submission returns, it has written nothing, or it has marked the session's verdict with
  -- M signatures on record for it.
  pub submit_to_hub_only_in_quorum :
      (session_id : String) (v : V)
      → let t = submit_to_hub rt vm session_id v in (docs t.1 ≡ docs v) ⊎ Submitted session_id v t.1
  unfolding submit_to_hub
  submit_to_hub_only_in_quorum session_id v = elim (Result-cases (has_quorum rt vm session_id v)) [
    | inr (e, q) ↦ inl (ground arith)
    | inl (false, q) ↦ inl (ground arith)
    | inl (true, q) ↦ elim (Result-cases (VerdictStore.get_by_session vm.verdict_st session_id v)) [
      | inr (e, q') ↦ inl (ground arith)
      | inl (none, q') ↦ inl (ground arith)
      | inl (some verdict, q') ↦
          elim (update_docs vm.verdict_st docs lawful verdict.doc_id
            (λ r. record r { submitted_to_hub = true }) v) [
              | inl same ↦ inl (ground (arith, same))
              | inr written ↦
                  inr (
                    verdict,
                    has_quorum-InQuorum session_id v verdict q q',
                    ground (arith, written),
                  )
            ]
    ]
  ]

  update-on_record :
      (session_id : String) (f : VerdictRecord → VerdictRecord) (v : V) (verdict : VerdictRecord)
      → ((r : VerdictRecord) → (f r).session_id ≡ r.session_id)
      → verdict_on_record docs session_id v ≡ some verdict
      → (VerdictStore.update vm.verdict_st verdict.doc_id f v).0 ≡ ok tt
      → verdict_on_record docs session_id (VerdictStore.update vm.verdict_st verdict.doc_id f v).1
        ≡ some (f verdict)
  update-on_record session_id f v verdict keep rec done =
      rw (update-ok vm.verdict_st docs lawful verdict.doc_id f v done) (
        first-filter-map _ (write_at verdict_document verdict.doc_id f) (docs v) verdict
          (λ r. ground (arith, keep r)) rec
        ∙ ground (arith, eq_refl verdict.doc_id))

  -- What the quorum test answers, from the verdict on record.
  has_quorum_count :
      (session_id : String) (v : V) (verdict : VerdictRecord) (sigs : List String) (quorum : Bool)
      → verdict_on_record docs session_id v ≡ some verdict
      → rt.decode_strings verdict.scheduler_signatures ≡ some sigs
      → has_quorum rt vm session_id v ≡ ok quorum
      → quorum ≡ leb_ℤ vm.cfg.verdict_threshold_m (pos (length sigs))
  unfolding has_quorum
  has_quorum_count session_id v verdict sigs quorum rec read h =
      elim (Result-cases (VerdictStore.get_by_session vm.verdict_st session_id v)) [
        | inr (e, q) ↦ absurd (ground arith)
        | inl (found, q) ↦
            let same : found ≡ some verdict =
              get_by_session-ok vm.verdict_st docs lawful session_id v found q ∙ rec in
            ground arith
      ]

  -- A signature that is added counts for the threshold whatever it is, also if the same signature is
  -- on record already: if the text that it is appended to can be read back, the quorum test answers
  -- for one signature more than before.
  pub add_signature-has_quorum :
      (session_id signature : String) (v : V) (verdict : VerdictRecord) (sigs : List String)
      → verdict_on_record docs session_id v ≡ some verdict
      → rt.decode_strings verdict.scheduler_signatures ≡ some sigs
      → rt.decode_strings (rt.encode_strings (sigs ++ signature ∷ []))
        ≡ some (sigs ++ signature ∷ [])
      → (add_signature rt vm session_id signature v).0 ≡ ok tt
      → (quorum : Bool)
      → has_quorum rt vm session_id (add_signature rt vm session_id signature v).1 ≡ ok quorum
      → quorum ≡ leb_ℤ vm.cfg.verdict_threshold_m (pos (length sigs + 1))
  unfolding add_signature
  add_signature-has_quorum session_id signature v verdict sigs rec read back done quorum q =
      elim (Result-cases (VerdictStore.get_by_session vm.verdict_st session_id v)) [
        | inr (e, q1) ↦ absurd (ground arith)
        | inl (found, q1) ↦
            let same : found ≡ some verdict =
              get_by_session-ok vm.verdict_st docs lawful session_id v found q1 ∙ rec in
            let count =
              has_quorum_count session_id
                (VerdictStore.update vm.verdict_st verdict.doc_id
                  (signed_by rt vm (sigs ++ signature ∷ [])) v).1
                (signed_by rt vm (sigs ++ signature ∷ []) verdict) (sigs ++ signature ∷ [])
                quorum in
            let written =
              update-on_record session_id (signed_by rt vm (sigs ++ signature ∷ [])) v verdict
                (λ r. refl) rec in
            ground (arith, count, written, length-append sigs (signature ∷ []))
      ]
