-- ===== src/Accounting/Manager/OnePerBlock.antt =====
-- The claims and attestations of a session and block under the submissions of
-- pkg/accounting/manager.go.
use package.shinzo_scheduler_service.Base.{
  String, ◌≡◌, ◌≢◌, sym, ◌∙◌, inl, inr, Bool, false, ◌&&◌, Option, none, some, List, ok, arith,
  ◌==◌, eq_iff, first, filter, All, Result-cases,
}
use package.shinzo_scheduler_service.Base.Int.{ℤ, eqb_ℤ}
use package.shinzo_scheduler_service.Base.Time.{Runtime}
use package.shinzo_scheduler_service.Base.Unique.{Unique, Unique-append_one, All-of_none}
use package.shinzo_scheduler_service.Store.Records.{DeliveryClaimRecord, AttestationRecord}
use package.shinzo_scheduler_service.Store.Db.{LawfulDb}
use package.shinzo_scheduler_service.Store.Documents.{claim_document, attestation_document}
use package.shinzo_scheduler_service.Store.Queries.{query_single-ok, mutate_one_docs}
use package.shinzo_scheduler_service.Store.ClaimStore
use package.shinzo_scheduler_service.Store.AttestationStore
use package.shinzo_scheduler_service.Accounting.Manager.{
  Manager, State, SubmitClaimRequest, SubmitAttestationRequest, claim_of, attestation_of,
  submit_delivery_claim, submit_attestation,
}

abbrev pub same_claim : DeliveryClaimRecord → DeliveryClaimRecord → Bool
same_claim c d = c.session_id == d.session_id && eqb_ℤ c.block_number d.block_number

abbrev pub same_attestation : AttestationRecord → AttestationRecord → Bool
same_attestation a b = a.session_id == b.session_id && eqb_ℤ a.block_number b.block_number

module _ {F C A L P E : Type 0} (rt : Runtime) (m : Manager F C A L P E)
    (docs : C → List DeliveryClaimRecord) (lawful : LawfulDb claim_document m.claim_st docs) where
  lookup_none :
      (session_id : String) (block_n : ℤ) (c : C)
      → ClaimStore.get_by_session_and_block m.claim_st session_id block_n c ≡ ok none
      → All (λ r. (r.session_id == session_id && eqb_ℤ r.block_number block_n) ≡ false) (docs c)
  unfolding ClaimStore.get_by_session_and_block
  lookup_none session_id block_n c h =
      All-of_none _ (docs c) (sym (query_single-ok lawful "query claim" _ c none h))

  create-Unique :
      (req : SubmitClaimRequest) (uuid : String) (now : ℤ) (c : C)
      → ClaimStore.get_by_session_and_block m.claim_st req.session_id req.block_number c ≡ ok none
      → Unique same_claim (docs c)
      → Unique same_claim (docs (ClaimStore.create m.claim_st (claim_of rt m req uuid now) c).1)
  unfolding ClaimStore.create
  create-Unique req uuid now c h u =
      elim (mutate_one_docs lawful "mutate claim" (claim_of rt m req uuid now) c) [
        | inl e ↦ rw e u
        | inr (id, e) ↦ rw e (
            Unique-append_one same_claim (docs c) _
              (lookup_none req.session_id req.block_number c h) u)
      ]

  -- No submission makes a second claim for a session and block.
  pub submit_delivery_claim-Unique :
      (req : SubmitClaimRequest) (uuid : String) (now : ℤ) (s : State C A L P E)
      → Unique same_claim (docs s.claims)
      → Unique same_claim (docs (submit_delivery_claim rt m req uuid now s).1.claims)
  unfolding submit_delivery_claim
  submit_delivery_claim-Unique req uuid now s u =
      ground (arith, create-Unique req uuid now s.claims)

  recorded_claim :
      (session_id : String) (block_n : ℤ) (c : C) (claim : DeliveryClaimRecord)
      (found : Option DeliveryClaimRecord)
      → first (filter (λ r. r.session_id == session_id && eqb_ℤ r.block_number block_n) (docs c))
        ≡ some claim
      → ClaimStore.get_by_session_and_block m.claim_st session_id block_n c ≡ ok found
      → found ≡ some claim
  unfolding ClaimStore.get_by_session_and_block
  recorded_claim session_id block_n c claim found h e =
      query_single-ok lawful "query claim" _ c found e ∙ h

  -- Once a claim is on record for a session and block, a submission for them writes nothing, and it
  -- succeeds only with the same content ids, returning the claim on record.
  pub submit_delivery_claim-recorded :
      (req : SubmitClaimRequest) (uuid : String) (now : ℤ) (s : State C A L P E)
      (claim : DeliveryClaimRecord)
      → first (
          filter
            (λ r. r.session_id == req.session_id && eqb_ℤ r.block_number req.block_number)
            (docs s.claims))
        ≡ some claim
      → ((submit_delivery_claim rt m req uuid now s).1 ≡ s)
        × ((x : DeliveryClaimRecord)
            → (submit_delivery_claim rt m req uuid now s).0 ≡ ok x
            → (x ≡ claim) × (claim.doc_cids ≡ req.doc_cids))
  unfolding submit_delivery_claim
  submit_delivery_claim-recorded req uuid now s claim h = (
    ground (arith, recorded_claim req.session_id req.block_number s.claims claim none h),
    λ x e.
        elim (Result-cases (
          ClaimStore.get_by_session_and_block m.claim_st req.session_id req.block_number
            s.claims)) [
              | inl (found, q) ↦ ground (
                arith,
                recorded_claim req.session_id req.block_number s.claims claim found h q,
                eq_iff claim.doc_cids req.doc_cids,
              )
              | inr (message, q) ↦ ground arith
            ],
  )

module _ {F C A L P E : Type 0} (rt : Runtime) (m : Manager F C A L P E)
    (docs : A → List AttestationRecord)
    (lawful : LawfulDb attestation_document m.attest_st docs) where
  found_attestation :
      (session_id : String) (block_n : ℤ) (a : A) (found : Option AttestationRecord)
      → AttestationStore.get_by_session_and_block m.attest_st session_id block_n a ≡ ok found
      → found
        ≡ first (filter (λ r. r.session_id == session_id && eqb_ℤ r.block_number block_n) (docs a))
  unfolding AttestationStore.get_by_session_and_block
  found_attestation session_id block_n a found h =
      query_single-ok lawful "query attestation" _ a found h

  create_attestation-Unique :
      (req : SubmitAttestationRequest) (uuid : String) (now : ℤ) (a : A)
      → AttestationStore.get_by_session_and_block m.attest_st req.session_id req.block_number a
        ≡ ok none
      → Unique same_attestation (docs a)
      → Unique same_attestation
          (docs (AttestationStore.create m.attest_st (attestation_of rt m req uuid now) a).1)
  unfolding AttestationStore.create
  create_attestation-Unique req uuid now a h u =
      elim (mutate_one_docs lawful "mutate attestation" (attestation_of rt m req uuid now) a) [
        | inl e ↦ rw e u
        | inr (id, e) ↦ rw e (
            Unique-append_one same_attestation (docs a) _
              (All-of_none _ (docs a)
                (sym (found_attestation req.session_id req.block_number a none h)))
              u)
      ]

  -- No submission makes a second attestation for a session and block.
  pub submit_attestation-Unique :
      (req : SubmitAttestationRequest) (uuid : String) (now : ℤ) (s : State C A L P E)
      → Unique same_attestation (docs s.attests)
      → Unique same_attestation (docs (submit_attestation rt m req uuid now s).1.attests)
  unfolding submit_attestation
  submit_attestation-Unique req uuid now s u =
      ground (arith, create_attestation-Unique req uuid now s.attests)

  -- Attestations are append-only: once one is on record for a session and block, every submission
  -- for them fails and writes nothing.
  pub submit_attestation-recorded :
      (req : SubmitAttestationRequest) (uuid : String) (now : ℤ) (s : State C A L P E)
      (attestation : AttestationRecord)
      → first (
          filter
            (λ r. r.session_id == req.session_id && eqb_ℤ r.block_number req.block_number)
            (docs s.attests))
        ≡ some attestation
      → ((submit_attestation rt m req uuid now s).1 ≡ s)
        × ((x : AttestationRecord) → (submit_attestation rt m req uuid now s).0 ≢ ok x)
  unfolding submit_attestation
  submit_attestation-recorded req uuid now s attestation h = (
    ground (arith, found_attestation req.session_id req.block_number s.attests none),
    λ x e. ground (arith, found_attestation req.session_id req.block_number s.attests none),
  )
