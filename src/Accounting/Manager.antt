-- ===== src/Accounting/Manager.antt =====
-- pkg/accounting/manager.go and types.go: the manager with its stores, the requests, and the
-- submission of claims and attestations. A call reads the clock once (`now`), and the ids that
-- `uuid.New` makes are arguments.
pub mod OnePerBlock
use package.shinzo_scheduler_service.Base.{
  String, Bool, ◌||◌, Option, none, some, List, Result, Action, ◌>>=◌, ◌>>◌, pure, fail, reads,
  fail_if, ◌==◌, if◌then◌else◌,
}
use package.shinzo_scheduler_service.Base.Int.{ℤ, pos, leb_ℤ}
use package.shinzo_scheduler_service.Base.Time.{Runtime}
use package.shinzo_scheduler_service.Store.Records.{
  DeliveryClaimRecord, AttestationRecord, SessionLedgerRecord, ComparisonResultRecord,
}
use package.shinzo_scheduler_service.Store.Db.{Db}
use package.shinzo_scheduler_service.Store.Status
use package.shinzo_scheduler_service.Store.ClaimStore
use package.shinzo_scheduler_service.Store.AttestationStore
use package.shinzo_scheduler_service.Store.LedgerStore
use package.shinzo_scheduler_service.Store.ComparisonStore

pub record AccountingConfig : Type 0 where
  pub enabled : Bool
  pub comparison_interval_seconds : ℤ
  pub attestation_window_seconds : ℤ
  pub under_report_grace_seconds : ℤ

pub record SubmitClaimRequest : Type 0 where
  pub session_id : String
  pub indexer_id : String
  pub block_number : ℤ
  pub doc_cids : String
  pub block_hash : String
  pub batch_signature : String

pub record SubmitAttestationRequest : Type 0 where
  pub session_id : String
  pub host_id : String
  pub block_number : ℤ
  pub doc_cids_received : String
  pub batch_signature : String

pub record ComparisonResult : Type 0 where
  pub session_id : String
  pub block_number : ℤ
  pub outcome : String
  pub claim_id : String
  pub attest_id : String

-- Called with the session, the claim's id and the attestation's id.
pub record EscalationHandler (E : Type 0) : Type 0 where
  pub on_mismatch : String → String → String → Action E (Unit {0})
  pub on_under_report_expired : String → String → String → Action E (Unit {0})

pub record Manager (F C A L P E : Type 0) : Type 0 where
  pub claim_st : Db C DeliveryClaimRecord
  pub attest_st : Db A AttestationRecord
  pub ledger_st : Db L (SessionLedgerRecord F)
  pub comp_st : Db P ComparisonResultRecord
  pub escalation : Option (EscalationHandler E)
  pub cfg : AccountingConfig

-- The states of the collections, and that of the hub behind the escalation handler.
pub record State (C A L P E : Type 0) : Type 0 where
  pub claims : C
  pub attests : A
  pub ledgers : L
  pub comps : P
  pub hub : E

module _ {C A L P E T : Type 0} where
  abbrev pub on_claims : Action C T → Action (State C A L P E) T
  on_claims m s = let (r, c) = m s.claims in (r, record s { claims = c })

  abbrev pub on_attests : Action A T → Action (State C A L P E) T
  on_attests m s = let (r, a) = m s.attests in (r, record s { attests = a })

  abbrev pub on_ledgers : Action L T → Action (State C A L P E) T
  on_ledgers m s = let (r, l) = m s.ledgers in (r, record s { ledgers = l })

  abbrev pub on_comps : Action P T → Action (State C A L P E) T
  on_comps m s = let (r, p) = m s.comps in (r, record s { comps = p })

  abbrev pub on_hub : Action E T → Action (State C A L P E) T
  on_hub m s = let (r, e) = m s.hub in (r, record s { hub = e })

module _ {F C A L P E : Type 0} (rt : Runtime) (m : Manager F C A L P E) where
  abbrev pub claim_of : SubmitClaimRequest → String → ℤ → DeliveryClaimRecord
  claim_of req uuid now = record {
    doc_id = "";
    claim_id = uuid;
    session_id = req.session_id;
    indexer_id = req.indexer_id;
    block_number = req.block_number;
    doc_cids = req.doc_cids;
    block_hash = req.block_hash;
    batch_signature = req.batch_signature;
    submitted_at = rt.format_time now;
    status = Status.pending;
  }

  unfoldable pub submit_delivery_claim :
      SubmitClaimRequest → String → ℤ → Action (State C A L P E) DeliveryClaimRecord
  submit_delivery_claim req uuid now = do
    fail_if (req.session_id == "" || req.indexer_id == "" || leb_ℤ req.block_number (pos 0))
        "session_id, indexer_id, and block_number are required"
    fail_if (req.doc_cids == "" || req.block_hash == "") "doc_cids and block_hash are required"
    existing ←
        reads λ s.
          ClaimStore.get_by_session_and_block m.claim_st req.session_id req.block_number s.claims
    elim existing [
      | none ↦ on_claims (ClaimStore.create m.claim_st (claim_of req uuid now))
      | some claim ↦
          if claim.doc_cids == req.doc_cids
          then pure claim
          else fail "duplicate claim with different doc_cids (content-addressing fraud)"
    ]

  abbrev pub attestation_of : SubmitAttestationRequest → String → ℤ → AttestationRecord
  attestation_of req uuid now = record {
    doc_id = "";
    attestation_id = uuid;
    session_id = req.session_id;
    host_id = req.host_id;
    block_number = req.block_number;
    doc_cids_received = req.doc_cids_received;
    batch_signature = req.batch_signature;
    submitted_at = rt.format_time now;
    status = Status.pending;
  }

  unfoldable pub submit_attestation :
      SubmitAttestationRequest → String → ℤ → Action (State C A L P E) AttestationRecord
  submit_attestation req uuid now = do
    fail_if (req.session_id == "" || req.host_id == "" || leb_ℤ req.block_number (pos 0))
        "session_id, host_id, and block_number are required"
    fail_if (req.doc_cids_received == "") "doc_cids_received is required"
    existing ← reads λ s.
        AttestationStore.get_by_session_and_block m.attest_st req.session_id req.block_number
          s.attests
    elim existing [
      | none ↦ on_attests (AttestationStore.create m.attest_st (attestation_of req uuid now))
      | some attestation ↦ fail "attestation already exists (append-only)"
    ]

  -- The arguments: the session, the host, the indexer, the escrow and the price of a block.
  unfoldable pub create_session_ledger :
      String → String → String → F → F → String → ℤ → Action (State C A L P E) (Unit {0})
  create_session_ledger session_id host_id indexer_id initial_escrow price_per_block uuid now = do
    on_ledgers (
        LedgerStore.create m.ledger_st (record {
          doc_id = "";
          ledger_id = uuid;
          session_id = session_id;
          host_id = host_id;
          indexer_id = indexer_id;
          blocks_verified = pos 0;
          credit_remaining = initial_escrow;
          initial_escrow = initial_escrow;
          price_per_block = price_per_block;
          last_compared_block = pos 0;
          updated_at = rt.format_time now;
        }))
    pure tt

  pub get_session_ledger : String → State C A L P E → Result (Option (SessionLedgerRecord F))
  get_session_ledger session_id s = LedgerStore.get_by_session m.ledger_st session_id s.ledgers

  pub get_comparisons : String → State C A L P E → Result (List ComparisonResultRecord)
  get_comparisons session_id s = ComparisonStore.list_by_session m.comp_st session_id s.comps
