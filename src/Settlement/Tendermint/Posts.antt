-- ===== src/Settlement/Tendermint/Posts.antt =====
-- What a message to the hub that counts as sent by pkg/settlement/broadcaster.go was, and a batch
-- (pkg/settlement/batch.go) that goes through it.
use Prim.Native.String as Text
use package.shinzo_scheduler_service.Base.{
  ℕ, String, List, ◌∷◌, map, ◌⊎◌, Bool-cases, ◌≡◌, refl, none, some, Option, Option-cases, ok, err,
  arith, inl, inr, Result-cases,
}
use package.shinzo_scheduler_service.Base.Int.{ℤ, pos, eqb_ℤ}
use package.shinzo_scheduler_service.Base.Time.{Runtime}
use package.shinzo_scheduler_service.Base.Float.{Float64, IsIeee}
use package.shinzo_scheduler_service.Store.Records.{EscrowAccountRecord, SessionLedgerRecord}
use package.shinzo_scheduler_service.Store.Db.{LawfulDb}
use package.shinzo_scheduler_service.Store.Documents.{escrow_document, ledger_document}
use package.shinzo_scheduler_service.Settlement.Hub.{State}
use package.shinzo_scheduler_service.Settlement.Batch.{BatchProcessor, Closing, process_batch}
use package.shinzo_scheduler_service.Settlement.Batch.Amounts.{ClosesAll}
use package.shinzo_scheduler_service.Settlement.Batch.Atomic.{Unwritten, process_batch_atomic}
use package.shinzo_scheduler_service.Settlement.Tendermint.{
  BroadcastResponse, Encoding, TendermintBroadcaster, rpc_body, read_reply, broadcast,
  broadcast_batch_settlement, tendermint,
}

module _ {F H : Type 0} (wire : Encoding F) (b : TendermintBroadcaster H) where
  -- One request went out, with this payload as its transaction, and the node accepted it.
  abbrev pub Accepted : Option String → String → H → H → Type 0
  Accepted payload tx_hash h h' =
      (raw body : String) × (reply : BroadcastResponse) × (payload ≡ some raw)
      × (b.http_client (Text.◌++◌ b.rpc_url "/broadcast_tx_sync")
            (Text.◌++◌
              "{\"id\":1,\"jsonrpc\":\"2.0\",\"method\":\"broadcast_tx_sync\",\"params\":{\"tx\":\""
              (Text.◌++◌ (wire.encode_base64 raw) "\"}}"))
            h
          ≡ (ok body, h'))
      × (wire.unmarshal_response body ≡ some reply)
      × (reply.code ≡ pos 0)
      × (reply.hash ≡ tx_hash)

  read_reply-ok :
      (body tx_hash : String)
      → read_reply wire b body ≡ ok tx_hash
      → (reply : BroadcastResponse) × (wire.unmarshal_response body ≡ some reply)
        × (reply.code ≡ pos 0)
        × (reply.hash ≡ tx_hash)
  unfolding read_reply
  read_reply-ok body tx_hash e = elim (Option-cases (wire.unmarshal_response body)) [
    | inl unread ↦ absurd (ground arith)
    | inr (reply, q) ↦ elim (Bool-cases (eqb_ℤ reply.code (pos 0))) [
      | inl zero_code ↦ (reply, q, ground arith, ground arith)
      | inr other ↦ absurd (ground arith)
    ]
  ]

  pub broadcast-Accepted :
      (payload : Option String) (tx_hash : String) (h h' : H)
      → broadcast wire b payload h ≡ (ok tx_hash, h')
      → Accepted payload tx_hash h h'
  unfolding broadcast
  broadcast-Accepted none tx_hash h h' e = absurd (ground arith)
  broadcast-Accepted (some raw) tx_hash h h' e =
      let sent =
        b.http_client (Text.◌++◌ b.rpc_url "/broadcast_tx_sync") (rpc_body (wire.encode_base64 raw))
          h in
      elim (Result-cases sent.0) [
        | inr (t, q) ↦ absurd (ground arith)
        | inl (body, q) ↦
            let (reply, r, code, hash) = read_reply-ok body tx_hash (ground arith) in
            (raw, body, reply, refl, ground arith, r, code, hash)
      ]

module _ {F E L S H : Type 0} ⦃fl : Float64 F⦄ (rt : Runtime) (wire : Encoding F)
    (b : TendermintBroadcaster H) (st : BatchProcessor F E L S H) where
  -- The batch processor with the broadcaster that the command gives it.
  abbrev pub posting : BatchProcessor F E L S H
  posting = record st { hub = tendermint wire b }

  module _ (escrows : E → List (EscrowAccountRecord F)) (ledgers : L → List (SessionLedgerRecord F))
      (lawful_e : LawfulDb escrow_document st.escrow_st escrows)
      (lawful_l : LawfulDb ledger_document st.ledger_st ledgers) where
    -- A batch that succeeds has made one request to the node, whose transaction is the message that
    -- closes each session of the batch for what the escrow and the ledger on record say, and the
    -- reply to it has the code 0. A batch that fails, by the node's reply or before, has changed no
    -- escrow, ledger or settlement.
    pub process_batch-Accepted :
        (session_id : String) (session_ids : List String) (close_reason batch_id : String)
        (ids : ℕ → String) (now : ℤ) (s : State E L S H)
        → IsIeee fl
        → let t =
            process_batch rt posting (session_id ∷ session_ids) close_reason batch_id ids now s in
          ((t.0 ≡ ok tt)
            × ((cs : List (Closing F)) × (tx_hash : String) × ClosesAll rt posting escrows ledgers
                  lawful_e lawful_l s
                  (session_id ∷ session_ids)
                  cs
                × Accepted wire b
                    (wire.marshal_batch_settlement
                      (record { batch_id = batch_id; sessions = map (λ c. c.msg) cs }))
                    tx_hash
                    s.hub
                    t.1.hub))
          ⊎ ((e : String) × (t.0 ≡ err e) × Unwritten rt posting s t.1)
    unfolding broadcast_batch_settlement
    process_batch-Accepted session_id session_ids close_reason batch_id ids now s ieee =
        elim (process_batch_atomic rt posting escrows ledgers lawful_e lawful_l session_id
          session_ids close_reason batch_id ids now s ieee) [
            | inr failed ↦ inr failed
            | inl (done, (cs, closes, (tx_hash, sent))) ↦
                inl (done, (cs, tx_hash, closes, broadcast-Accepted wire b _ tx_hash s.hub _ sent))
          ]
