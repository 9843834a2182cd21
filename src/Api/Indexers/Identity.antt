-- ===== src/Api/Indexers/Identity.antt =====
-- Which requests write to the record of an indexer (pkg/api/handlers/indexer.go).
use package.shinzo_scheduler_service.Base.{
  String, ◌≡◌, subst, ◌⊎◌, inl, inr, true, false, Option, none, some, List, filter, first,
  Result-cases, Bool-cases, ◌==◌, eq_iff, arith,
}
use package.shinzo_scheduler_service.Base.Int.{ℤ}
use package.shinzo_scheduler_service.Base.Time.{Runtime}
use package.shinzo_scheduler_service.Base.Float.{Float64}
use package.shinzo_scheduler_service.Store.Records.{IndexerRecord}
use package.shinzo_scheduler_service.Store.Db.{LawfulDb}
use package.shinzo_scheduler_service.Store.Documents.{indexer_document}
use package.shinzo_scheduler_service.Auth.Window.{IsToken}
use package.shinzo_scheduler_service.Registry.Indexers as Registry
use package.shinzo_scheduler_service.Registry.Indexers.{HeartbeatRequest}
use package.shinzo_scheduler_service.Registry.Indexers.Identity.{verify_request-IsToken}
use package.shinzo_scheduler_service.Api.Indexers.{IndexerHandler, owns, heartbeat, deregister}

-- The requests of the handlers that write and need a token, with the peer id of the path.
pub data Request : Type 0 where
  heartbeat_request : Option HeartbeatRequest → ℤ → Request
  deregister_request : Request

module _ {F D K S : Type 0} ⦃fl : Float64 F⦄ (rt : Runtime) (h : IndexerHandler F D K S) where
  -- What a call may do to the indexers: note a heartbeat of the peer, or mark it as gone.
  pub data OwnChange (peer_id : String) (d : D) : D → Type 0 where
    heard :
        (req : HeartbeatRequest) (now : ℤ)
        → OwnChange peer_id d (Registry.heartbeat rt h.reg peer_id req now d).1
    left : OwnChange peer_id d (Registry.deregister rt h.reg peer_id d).1

  abbrev pub handle : String → String → ℤ → Request → D → D
  handle token peer_id unix (heartbeat_request body now) d =
      (heartbeat rt h token peer_id body unix now d).1
  handle token peer_id unix deregister_request d = (deregister rt h token peer_id unix d).1

  handle-refused :
      (token peer_id : String) (unix : ℤ) (req : Request) (d : D)
      → owns rt h token unix peer_id d ≡ false
      → handle token peer_id unix req d ≡ d
  unfolding heartbeat deregister
  handle-refused token peer_id unix (heartbeat_request body now) d q = ground arith
  handle-refused token peer_id unix deregister_request d q = ground arith

  handle-owned :
      (token peer_id : String) (unix : ℤ) (req : Request) (d : D)
      → owns rt h token unix peer_id d ≡ true
      → (handle token peer_id unix req d ≡ d)
        ⊎ OwnChange peer_id d (handle token peer_id unix req d)
  unfolding heartbeat deregister
  handle-owned token peer_id unix (heartbeat_request none now) d q = inl (ground arith)
  handle-owned token peer_id unix (heartbeat_request (some req) now) d q =
      let same : handle token peer_id unix (heartbeat_request (some req) now) d
          ≡ (Registry.heartbeat rt h.reg peer_id req now d).1 =
        ground arith in
      inr (rw same (OwnChange.heard req now))
  handle-owned token peer_id unix deregister_request d q =
      let same : handle token peer_id unix deregister_request d
          ≡ (Registry.deregister rt h.reg peer_id d).1 =
        ground arith in
      inr (rw same OwnChange.left)

  module _ (docs : D → List (IndexerRecord F))
      (lawful : LawfulDb indexer_document h.reg.indexer_st docs) where
    -- A record of the peer with a key that has signed the token.
    abbrev pub Owns : String → ℤ → String → D → Type 0
    Owns token unix peer_id d =
        (rec : IndexerRecord F) × (first (filter (λ i. i.peer_id == peer_id) (docs d)) ≡ some rec)
        × IsToken h.reg.crypto rec.defra_pk token unix peer_id

    owns-Owns :
        (token peer_id : String) (unix : ℤ) (d : D)
        → owns rt h token unix peer_id d ≡ true
        → Owns token unix peer_id d
    unfolding owns
    owns-Owns token peer_id unix d q =
        elim (Result-cases (Registry.verify_request rt h.reg token unix d)) [
          | inr (e, r) ↦ absurd (ground arith)
          | inl (rec, r) ↦
              let same : rec.peer_id ≡ peer_id = (eq_iff rec.peer_id peer_id).0 (ground arith) in
              let (on_file, signed) =
                verify_request-IsToken rt h.reg docs lawful token unix d rec r in
              (
                rec,
                subst (λ n. first (filter (λ i. i.peer_id == n) (docs d)) ≡ some rec) same on_file,
                subst (IsToken h.reg.crypto rec.defra_pk token unix) same signed,
              )
        ]

    -- A request of the API changes nothing, or its token is in time, names the peer of the path and is
    -- signed with the key on record for that peer, of which it notes a heartbeat or the end.
    pub handle-OwnRecord :
        (token peer_id : String) (unix : ℤ) (req : Request) (d : D)
        → (handle token peer_id unix req d ≡ d)
          ⊎ (Owns token unix peer_id d × OwnChange peer_id d (handle token peer_id unix req d))
    handle-OwnRecord token peer_id unix req d = elim (Bool-cases (owns rt h token unix peer_id d)) [
      | inr other ↦ inl (handle-refused token peer_id unix req d other)
      | inl own ↦ elim (handle-owned token peer_id unix req d own) [
        | inl same ↦ inl same
        | inr changed ↦ inr (owns-Owns token peer_id unix d own, changed)
      ]
    ]
