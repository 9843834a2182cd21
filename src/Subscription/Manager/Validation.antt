-- ===== src/Subscription/Manager/Validation.antt =====
-- Which requests `Create` takes (pkg/subscription/manager.go).
use package.shinzo_scheduler_service.Base.{
  String, ◌≡◌, ◌≢◌, ◌↔◌, ◌⊎◌, inl, inr, false, none, some, List, ok, arith, ◌==◌, eq_iff, filter,
  first, Result-cases, Bool-cases, refl, sym,
}
use package.shinzo_scheduler_service.Base.Int.{ℤ, pos, ◌<ℤ◌, eq_of_parts}
use package.shinzo_scheduler_service.Base.Time.{Runtime}
use package.shinzo_scheduler_service.Base.Float.{Float64}
use package.shinzo_scheduler_service.Store.Records.{SubscriptionRecord, IndexerRecord}
use package.shinzo_scheduler_service.Store.Db.{LawfulDb}
use package.shinzo_scheduler_service.Store.Documents.{indexer_document}
use package.shinzo_scheduler_service.Store.Status
use package.shinzo_scheduler_service.Store.SubType
use package.shinzo_scheduler_service.Store.IndexerStore
use package.shinzo_scheduler_service.Store.IndexerStore.Answers as Indexers
use package.shinzo_scheduler_service.Subscription.Manager.{
  CreateRequest, Manager, State, validate_create, create,
}

-- A request that can be met: both parties are named, and it is for the tip, or for a range of
-- blocks that is not empty and has no end at block 0.
abbrev pub IsRequest : CreateRequest → Type 0
IsRequest req =
    (req.host_id ≢ "")
    × (req.indexer_id ≢ "")
    × ((req.sub_type ≡ SubType.tip)
        ⊎ ((req.sub_type ≡ SubType.snapshot)
            × (req.block_from ≢ pos 0)
            × (req.block_to ≢ pos 0)
            × (req.block_from <ℤ req.block_to)))

-- The validation passes exactly the requests that can be met.
pub validate_create-IsRequest :
    (req : CreateRequest) → (validate_create req ≡ ok tt) ↔ IsRequest req
unfolding validate_create
validate_create-IsRequest req =
    let host = eq_iff req.host_id "" in
    let indexer = eq_iff req.indexer_id "" in
    let tip = eq_iff req.sub_type SubType.tip in
    let snapshot = eq_iff req.sub_type SubType.snapshot in
    let from_0 = eq_of_parts req.block_from (pos 0) in
    let to_0 = eq_of_parts req.block_to (pos 0) in
    (
      λ h. ground (arith, host, indexer, tip, snapshot, from_0, to_0),
      λ (named, addressed, kind). elim kind [
        | inl is_tip ↦
            let other : (req.sub_type == SubType.snapshot) ≡ false = rw is_tip refl in
            ground (arith, host, indexer, tip)
        | inr range ↦ ground (arith, host, indexer, snapshot, from_0, to_0, range)
      ],
    )

module _ {F D I M : Type 0} ⦃fl : Float64 F⦄ (rt : Runtime) (m : Manager F D I M)
    (docs : I → List (IndexerRecord F)) (lawful : LawfulDb indexer_document m.indexer_st docs) where
  -- An active indexer with this peer id is on record.
  abbrev pub HasActive : String → I → Type 0
  HasActive indexer_id i =
      (indexer : IndexerRecord F) × (first (filter (λ r. r.peer_id == indexer_id) (docs i))
        ≡ some indexer)
      × (indexer.status ≡ Status.active)

  -- A subscription is created only for a request that can be met and an indexer on record that is
  -- active.
  pub create_only_available :
      (req : CreateRequest) (uuid match_uuid : String) (now : ℤ) (s : State D I M)
      (sub : SubscriptionRecord)
      → (create rt m req uuid match_uuid now s).0 ≡ ok sub
      → IsRequest req × HasActive req.indexer_id s.indexers
  unfolding create
  create_only_available req uuid match_uuid now s sub done =
      elim (Result-cases (validate_create req)) [
        | inr (e, v) ↦ absurd (ground arith)
        | inl (tt, v) ↦
            elim (Result-cases
              (IndexerStore.get_by_peer_id m.indexer_st req.indexer_id s.indexers)) [
                | inr (e, q) ↦ absurd (ground arith)
                | inl (none, q) ↦ absurd (ground arith)
                | inl (some indexer, q) ↦ (
                  (validate_create-IsRequest req).0 v,
                  (
                    indexer,
                    sym (
                        Indexers.get_by_peer_id-ok m.indexer_st docs lawful req.indexer_id
                          s.indexers (some indexer) q),
                    ground (arith, eq_iff indexer.status Status.active),
                  ),
                )
              ]
      ]

  -- A request that fails the validation, or whose indexer is not active, changes nothing.
  pub create_refused :
      (req : CreateRequest) (uuid match_uuid : String) (now : ℤ) (s : State D I M)
      → (IsRequest req × HasActive req.indexer_id s.indexers → ⊥)
      → (create rt m req uuid match_uuid now s).1 ≡ s
  unfolding create
  create_refused req uuid match_uuid now s refused = elim (Result-cases (validate_create req)) [
    | inr (e, v) ↦ ground arith
    | inl (tt, v) ↦
        elim (Result-cases (IndexerStore.get_by_peer_id m.indexer_st req.indexer_id s.indexers)) [
          | inr (e, q) ↦ ground arith
          | inl (none, q) ↦ ground arith
          | inl (some indexer, q) ↦ elim (Bool-cases (indexer.status == Status.active)) [
            | inr gone ↦ ground arith
            | inl active ↦ absurd (
                refused (
                  (validate_create-IsRequest req).0 v,
                  (
                    indexer,
                    sym (
                        Indexers.get_by_peer_id-ok m.indexer_st docs lawful req.indexer_id
                          s.indexers (some indexer) q),
                    ground (arith, eq_iff indexer.status Status.active),
                  ),
                ))
          ]
        ]
  ]
