-- ===== src/Api/Subscriptions/Ownership.antt =====
-- Which requests of hosts change subscriptions (pkg/api/handlers/subscription.go).
use package.shinzo_scheduler_service.Base.{
  String, ◌≡◌, ◌∙◌, ◌⊎◌, inl, inr, Option, none, some, ok, err, Result-cases, Option-cases,
  Bool-cases, ◌==◌, eq_iff, arith,
}
use package.shinzo_scheduler_service.Base.Int.{ℤ}
use package.shinzo_scheduler_service.Base.Time.{Runtime}
use package.shinzo_scheduler_service.Base.Float.{Float64}
use package.shinzo_scheduler_service.Store.Records.{SubscriptionRecord, HostRecord, IndexerRecord}
use package.shinzo_scheduler_service.Subscription.Manager as Subscriptions
use package.shinzo_scheduler_service.Subscription.Manager.{CreateRequest}
use package.shinzo_scheduler_service.Api.Subscriptions.{
  SubscriptionHandler, State, auth_host, create, create_for, cancel, cancel_for,
}

module _ {F D I M H K S : Type 0} ⦃fl : Float64 F⦄ (rt : Runtime)
    (h : SubscriptionHandler F D I M H K S) where
  -- A request of a host: the token is good at this time and is that host's.
  abbrev pub IsFrom : HostRecord → String → ℤ → State D I M H → Type 0
  IsFrom host token unix s = auth_host rt h token unix s ≡ ok host

  cancel_for_own :
      (host : HostRecord) (sub_id : String) (s : State D I M H)
      → ((cancel_for rt h host sub_id s).1 ≡ s)
        ⊎ ((sub : SubscriptionRecord) × (indexer : Option (IndexerRecord F)) × (Subscriptions.get rt
                h.mgr sub_id s.managed
              ≡ ok (sub, indexer))
            × (sub.host_id ≡ host.peer_id)
            × ((cancel_for rt h host sub_id s).1
                ≡ record s { managed = (Subscriptions.cancel rt h.mgr sub_id s.managed).1 }))
  unfolding cancel_for
  cancel_for_own host sub_id s = elim (Result-cases (Subscriptions.get rt h.mgr sub_id s.managed)) [
    | inr (e, q) ↦ inl (ground arith)
    | inl ((sub, indexer), q) ↦ elim (Bool-cases (sub.host_id == host.peer_id)) [
      | inl own ↦ inr (sub, indexer, q, (eq_iff _ _).0 own, ground arith)
      | inr other ↦ inl (ground arith)
    ]
  ]

  -- What the call of a host may do to the subscriptions: make one in the host's own name, or cancel
  -- one of its own.
  pub data OwnChange (host : HostRecord) (s : State D I M H) : State D I M H → Type 0 where
    creates :
        (req : CreateRequest) (uuid match_uuid : String) (now : ℤ)
        → OwnChange host s (record s {
          managed =
              (Subscriptions.create rt h.mgr
                (record req { host_id = host.peer_id })
                uuid
                match_uuid
                now
                s.managed).1;
        })
    cancels :
        (sub_id : String) (sub : SubscriptionRecord) (indexer : Option (IndexerRecord F))
        → Subscriptions.get rt h.mgr sub_id s.managed ≡ ok (sub, indexer)
        → sub.host_id ≡ host.peer_id
        → OwnChange host s
            (record s { managed = (Subscriptions.cancel rt h.mgr sub_id s.managed).1 })

  -- The requests of the handlers that write.
  pub data Request : Type 0 where
    create_request : Option CreateRequest → String → String → ℤ → Request
    cancel_request : String → Request

  abbrev pub handle : String → ℤ → Request → State D I M H → State D I M H
  handle token unix (create_request body uuid match_uuid now) s =
      (create rt h token unix body uuid match_uuid now s).1
  handle token unix (cancel_request sub_id) s = (cancel rt h token unix sub_id s).1

  create-refused :
      (token : String) (unix : ℤ) (body : Option CreateRequest) (uuid match_uuid : String) (now : ℤ)
      (s : State D I M H) (e : String)
      → auth_host rt h token unix s ≡ err e
      → (create rt h token unix body uuid match_uuid now s).1 ≡ s
  unfolding create
  create-refused token unix body uuid match_uuid now s e q = ground arith

  create-own :
      (token : String) (unix : ℤ) (req : CreateRequest) (uuid match_uuid : String) (now : ℤ)
      (s : State D I M H) (host : HostRecord)
      → IsFrom host token unix s
      → (create rt h token unix (some req) uuid match_uuid now s).1 ≡ record s {
        managed =
            (Subscriptions.create rt h.mgr
              (record req { host_id = host.peer_id })
              uuid
              match_uuid
              now
              s.managed).1;
      }
  unfolding create create_for
  create-own token unix req uuid match_uuid now s host q = ground arith

  create-no_body :
      (token : String) (unix : ℤ) (uuid match_uuid : String) (now : ℤ) (s : State D I M H)
      (host : HostRecord)
      → IsFrom host token unix s
      → (create rt h token unix none uuid match_uuid now s).1 ≡ s
  unfolding create create_for
  create-no_body token unix uuid match_uuid now s host q = ground arith

  cancel-refused :
      (token : String) (unix : ℤ) (sub_id : String) (s : State D I M H) (e : String)
      → auth_host rt h token unix s ≡ err e
      → (cancel rt h token unix sub_id s).1 ≡ s
  unfolding cancel
  cancel-refused token unix sub_id s e q = ground arith

  cancel-cancel_for :
      (token : String) (unix : ℤ) (sub_id : String) (s : State D I M H) (host : HostRecord)
      → IsFrom host token unix s
      → (cancel rt h token unix sub_id s).1 ≡ (cancel_for rt h host sub_id s).1
  unfolding cancel
  cancel-cancel_for token unix sub_id s host q = ground arith

  -- A request changes nothing, or its token is good and is that of a host, in whose name it makes a
  -- subscription or one of whose subscriptions it cancels.
  pub handle-OwnChange :
      (token : String) (unix : ℤ) (req : Request) (s : State D I M H)
      → (handle token unix req s ≡ s)
        ⊎ ((host : HostRecord) × IsFrom host token unix s
            × OwnChange host s (handle token unix req s))
  handle-OwnChange token unix (create_request body uuid match_uuid now) s =
      elim (Result-cases (auth_host rt h token unix s)) [
        | inr (e, q) ↦ inl (create-refused token unix body uuid match_uuid now s e q)
        | inl (host, q) ↦ elim (Option-cases body) [
          | inl missing ↦ inl (rw missing (create-no_body token unix uuid match_uuid now s host q))
          | inr (req, given) ↦ inr (
            host,
            q,
            rw (given, create-own token unix req uuid match_uuid now s host q)
                (OwnChange.creates req uuid match_uuid now),
          )
        ]
      ]
  handle-OwnChange token unix (cancel_request sub_id) s =
      elim (Result-cases (auth_host rt h token unix s)) [
        | inr (e, q) ↦ inl (cancel-refused token unix sub_id s e q)
        | inl (host, q) ↦
            let same = cancel-cancel_for token unix sub_id s host q in
            elim (cancel_for_own host sub_id s) [
              | inl unchanged ↦ inl (same ∙ unchanged)
              | inr (sub, indexer, found, own, written) ↦
                  inr (host, q, rw (same, written) (OwnChange.cancels sub_id sub indexer found own))
            ]
      ]
