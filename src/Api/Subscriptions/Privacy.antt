-- ===== src/Api/Subscriptions/Privacy.antt =====
-- What the answers of pkg/api/handlers/subscription.go show, and to whom.
use package.shinzo_scheduler_service.Base.{
  String, ◌≡◌, refl, ap, sym, ◌∙◌, subst, inl, inr, true, Option, none, some, List, [], ◌∷◌, All,
  filter, ok, Result-cases, Bool-cases, ◌==◌, eq_iff, arith, not, ◌&&◌,
}
use package.shinzo_scheduler_service.Base.Int.{ℤ}
use package.shinzo_scheduler_service.Base.Time.{Runtime}
use package.shinzo_scheduler_service.Base.Float.{Float64}
use package.shinzo_scheduler_service.Store.Records.{SubscriptionRecord, HostRecord, IndexerRecord}
use package.shinzo_scheduler_service.Store.Db.{LawfulDb}
use package.shinzo_scheduler_service.Store.Documents.{subscription_document}
use package.shinzo_scheduler_service.Store.SubscriptionStore.Answers.{list_by_host-ok}
use package.shinzo_scheduler_service.Subscription.Manager as Subscriptions
use package.shinzo_scheduler_service.Api.Reply.{Reply, write_json, write_error, succeeds}
use package.shinzo_scheduler_service.Api.Subscriptions.{
  SubscriptionHandler, State, SubscriptionView, view_of, auth_host, get, get_for, list, list_for,
}

-- What an answer shows of subscriptions belongs to the host.
abbrev pub ShowsOwn : HostRecord → Reply SubscriptionView → Type 0
ShowsOwn host (write_json code view) = view.subscription.host_id ≡ host.peer_id
ShowsOwn host (write_error code msg) = Unit

abbrev pub ListsOwn : HostRecord → Reply (List SubscriptionRecord) → Type 0
ListsOwn host (write_json code subs) = All (λ r. r.host_id ≡ host.peer_id) subs
ListsOwn host (write_error code msg) = Unit

All-filter_own :
    (id : String) (rs : List SubscriptionRecord)
    → All (λ r. r.host_id ≡ id) (filter (λ r. r.host_id == id) rs)
All-filter_own id [] = tt
All-filter_own id (r ∷ rs) = elim (Bool-cases (r.host_id == id)) [
  | inl own ↦ rw own ((eq_iff r.host_id id).0 own, All-filter_own id rs)
  | inr other ↦ rw other (All-filter_own id rs)
]

view-subscription :
    {F : Type 0} (sub : SubscriptionRecord) (indexer : Option (IndexerRecord F))
    → (view_of sub indexer).subscription ≡ sub
view-subscription sub none = refl
view-subscription sub (some indexer) = refl

module _ {F D I M H K S : Type 0} ⦃fl : Float64 F⦄ (rt : Runtime)
    (h : SubscriptionHandler F D I M H K S) (docs : D → List SubscriptionRecord)
    (lawful : LawfulDb subscription_document h.mgr.sub_st docs) where
  get_for-ShowsOwn :
      (host : HostRecord) (sub_id : String) (s : State D I M H)
      → ShowsOwn host (get_for rt h host sub_id s).0
  unfolding get_for
  get_for-ShowsOwn host sub_id s =
      elim (Result-cases (Subscriptions.get rt h.mgr sub_id s.managed)) [
        | inr (e, q) ↦
            let reply : (get_for rt h host sub_id s).0 ≡ write_error 404 e = ground arith in
            subst (ShowsOwn host) (sym reply) tt
        | inl ((sub, indexer), q) ↦ elim (Bool-cases (sub.host_id == host.peer_id)) [
          | inr other ↦
              let reply : (get_for rt h host sub_id s).0 ≡ write_error 403 "forbidden" =
                ground arith in
              subst (ShowsOwn host) (sym reply) tt
          | inl own ↦
              let reply : (get_for rt h host sub_id s).0 ≡ write_json 200 (view_of sub indexer) =
                ground arith in
              subst (ShowsOwn host) (sym reply) (
                ap (λ (r : SubscriptionRecord). r.host_id) (view-subscription sub indexer)
                ∙ (eq_iff _ _).0 own)
        ]
      ]

  list_by_host-own :
      (id : String) (s : Subscriptions.State D I M) (subs : List SubscriptionRecord)
      → Subscriptions.list_by_host rt h.mgr id s ≡ ok subs
      → All (λ r. r.host_id ≡ id) subs
  unfolding Subscriptions.list_by_host
  list_by_host-own id s subs q =
      subst (All (λ r. r.host_id ≡ id))
        (sym (list_by_host-ok h.mgr.sub_st docs lawful id s.subs subs q))
        (All-filter_own id (docs s.subs))

  list_for-ListsOwn :
      (host : HostRecord) (host_id : String) (s : State D I M H)
      → ListsOwn host (list_for rt h host host_id s).0
  unfolding list_for
  list_for-ListsOwn host host_id s =
      elim (Bool-cases (not (host_id == "") && not (host_id == host.peer_id))) [
        | inl other ↦
            let reply : (list_for rt h host host_id s).0 ≡ write_error 403 "forbidden" =
              ground arith in
            subst (ListsOwn host) (sym reply) tt
        | inr own ↦
            elim (Result-cases (Subscriptions.list_by_host rt h.mgr host.peer_id s.managed)) [
              | inr (e, q) ↦
                  let reply : (list_for rt h host host_id s).0 ≡ write_error 500 "internal error" =
                    ground arith in
                  subst (ListsOwn host) (sym reply) tt
              | inl (subs, q) ↦
                  let reply : (list_for rt h host host_id s).0 ≡ write_json 200 subs =
                    ground arith in
                  subst (ListsOwn host) (sym reply) (list_by_host-own host.peer_id s.managed subs q)
            ]
      ]

  -- A subscription or a list of subscriptions is shown only for a good token, and is that of the
  -- token's host.
  pub answers_own :
      (token : String) (unix : ℤ) (sub_id host_id : String) (s : State D I M H)
      → (succeeds (get rt h token unix sub_id s).0 ≡ true
          → (host : HostRecord) × (auth_host rt h token unix s ≡ ok host)
            × ShowsOwn host (get rt h token unix sub_id s).0)
        × (succeeds (list rt h token unix host_id s).0 ≡ true
            → (host : HostRecord) × (auth_host rt h token unix s ≡ ok host)
              × ListsOwn host (list rt h token unix host_id s).0)
  unfolding get list
  answers_own token unix sub_id host_id s = elim (Result-cases (auth_host rt h token unix s)) [
    | inr (e, q) ↦ (λ good. absurd (ground arith), λ good. absurd (ground arith))
    | inl (host, q) ↦
        let shown : get rt h token unix sub_id s ≡ get_for rt h host sub_id s = ground arith in
        let listed : list rt h token unix host_id s ≡ list_for rt h host host_id s = ground arith in
        (
          λ good. (host, q, rw shown (get_for-ShowsOwn host sub_id s)),
          λ good. (host, q, rw listed (list_for-ListsOwn host host_id s)),
        )
  ]
