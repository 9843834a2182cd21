-- ===== src/Registry/Indexers/Identity.antt =====
-- Who is registered, and who passes as an indexer (pkg/registry/indexer_registry.go).
use package.shinzo_scheduler_service.Base.{
  String, ◌≡◌, sym, subst, ◌⊎◌, none, some, List, [], ◌∷◌, ◌++◌, map, ok, arith, ◌==◌, eq_iff,
  filter, first, Result-cases, Option-cases, inl, inr, ◌≢◌,
}
use package.shinzo_scheduler_service.Base.Int.{ℤ, pos}
use package.shinzo_scheduler_service.Base.Time.{Runtime}
use package.shinzo_scheduler_service.Base.Float.{Float64, one_F}
use package.shinzo_scheduler_service.Base.Unique.{first-filter_test}
use package.shinzo_scheduler_service.Store.Records.{IndexerRecord}
use package.shinzo_scheduler_service.Store.Db.{LawfulDb, write_at}
use package.shinzo_scheduler_service.Store.Documents.{indexer_document}
use package.shinzo_scheduler_service.Store.IndexerStore
use package.shinzo_scheduler_service.Store.Status
use package.shinzo_scheduler_service.Store.IndexerStore.Answers.{
  get_by_peer_id-ok, update-ok, create-ok,
}
use package.shinzo_scheduler_service.Auth.{
  split_token, verify_signature, verify_request_token, extract_peer_id,
}
use package.shinzo_scheduler_service.Auth.Window.{IsToken, verify_request_token-IsToken}
use package.shinzo_scheduler_service.Registry.Indexers.{
  RegisterIndexerRequest, RegisterIndexerResponse, IndexerRegistry, verify_messages,
  verify_registration, indexer_of, reregistered, register, verify_request,
}

module _ {F D P S : Type 0} ⦃fl : Float64 F⦄ (rt : Runtime) (r : IndexerRegistry F D P S)
    (docs : D → List (IndexerRecord F)) (lawful : LawfulDb indexer_document r.indexer_st docs) where
  -- A request passes only with a token that names an indexer on record and is signed with the key
  -- that this record holds, within the window of time.
  pub verify_request-IsToken :
      (token : String) (unix : ℤ) (d : D) (rec : IndexerRecord F)
      → verify_request rt r token unix d ≡ ok rec
      → (first (filter (λ i. i.peer_id == rec.peer_id) (docs d)) ≡ some rec)
        × IsToken r.crypto rec.defra_pk token unix rec.peer_id
  unfolding verify_request extract_peer_id
  verify_request-IsToken token unix d rec h = elim (Option-cases (split_token token)) [
    | inl e ↦ absurd (ground arith)
    | inr ((peer_id, ts_str, sig_hex), split) ↦
        elim (Result-cases (IndexerStore.get_by_peer_id r.indexer_st peer_id d)) [
          | inr (e, q) ↦ absurd (ground arith)
          | inl (none, q) ↦ absurd (ground arith)
          | inl (some found, q) ↦
              elim (Result-cases (verify_request_token r.crypto found.defra_pk token unix)) [
                | inr (e, q') ↦ absurd (ground arith)
                | inl (name, q') ↦
                    let same : found ≡ rec = ground arith in
                    let on_file =
                      get_by_peer_id-ok r.indexer_st docs lawful peer_id d (some found) q in
                    let named = first-filter_test _ (docs d) found (sym on_file) in
                    let token_ok =
                      verify_request_token-IsToken r.crypto found.defra_pk token unix name q' in
                    let peer : found.peer_id ≡ peer_id = (eq_iff found.peer_id peer_id).0 named in
                    let names : name ≡ found.peer_id = ground (arith, token_ok.3) in
                    subst
                      (λ i.
                        (first (filter (λ j. j.peer_id == i.peer_id) (docs d)) ≡ some i)
                        × IsToken r.crypto i.defra_pk token unix i.peer_id)
                      same
                      (
                        subst (λ n. first (filter (λ j. j.peer_id == n) (docs d)) ≡ some found)
                            (sym peer) (sym on_file),
                        subst (IsToken r.crypto found.defra_pk token unix) names token_ok,
                      )
              ]
        ]
  ]

  -- Every message is signed with the key.
  abbrev pub SignedMessages : String → List (String × String) → Type 0
  SignedMessages pub_key [] = Unit
  SignedMessages pub_key ((msg, sig) ∷ messages) =
      (verify_signature r.crypto pub_key msg sig ≡ ok tt) × SignedMessages pub_key messages

  verify_messages-SignedMessages :
      (pub_key : String) (messages : List (String × String))
      → verify_messages r.crypto pub_key messages ≡ ok tt
      → SignedMessages pub_key messages
  unfolding verify_messages
  verify_messages-SignedMessages pub_key [] h = tt
  verify_messages-SignedMessages pub_key ((msg, sig) ∷ messages) h =
      elim (Result-cases (verify_signature r.crypto pub_key msg sig)) [
        | inr (e, q) ↦ absurd (ground arith)
        | inl (tt, q) ↦ (q, verify_messages-SignedMessages pub_key messages (ground arith))
      ]

  -- A request that the registry can take: complete, for its chain and network, with at least one
  -- message, all signed with the key of the request.
  abbrev pub IsRegistration : RegisterIndexerRequest → Type 0
  IsRegistration req =
      (req.peer_id ≢ "")
      × (req.defra_pk ≢ "")
      × (req.chain ≡ r.chain)
      × (req.network ≡ r.network)
      × (req.signed_messages ≢ [])
      × SignedMessages req.defra_pk req.signed_messages

  verify_registration-IsRegistration :
      (req : RegisterIndexerRequest) → verify_registration rt r req ≡ ok tt → IsRegistration req
  unfolding verify_registration
  verify_registration-IsRegistration req h = (
    ground (arith, eq_iff req.peer_id ""),
    ground (arith, eq_iff req.defra_pk ""),
    ground (arith, eq_iff req.chain r.chain),
    ground (arith, eq_iff req.network r.network),
    ground arith,
    verify_messages-SignedMessages req.defra_pk req.signed_messages (ground arith),
  )

  -- What a registration has written: a new record, or the address, the prices and the status of the
  -- record that has this peer id. The key on that record is neither compared nor changed.
  abbrev pub Registered : RegisterIndexerRequest → ℤ → D → D → Type 0
  Registered req now d d' =
      ((first (filter (λ i. i.peer_id == req.peer_id) (docs d)) ≡ none)
        × ((id : String) × (docs d'
              ≡ docs d
                ++ (record {
                  doc_id = id;
                  peer_id = req.peer_id;
                  defra_pk = req.defra_pk;
                  http_url = req.http_url;
                  multiaddr = req.multiaddr;
                  chain = req.chain;
                  network = req.network;
                  current_tip = pos 0;
                  snapshot_ranges = "[]";
                  pricing = req.pricing;
                  reliability_score = one_F;
                  last_heartbeat = rt.format_time now;
                  registered_at = rt.format_time now;
                  status = Status.active;
                })
                  ∷ [])))
      ⊎ ((found : IndexerRecord F) × (first (filter (λ i. i.peer_id == req.peer_id) (docs d))
            ≡ some found)
          × (docs d'
              ≡ map
                  (write_at indexer_document found.doc_id (λ i. record i {
                    http_url = req.http_url;
                    multiaddr = req.multiaddr;
                    pricing = req.pricing;
                    status = Status.active;
                  }))
                  (docs d)))

  -- A registration succeeds only for a request whose messages are all signed with the key that it
  -- names, and for the registry's chain and network.
  pub register-Registered :
      (req : RegisterIndexerRequest) (now : ℤ) (d : D) (answer : RegisterIndexerResponse)
      → (register rt r req now d).0 ≡ ok answer
      → IsRegistration req × Registered req now d (register rt r req now d).1
  unfolding register
  register-Registered req now d answer done = elim (Result-cases (verify_registration rt r req)) [
    | inr (e, v) ↦ absurd (ground arith)
    | inl (tt, v) ↦ elim (Result-cases (IndexerStore.get_by_peer_id r.indexer_st req.peer_id d)) [
      | inr (e, q) ↦ absurd (ground arith)
      | inl (none, q) ↦ (
        verify_registration-IsRegistration req v,
        inl (
          sym (get_by_peer_id-ok r.indexer_st docs lawful req.peer_id d none q),
          elim (Result-cases (IndexerStore.create r.indexer_st (indexer_of rt r req now) d).0) [
            | inr (e, refused) ↦ absurd (ground arith)
            | inl (x, made) ↦
                let (id, added, _) =
                  create-ok r.indexer_st docs lawful (indexer_of rt r req now) d x made in
                (id, ground (arith, added))
          ],
        ),
      )
      | inl (some found, q) ↦ (
        verify_registration-IsRegistration req v,
        inr (
          found,
          sym (get_by_peer_id-ok r.indexer_st docs lawful req.peer_id d (some found) q),
          ground (arith, update-ok r.indexer_st docs lawful found.doc_id (reregistered rt r req) d),
        ),
      )
    ]
  ]
