-- ===== src/Scheduler/Bootstrap.antt =====
-- The bootstrap peers of cmd/scheduler/main.go: what is seeded, and what becomes of the records.
use package.shinzo_scheduler_service.Base.{
  String, ◌≡◌, ◌≢◌, refl, ap, sym, subst, ◌∙◌, inl, inr, Bool, true, Option, none, some, List, [],
  ◌∷◌, ◌++◌, All, filter, first, ok, Result-cases, ◌==◌, eq_iff, eq_refl, arith,
}
use package.shinzo_scheduler_service.Base.Int.{ℤ}
use package.shinzo_scheduler_service.Base.Time.{Runtime}
use package.shinzo_scheduler_service.Base.Float.{Float64}
use package.shinzo_scheduler_service.Base.Unique.{
  All-append_one, All-map_of, All-imp, first-filter-map, first-filter_All, All-of_none,
}
use package.shinzo_scheduler_service.Store.Records.{IndexerRecord}
use package.shinzo_scheduler_service.Store.Db.{LawfulDb, write_at}
use package.shinzo_scheduler_service.Store.Documents.{indexer_document}
use package.shinzo_scheduler_service.Store.IndexerStore
use package.shinzo_scheduler_service.Store.IndexerStore.Answers.{get_by_peer_id-ok, create-ok}
use package.shinzo_scheduler_service.Auth.Window.{SignedBy}
use package.shinzo_scheduler_service.Registry.Indexers.{verify_request}
use package.shinzo_scheduler_service.Registry.Indexers.Identity.{verify_request-IsToken}
use package.shinzo_scheduler_service.Probe.Prober.{Prober, State}
use package.shinzo_scheduler_service.Probe.Prober.Rounds.{Call, run_all}
use package.shinzo_scheduler_service.Probe.Prober.Changes.{record_of, Change, Changes}
use package.shinzo_scheduler_service.Probe.Prober.Runs.{run_all-Changes}
use package.shinzo_scheduler_service.Config.{SchedulerConfig, BootstrapIndexer}
use package.shinzo_scheduler_service.Scheduler.{bootstrap_record, seed_one}

module _ {F : Type 0} where
  first-append :
      (p : IndexerRecord F → Bool) (xs ys : List (IndexerRecord F)) (a : IndexerRecord F)
      → first (filter p xs) ≡ some a
      → first (filter p (xs ++ ys)) ≡ some a
  first-append p [] ys a h = absurd (cc)
  first-append p (x ∷ xs) ys a h = ground (arith, first-append p xs ys a)

  first-append_new :
      (p : IndexerRecord F → Bool) (xs : List (IndexerRecord F)) (y : IndexerRecord F)
      → first (filter p xs) ≡ none
      → p y ≡ true
      → first (filter p (xs ++ y ∷ [])) ≡ some y
  first-append_new p [] y h k = rw k refl
  first-append_new p (x ∷ xs) y h k = ground (arith, first-append_new p xs y)

  none-some : {o : Option (IndexerRecord F)} {i : IndexerRecord F} → o ≡ none → o ≡ some i → ⊥
  none-some q r = cc

  -- There is a record with the peer id, and every such record has an empty key.
  pub record Keyless (peer_id : String) (rs : List (IndexerRecord F)) : Type 0 where
    pub on_record : IndexerRecord F
    pub found : record_of peer_id rs ≡ some on_record
    pub no_keys : All (λ i. (i.peer_id == peer_id) ≡ true → i.defra_pk ≡ "") rs

  write_at_peer :
      (id : String) (f : IndexerRecord F → IndexerRecord F)
      → ((i : IndexerRecord F) → (f i).peer_id ≡ i.peer_id)
      → (i : IndexerRecord F) → (write_at indexer_document id f i).peer_id ≡ i.peer_id
  write_at_peer id f peer i = ground (arith, peer i)

  write_at_key :
      (id : String) (f : IndexerRecord F → IndexerRecord F)
      → ((i : IndexerRecord F) → (f i).defra_pk ≡ i.defra_pk)
      → (i : IndexerRecord F) → (write_at indexer_document id f i).defra_pk ≡ i.defra_pk
  write_at_key id f key i = ground (arith, key i)

  Change-Keyless :
      (P : IndexerRecord F → Type 0) (peer_id : String) (a b : List (IndexerRecord F))
      → Change P a b
      → Keyless peer_id a
      → Keyless peer_id b
  Change-Keyless P peer_id a b (Change.kept _ e) k = subst (Keyless peer_id) (sym e) k
  Change-Keyless P peer_id a b (Change.wrote id f _ peer key keep e) k =
      let w = write_at indexer_document id f in
      subst (Keyless peer_id) (sym e) (record {
        on_record = w k.on_record;
        found =
            first-filter-map (λ i. i.peer_id == peer_id) w a k.on_record
              (λ i. ap (λ n. n == peer_id) (write_at_peer id f peer i)) k.found;
        no_keys =
            All-map_of (λ i. (i.peer_id == peer_id) ≡ true → i.defra_pk ≡ "") w
              (λ i empty same.
                write_at_key id f key i
                ∙ empty (subst (λ n. (n == peer_id) ≡ true) (write_at_peer id f peer i) same))
              a k.no_keys;
      })
  Change-Keyless P peer_id a b (Change.added y _ new h e) k =
      subst (Keyless peer_id) (sym e) (record {
        on_record = k.on_record;
        found = first-append (λ i. i.peer_id == peer_id) a (y ∷ []) k.on_record k.found;
        no_keys = All-append_one _ a y k.no_keys (λ same. absurd (
            none-some (subst (λ n. record_of n a ≡ none) ((eq_iff y.peer_id peer_id).0 same) new)
              k.found));
      })

  Changes-Keyless :
      (P : IndexerRecord F → Type 0) (peer_id : String) (a b : List (IndexerRecord F))
      → Changes P a b
      → Keyless peer_id a
      → Keyless peer_id b
  Changes-Keyless P peer_id a b (Changes.done _) k = k
  Changes-Keyless P peer_id a b (Changes.step _ a' _ s ss) k =
      Changes-Keyless P peer_id a' b ss (Change-Keyless P peer_id a a' s k)

module _ {F D C K S P : Type 0} ⦃fl : Float64 F⦄ (rt : Runtime) (p : Prober F D P C K S)
    (docs : D → List (IndexerRecord F))
    (lawful : LawfulDb indexer_document p.indexer_reg.indexer_st docs)
    (lawful_listing : LawfulDb indexer_document p.indexer_st docs)
    (empty_key : (bytes : String)
      → p.indexer_reg.crypto.decode_hex "" ≡ some bytes
      → p.indexer_reg.crypto.parse_pub_key bytes ≡ none) where
  -- What the decoder makes of an empty text is no public key.
  no_signature : (key hash sig : String) → key ≡ "" → SignedBy p.indexer_reg.crypto key hash sig → ⊥
  no_signature key hash sig empty signed =
      let (bytes, pub_key, sig_bytes, signature, decoded, parsed, _, _, _) =
        subst (λ k. SignedBy p.indexer_reg.crypto k hash sig) empty signed in
      ground (arith, empty_key bytes decoded)

  -- Where the records of a peer id have no key, no token passes for it after any calls.
  never_verified :
      (calls : List (Call F)) (peer_id token : String) (unix : ℤ) (s : State D P C)
      (rec : IndexerRecord F)
      → Keyless peer_id (docs s.indexers)
      → verify_request rt p.indexer_reg token unix (run_all rt p calls s).indexers ≡ ok rec
      → rec.peer_id ≢ peer_id
  never_verified calls peer_id token unix s rec k verified same =
      let after =
        Changes-Keyless (λ _. Unit {0}) peer_id _ _
          (run_all-Changes rt p docs lawful lawful_listing (λ _. Unit {0}) (λ _ _ _. tt)
            (λ _ _ _. tt) (λ _ _ _ _. tt) (λ _ _. tt) (λ _ _ _ _ _ _. tt) calls s
            (everything (docs s.indexers)))
          k in
      let (on_file, signed) =
        verify_request-IsToken rt p.indexer_reg docs lawful token unix
          (run_all rt p calls s).indexers rec verified in
      let empty : rec.defra_pk ≡ "" =
        first-filter_All (λ i. (i.peer_id == peer_id) ≡ true → i.defra_pk ≡ "")
          (λ i. i.peer_id == rec.peer_id) _ rec after.no_keys on_file ((eq_iff _ _).1 same) in
      no_signature rec.defra_pk _ _ empty (signed.6)
    where
      everything : (rs : List (IndexerRecord F)) → All (λ _. Unit {0}) rs
      everything [] = tt
      everything (r ∷ rs) = (tt, everything rs)

  seed_one-Keyless :
      (sc : SchedulerConfig F) (bi : BootstrapIndexer) (now : ℤ) (d : D) (x : IndexerRecord F)
      → record_of bi.peer_id (docs d) ≡ none
      → (IndexerStore.create p.indexer_reg.indexer_st (bootstrap_record rt sc bi now) d).0 ≡ ok x
      → Keyless bi.peer_id (docs (seed_one rt p.indexer_reg.indexer_st sc bi now d))
  unfolding seed_one
  seed_one-Keyless sc bi now d x new created =
      let db = p.indexer_reg.indexer_st in
      let (id, e, _) = create-ok db docs lawful (bootstrap_record rt sc bi now) d x created in
      let seeded : Keyless bi.peer_id
          (docs (IndexerStore.create db (bootstrap_record rt sc bi now) d).1) =
        subst (Keyless bi.peer_id) (sym e) (record {
          on_record = record (bootstrap_record rt sc bi now) { doc_id = id };
          found =
              first-append_new (λ i. i.peer_id == bi.peer_id) (docs d) _ new (eq_refl bi.peer_id);
          no_keys =
              All-append_one _ (docs d) _
                (All-imp _ _ (docs d) (λ i other same. absurd (ground arith))
                  (All-of_none (λ i. i.peer_id == bi.peer_id) (docs d) new))
                (λ same. refl);
        }) in
      elim (Result-cases (IndexerStore.get_by_peer_id db bi.peer_id d)) [
        | inr (t, q) ↦
            let same : seed_one rt db sc bi now d
                ≡ (IndexerStore.create db (bootstrap_record rt sc bi now) d).1 =
              ground arith in
            rw same seeded
        | inl (none, q) ↦
            let same : seed_one rt db sc bi now d
                ≡ (IndexerStore.create db (bootstrap_record rt sc bi now) d).1 =
              ground arith in
            rw same seeded
        | inl (some found, q) ↦
            absurd
              (none-some new (sym (get_by_peer_id-ok db docs lawful bi.peer_id d (some found) q)))
      ]

  -- A peer that the bootstrap has seeded, with no record under its id before, can never prove who it
  -- is: whatever registrations, heartbeats, deregistrations and rounds of the prober follow, its own
  -- registration included, no token passes for it, since the record keeps its empty key. What an empty
  -- text decodes to is no public key.
  pub seeded-never_verified :
      (sc : SchedulerConfig F) (bi : BootstrapIndexer) (seeded_at : ℤ) (s : State D P C)
      (x : IndexerRecord F)
      → record_of bi.peer_id (docs s.indexers) ≡ none
      → (IndexerStore.create p.indexer_reg.indexer_st
          (bootstrap_record rt sc bi seeded_at)
          s.indexers).0
        ≡ ok x
      → (calls : List (Call F)) (token : String) (unix : ℤ) (rec : IndexerRecord F)
      → verify_request rt p.indexer_reg token unix
          (run_all rt p calls (record s {
            indexers = seed_one rt p.indexer_reg.indexer_st sc bi seeded_at s.indexers;
          })).indexers
        ≡ ok rec
      → rec.peer_id ≢ bi.peer_id
  seeded-never_verified sc bi seeded_at s x new created calls token unix rec verified =
      never_verified calls bi.peer_id token unix _ rec
        (seed_one-Keyless sc bi seeded_at s.indexers x new created) verified
