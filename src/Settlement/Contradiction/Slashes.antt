-- ===== src/Settlement/Contradiction/Slashes.antt =====
-- What the hub is sent in a round (pkg/settlement/contradiction.go), and when evidence is resolved.
use Prim.Native.String as Text
use package.shinzo_scheduler_service.Base.{
  String, ◌≡◌, refl, ◌∙◌, Bool, List, [], ◌∷◌, map, length, filter, elem, ok, err, ◌==◌, arith, not,
  ◌&&◌, Result-cases, inl, inr, if◌then◌else◌, true, Bool-cases,
}
use package.shinzo_scheduler_service.Base.Int.{ℤ, pos, leb_ℤ, ltb_ℤ}
use package.shinzo_scheduler_service.Base.Sets.{Distinct, elem-filter, filter-Distinct}
use package.shinzo_scheduler_service.Base.Time.{Runtime}
use package.shinzo_scheduler_service.Store.Records.{ContradictionRecord}
use package.shinzo_scheduler_service.Store.Db.{LawfulDb}
use package.shinzo_scheduler_service.Store.Documents.{contradiction_document}
use package.shinzo_scheduler_service.Store.ContradictionStore
use package.shinzo_scheduler_service.Store.ContradictionStore.Answers.{list_unresolved-ok}
use package.shinzo_scheduler_service.Settlement.Hub.{MsgSlash}
use package.shinzo_scheduler_service.Settlement.Contradiction.{
  ContradictionAggregator, Evidence, records_of, indexers_of, threshold, slash_of, resolve_all,
  slash_group, slash_groups, check_and_slash, join_comma,
}
use package.shinzo_scheduler_service.Settlement.Contradiction.Indexers.{
  has_record, indexers_of_lem, has_record-records_of,
}

module _ {F D H : Type 0} (rt : Runtime) (ca : ContradictionAggregator F D H) where
  -- The hub after these messages, one by one, whatever it answers.
  abbrev pub send_all : List MsgSlash → H → H
  send_all [] h = h
  send_all (msg ∷ msgs) h = send_all msgs (ca.hub.broadcast_slash msg h).1

  abbrev pub reaches : List ContradictionRecord → String → Bool
  reaches records i = not (ltb_ℤ (pos (length (records_of i records))) (threshold rt ca))

  -- One message for each of the indexers that reach the threshold, with all their evidence.
  abbrev pub slashes : List ContradictionRecord → List String → List MsgSlash
  slashes records ids =
      map (λ i. slash_of rt ca i (records_of i records)) (filter (reaches records) ids)

  resolve_all-hub :
      (rs : List ContradictionRecord) (s : Evidence D H) → (resolve_all rt ca rs s).hub ≡ s.hub
  unfolding resolve_all
  resolve_all-hub [] s = refl
  resolve_all-hub (r ∷ rs) s = resolve_all-hub rs _

  slash_group-hub :
      (i : String) (records : List ContradictionRecord) (s : Evidence D H)
      → (slash_group rt ca i (records_of i records) s).hub ≡ (
          if reaches records i
          then (ca.hub.broadcast_slash (slash_of rt ca i (records_of i records)) s.hub).1
          else s.hub)
  unfolding slash_group
  slash_group-hub i records s =
      let sent = ca.hub.broadcast_slash (slash_of rt ca i (records_of i records)) s.hub in
      ground (arith, resolve_all-hub (records_of i records) (record s { hub = sent.1 }))

  slash_groups-hub :
      (ids : List String) (records : List ContradictionRecord) (s : Evidence D H)
      → (slash_groups rt ca ids records s).hub ≡ send_all (slashes records ids) s.hub
  unfolding slash_groups
  slash_groups-hub [] records s = refl
  slash_groups-hub (i ∷ ids) records s = ground (
    arith,
    slash_group-hub i records s,
    slash_groups-hub ids records (slash_group rt ca i (records_of i records) s),
  )

  resolve_none :
      (i : String) (records : List ContradictionRecord) (s : Evidence D H)
      → ((msg : MsgSlash) (h : H) → (e : String) × ((ca.hub.broadcast_slash msg h).0 ≡ err e))
      → (slash_group rt ca i (records_of i records) s).contradictions ≡ s.contradictions
  unfolding slash_group
  resolve_none i records s fails =
      ground (arith, fails (slash_of rt ca i (records_of i records)) s.hub)

  slash_groups-unresolved :
      (ids : List String) (records : List ContradictionRecord) (s : Evidence D H)
      → ((msg : MsgSlash) (h : H) → (e : String) × ((ca.hub.broadcast_slash msg h).0 ≡ err e))
      → (slash_groups rt ca ids records s).contradictions ≡ s.contradictions
  unfolding slash_groups
  slash_groups-unresolved [] records s fails = refl
  slash_groups-unresolved (i ∷ ids) records s fails =
      slash_groups-unresolved ids records _ fails ∙ resolve_none i records s fails

  -- While the hub refuses every message, a round leaves all evidence as it is, for the next one.
  pub check_and_slash-unresolved :
      (order : List String → List String) (s : Evidence D H)
      → ((msg : MsgSlash) (h : H) → (e : String) × ((ca.hub.broadcast_slash msg h).0 ≡ err e))
      → (check_and_slash rt ca order s).contradictions ≡ s.contradictions
  unfolding check_and_slash
  check_and_slash-unresolved order s fails =
      elim (Result-cases
        (ContradictionStore.list_unresolved ca.contradiction_st s.contradictions)) [
          | inr (e, q) ↦ ground arith
          | inl (records, q) ↦
              ground
                (arith, slash_groups-unresolved (order (indexers_of [] records)) records s fails)
        ]

-- The texts of a list, with commas between them.
abbrev pub with_commas : List String → String
with_commas [] = ""
with_commas (x ∷ []) = x
with_commas (x ∷ y ∷ ys) = Text.◌++◌ x (Text.◌++◌ "," (with_commas (y ∷ ys)))

join_comma-with_commas : (xs : List String) → join_comma xs ≡ with_commas xs
unfolding join_comma
join_comma-with_commas [] = refl
join_comma-with_commas (x ∷ []) = refl
join_comma-with_commas (x ∷ y ∷ ys) = rw (join_comma-with_commas (y ∷ ys))

-- The records that are not resolved and name the indexer.
abbrev pub evidence_on : String → List ContradictionRecord → List ContradictionRecord
evidence_on i records = filter (λ r. not r.resolved && r.indexer_id == i) records

-- The message that slashes an indexer: it names all the evidence.
abbrev pub message_on : Runtime → List ContradictionRecord → String → MsgSlash
message_on rt records i =
    let evidence = evidence_on i records in
    record {
      indexer_id = i;
      evidence_cid = with_commas (map (λ r. r.evidence_id) evidence);
      reason = Text.◌++◌ (rt.show_count (length evidence)) " unresolved snapshot contradictions";
    }

-- There are as many records against the indexer as the configuration asks for, or 3 where it asks
-- for none.
abbrev pub is_due : ℤ → List ContradictionRecord → String → Bool
is_due configured records i = not (
    ltb_ℤ (pos (length (evidence_on i records)))
      (if leb_ℤ configured (pos 0) then pos 3 else configured))

-- An order of iteration: it keeps the members of a list, each once.
abbrev pub IsOrder : (List String → List String) → Type 0
IsOrder order =
    ((ids : List String) → Distinct ids → Distinct (order ids))
    × ((ids : List String) (i : String) → elem i (order ids) ≡ elem i ids)

records_of_unresolved :
    (i : String) (records : List ContradictionRecord)
    → records_of i (filter (λ r. not r.resolved) records) ≡ evidence_on i records
records_of_unresolved i [] = refl
records_of_unresolved i (r ∷ rs) = ground (arith, records_of_unresolved i rs)

module _ {F D H : Type 0} (rt : Runtime) (ca : ContradictionAggregator F D H) where
  reaches-has_record :
      (i : String) (rs : List ContradictionRecord)
      → reaches rt ca rs i ≡ true
      → has_record i rs ≡ true
  unfolding threshold
  reaches-has_record i rs h = elim (Bool-cases (has_record i rs)) [
    | inl e ↦ e
    | inr e ↦ absurd (ground (arith, has_record-records_of i rs e))
  ]

  reaches-is_due :
      (i : String) (rs : List ContradictionRecord)
      → reaches rt ca (filter (λ r. not r.resolved) rs) i
        ≡ is_due ca.cfg.contradiction_threshold rs i
  unfolding threshold
  reaches-is_due i rs = rw (records_of_unresolved i rs)

  slash_of-message_on :
      (rs : List ContradictionRecord) (i : String)
      → slash_of rt ca i (records_of i (filter (λ r. not r.resolved) rs)) ≡ message_on rt rs i
  slash_of-message_on rs i = rw (
    records_of_unresolved i rs,
    join_comma-with_commas (map (λ r. r.evidence_id) (evidence_on i rs)),
  )

  slashes-messages :
      (rs : List ContradictionRecord) (ids : List String)
      → map (λ i. slash_of rt ca i (records_of i (filter (λ r. not r.resolved) rs))) ids
        ≡ map (message_on rt rs) ids
  slashes-messages rs [] = refl
  slashes-messages rs (i ∷ ids) = rw (slash_of-message_on rs i, slashes-messages rs ids)

module _ {F D H : Type 0} (rt : Runtime) (ca : ContradictionAggregator F D H)
    (docs : D → List ContradictionRecord)
    (lawful : LawfulDb contradiction_document ca.contradiction_st docs) where
  -- A round that can read the evidence sends the hub one message for each indexer with as many
  -- unresolved contradictions on record as the configured threshold asks for (3 if that is not
  -- positive), with the ids of all of them, and no other message, in whatever order the indexers
  -- come; a message that fails does not hold back the next.
  pub check_and_slash-hub :
      (order : List String → List String) (s : Evidence D H) (records : List ContradictionRecord)
      → IsOrder order
      → ContradictionStore.list_unresolved ca.contradiction_st s.contradictions ≡ ok records
      → (ids : List String) × Distinct ids
        × ((i : String)
            → elem i ids ≡ is_due ca.cfg.contradiction_threshold (docs s.contradictions) i)
        × ((check_and_slash rt ca order s).hub
            ≡ send_all rt ca (map (message_on rt (docs s.contradictions)) ids) s.hub)
  unfolding check_and_slash
  check_and_slash-hub order s records (once, keeps) q =
      let all_docs = docs s.contradictions in
      let unresolved = filter (λ r. not r.resolved) all_docs in
      let same : records ≡ unresolved =
        list_unresolved-ok ca.contradiction_st docs lawful s.contradictions records q in
      let grouped = order (indexers_of [] unresolved) in
      let (distinct, members) = indexers_of_lem unresolved in
      (
        filter (reaches rt ca unresolved) grouped,
        filter-Distinct _ grouped (once _ distinct),
        λ i. ground (
          arith,
          elem-filter (reaches rt ca unresolved) i grouped,
          keeps (indexers_of [] unresolved) i,
          members i,
          reaches-has_record rt ca i unresolved,
          reaches-is_due rt ca i all_docs,
        ),
        rw (← slashes-messages rt ca all_docs (filter (reaches rt ca unresolved) grouped), ← same)
            (ground (arith, slash_groups-hub rt ca (order (indexers_of [] records)) records s)),
      )
