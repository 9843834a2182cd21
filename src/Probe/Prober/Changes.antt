-- ===== src/Probe/Prober/Changes.antt =====
-- Steps of the indexers on record, for pkg/probe/prober.go and pkg/registry/indexer_registry.go: a
-- write keeps the peer ids and keys, and a record is added only under a new peer id.
use package.shinzo_scheduler_service.Base.{
  String, ◌≡◌, ◌⊎◌, inl, inr, List, [], ◌∷◌, ◌++◌, map, filter, first, none, Option, Bool-cases,
  ◌==◌, sym, subst, All,
}
use package.shinzo_scheduler_service.Base.Unique.{All-append_one, All-map_of}
use package.shinzo_scheduler_service.Store.Records.{IndexerRecord}
use package.shinzo_scheduler_service.Store.Db.{write_at}
use package.shinzo_scheduler_service.Store.Documents.{indexer_document}

module _ {F : Type 0} where
  abbrev pub record_of : String → List (IndexerRecord F) → Option (IndexerRecord F)
  record_of peer_id rs = first (filter (λ i. i.peer_id == peer_id) rs)

  pub data Change (P : IndexerRecord F → Type 0) (rs : List (IndexerRecord F))
      : List (IndexerRecord F) → Type 0 where
    kept : (rs' : List (IndexerRecord F)) → rs' ≡ rs → Change P rs rs'
    wrote :
        (id : String) (f : IndexerRecord F → IndexerRecord F) (rs' : List (IndexerRecord F))
        → ((i : IndexerRecord F) → (f i).peer_id ≡ i.peer_id)
        → ((i : IndexerRecord F) → (f i).defra_pk ≡ i.defra_pk)
        → ((i : IndexerRecord F) → P i → P (f i))
        → rs' ≡ map (write_at indexer_document id f) rs
        → Change P rs rs'
    added :
        (y : IndexerRecord F) (rs' : List (IndexerRecord F))
        → record_of y.peer_id rs ≡ none
        → P y
        → rs' ≡ rs ++ y ∷ []
        → Change P rs rs'

  pub data Changes (P : IndexerRecord F → Type 0)
      : List (IndexerRecord F) → List (IndexerRecord F) → Type 0 where
    done : (rs : List (IndexerRecord F)) → Changes P rs rs
    step :
        (rs rs' rs'' : List (IndexerRecord F))
        → Change P rs rs'
        → Changes P rs' rs''
        → Changes P rs rs''

  module _ (P : IndexerRecord F → Type 0) where
    pub written :
        (id : String) (f : IndexerRecord F → IndexerRecord F) (rs rs' : List (IndexerRecord F))
        → ((i : IndexerRecord F) → (f i).peer_id ≡ i.peer_id)
        → ((i : IndexerRecord F) → (f i).defra_pk ≡ i.defra_pk)
        → ((i : IndexerRecord F) → P i → P (f i))
        → (rs' ≡ rs) ⊎ (rs' ≡ map (write_at indexer_document id f) rs)
        → Change P rs rs'
    written id f rs rs' peer key keep (inl same) = Change.kept rs' same
    written id f rs rs' peer key keep (inr e) = Change.wrote id f rs' peer key keep e

    pub Changes-append :
        (a b c : List (IndexerRecord F)) → Changes P a b → Changes P b c → Changes P a c
    Changes-append a b c (Changes.done _) t = t
    Changes-append a b c (Changes.step _ a' _ s ss) t =
        Changes.step a a' c s (Changes-append a' b c ss t)

    pub one : (a b : List (IndexerRecord F)) → Change P a b → Changes P a b
    one a b c = Changes.step a b b c (Changes.done b)

    Change-All : (a b : List (IndexerRecord F)) → Change P a b → All P a → All P b
    Change-All a b (Change.kept _ e) h = subst (All P) (sym e) h
    Change-All a b (Change.wrote id f _ peer key keep e) h = subst (All P) (sym e) (
        All-map_of P _
          (λ i h'. elim (Bool-cases (i.doc_id == id)) [
            | inl here ↦ rw here (keep i h')
            | inr other ↦ rw other h'
          ])
          a h)
    Change-All a b (Change.added y _ new h' e) h = subst (All P) (sym e) (All-append_one P a y h h')

    pub Changes-All : (a b : List (IndexerRecord F)) → Changes P a b → All P a → All P b
    Changes-All a b (Changes.done _) h = h
    Changes-All a b (Changes.step _ a' _ s ss) h = Changes-All a' b ss (Change-All a a' s h)
