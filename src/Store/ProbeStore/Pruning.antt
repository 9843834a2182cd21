-- ===== src/Store/ProbeStore/Pruning.antt =====
-- Lists of probes without those whose ids are deleted, and what a bounded history keeps
-- (pkg/store/probe_store.go).
use package.shinzo_scheduler_service.Base.{
  zero, suc, ℕ, ◌-◌, ◌≤◌, String, ◌≡◌, refl, ap, sym, ◌∙◌, Bool, true, false, not, List, [], ◌∷◌,
  ◌++◌, map, All, filter, length, take, drop, elem, arith, ◌==◌, eq_iff, eq_refl, subst,
}
use package.shinzo_scheduler_service.Base.Perms.{
  All-append, filter-append, filter-none, filter_kept, filter_comm, filter-perm, partition-perm,
  Unique-perm, length-perm,
}
use package.shinzo_scheduler_service.Base.Unique.{Unique, same_key}
use package.shinzo_scheduler_service.Store.Records.{ProbeResultRecord}
use package.shinzo_scheduler_service.Store.ProbeStore.{sort_probe_results_asc}
use package.shinzo_scheduler_service.Store.ProbeStore.Order.{
  NotBefore, sort_probe_results_asc-Ascending, sort_probe_results_asc-perm, take-drop-NotBefore,
}
use mathlib.Core.List.{Permᴰ, append_assoc}
use mathlib.Core.List.Permᴰ

abbrev pub ids_of : List ProbeResultRecord → List String
ids_of rs = map (λ r. r.doc_id) rs

-- The document is not one of these.
abbrev pub not_in : List ProbeResultRecord → ProbeResultRecord → Bool
not_in gone r = not (elem r.doc_id (ids_of gone))

abbrev pub UniqueProbes : List ProbeResultRecord → Type 0
UniqueProbes = Unique (same_key (λ r. r.doc_id))

take-append-drop : {A : Type 0} (n : ℕ) (xs : List A) → take n xs ++ drop n xs ≡ xs
take-append-drop zero xs = refl
take-append-drop (suc n) [] = refl
take-append-drop (suc n) (x ∷ xs) = ap (◌∷◌ x) (take-append-drop n xs)

length-drop : {A : Type 0} (n : ℕ) (xs : List A) → length (drop n xs) ≡ length xs - n
length-drop zero xs = omega arith
length-drop (suc n) [] = omega arith
length-drop (suc n) (x ∷ xs) = omega (arith, length-drop n xs)

length-take : {A : Type 0} (n : ℕ) (xs : List A) → n ≤ length xs → length (take n xs) ≡ n
length-take zero xs h = refl
length-take (suc n) [] h = absurd (omega arith)
length-take (suc n) (x ∷ xs) h = omega (arith, length-take n xs)

gone_left_out : (gone : List ProbeResultRecord) → All (λ r. not_in gone r ≡ false) gone
gone_left_out gone = inside gone gone (λ a h. h)
  where
    inside :
        (gone rs : List ProbeResultRecord)
        → ((a : String) → elem a (ids_of rs) ≡ true → elem a (ids_of gone) ≡ true)
        → All (λ r. not_in gone r ≡ false) rs
    inside gone [] h = tt
    inside gone (r ∷ rs) h = (
      ground (arith, h r.doc_id, eq_refl r.doc_id),
      inside gone rs (λ a e. h a (ground (arith, e))),
    )

differ-not_in :
    (x : ProbeResultRecord) (kept : List ProbeResultRecord) (r : ProbeResultRecord)
    → (x.doc_id == r.doc_id) ≡ false
    → (r.doc_id == x.doc_id) ≡ false
differ-not_in x kept r h = ground (arith, h, eq_iff x.doc_id r.doc_id, eq_iff r.doc_id x.doc_id)

pub none_in_nil : (rs : List ProbeResultRecord) → All (λ r. not_in [] r ≡ true) rs
none_in_nil [] = tt
none_in_nil (r ∷ rs) = (refl, none_in_nil rs)

none_in :
    (gone kept : List ProbeResultRecord)
    → UniqueProbes (gone ++ kept)
    → All (λ r. not_in gone r ≡ true) kept
none_in [] kept u = none_in_nil kept
none_in (g ∷ gone) kept u = join kept (none_in gone kept u.1) ((All-append _ gone kept u.0).1)
  where
    join :
        (rs : List ProbeResultRecord)
        → All (λ r. not_in gone r ≡ true) rs
        → All (λ r. same_key (λ r. r.doc_id) g r ≡ false) rs
        → All (λ r. not_in (g ∷ gone) r ≡ true) rs
    join [] a b = tt
    join (r ∷ rs) a b = (ground (arith, a.0, b.0, differ-not_in g [] r), join rs a.1 b.1)

pub filter-filter-not_in :
    (g : ProbeResultRecord) (gone rs : List ProbeResultRecord)
    → filter (not_in gone) (filter (λ r. not (r.doc_id == g.doc_id)) rs)
      ≡ filter (not_in (g ∷ gone)) rs
filter-filter-not_in g gone [] = refl
filter-filter-not_in g gone (r ∷ rs) = ground (arith, filter-filter-not_in g gone rs)

-- What a history of at most `limit` probes of an indexer keeps: the results of the others, and of
-- its own the newest.
pub record Pruned (indexer_id : String) (limit : ℕ) (before after : List ProbeResultRecord)
    : Type 0 where
  pub gone : List ProbeResultRecord
  pub kept : List ProbeResultRecord
  pub parts : Permᴰ (gone ++ kept) (filter (λ r. r.indexer_id == indexer_id) before)
  pub kept_on_record : Permᴰ kept (filter (λ r. r.indexer_id == indexer_id) after)
  pub others_kept :
      filter (λ r. not (r.indexer_id == indexer_id)) after
      ≡ filter (λ r. not (r.indexer_id == indexer_id)) before
  pub within : length kept ≤ limit
  pub all_needed : length gone ≡ length (filter (λ r. r.indexer_id == indexer_id) before) - limit
  pub newest : All (λ r. All (λ q. NotBefore q r) kept) gone

module _ (indexer_id : String) (limit : ℕ) (before : List ProbeResultRecord)
    (u : UniqueProbes before) where
  abbrev pub own : ProbeResultRecord → Bool
  own r = r.indexer_id == indexer_id

  abbrev pub sorted : List ProbeResultRecord
  sorted = sort_probe_results_asc (filter own before)

  abbrev pub excess : ℕ
  excess = length (filter own before) - limit

  abbrev pub oldest : List ProbeResultRecord
  oldest = take excess sorted

  abbrev pub rest : List ProbeResultRecord
  rest = drop excess sorted

  parts_lem : Permᴰ (oldest ++ rest) (filter own before)
  parts_lem = rw (take-append-drop excess sorted) (sort_probe_results_asc-perm _)

  differs :
      (x y : ProbeResultRecord)
      → same_key (λ r. r.doc_id) x y ≡ false
      → same_key (λ r. r.doc_id) y x ≡ false
  differs x y h = differ-not_in x [] y h

  untouched : All (λ r. not_in oldest r ≡ true) (rest ++ filter (λ r. not (own r)) before)
  untouched = none_in oldest _ (
      Unique-perm _ differs
        (Permᴰ.symm (
          Permᴰ.trans
            (rw (sym (append_assoc oldest rest (filter (λ r. not (own r)) before)))
              (Permᴰ.append_right _ parts_lem))
            (partition-perm own before)))
        u)

  sorted_length : length sorted ≡ length (filter own before)
  sorted_length = length-perm (sort_probe_results_asc-perm _)

  survivors : filter (not_in oldest) (oldest ++ rest) ≡ rest
  survivors =
      filter-append (not_in oldest) oldest rest
      ∙ (ap (λ xs. xs ++ filter (not_in oldest) rest) (filter-none _ oldest (gone_left_out oldest))
          ∙ filter_kept _ rest (All-append _ rest _ untouched).0)

  pub pruned : Pruned indexer_id limit before (filter (not_in oldest) before)
  pruned = record {
    gone = oldest;
    kept = rest;
    parts = parts_lem;
    kept_on_record =
        subst (λ xs. Permᴰ xs (filter own (filter (not_in oldest) before))) survivors
          (subst (λ ys. Permᴰ (filter (not_in oldest) (oldest ++ rest)) ys)
            (sym (filter_comm own (not_in oldest) before)) (filter-perm (not_in oldest) parts_lem));
    others_kept =
        filter_comm _ (not_in oldest) before ∙ filter_kept _ _ (All-append _ rest _ untouched).1;
    within = omega (arith, length-drop excess sorted, sorted_length);
    all_needed = length-take excess sorted (omega (arith, sorted_length));
    newest = take-drop-NotBefore excess sorted (sort_probe_results_asc-Ascending _);
  }

pub untouched_history :
    (indexer_id : String) (limit : ℕ) (before : List ProbeResultRecord)
    → length (filter (λ r. r.indexer_id == indexer_id) before) ≤ limit
    → Pruned indexer_id limit before before
untouched_history indexer_id limit before h = record {
  gone = [];
  kept = filter (λ r. r.indexer_id == indexer_id) before;
  parts = Permᴰ.refl _;
  kept_on_record = Permᴰ.refl _;
  others_kept = refl;
  within = h;
  all_needed = omega arith;
  newest = tt;
}
