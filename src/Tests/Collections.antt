-- ===== src/Tests/Collections.antt =====
-- A collection that is a list of documents and never fails.
use package.shinzo_scheduler_service.Base.{
  ℕ, ◌<◌, ◌≤◌, All, eq_iff, arith, String, refl, ◌≡◌, some, List, [], ◌∷◌, ◌++◌, map, filter, not,
  ◌==◌,
}
use Prim.Native.String as Text
use Prim.Native.String.{count}
use text.Mathlib.TextLemmas.{length-append}
use package.shinzo_scheduler_service.Base.Unique.{Unique-append_one, same_key, All-imp}
use package.shinzo_scheduler_service.Store.Db.{FreshIds, Db, Document, LawfulDb, write_at}

-- A text that is longer than all of these.
abbrev new_id : List String → String
new_id [] = "bae-"
new_id (x ∷ xs) = Text.◌++◌ x (new_id xs)

new_id_longer : (xs : List String) → 0 < count (new_id xs)
new_id_longer [] = ground arith
new_id_longer (x ∷ xs) = omega (arith, length-append x (new_id xs), new_id_longer xs)

abbrev pub list_db : {R : Type 0} → Document R → Db (List R) R
list_db k = record {
  query = λ p d. record { errors = []; decoded = some (filter p d) };
  create = λ r d.
      let r' = k.with_id (new_id (map k.id d)) r in
      (record { errors = []; decoded = some (r' ∷ []) }, d ++ r' ∷ []);
  update = λ id f d.
      let d' = map (write_at k id f) d in
      (record { errors = []; decoded = some (filter (λ r. k.id r == id) d') }, d');
  delete = λ id d. (
    record { errors = []; decoded = some (filter (λ r. k.id r == id) d) },
    filter (λ r. not (k.id r == id)) d,
  );
}

-- Its state is the list of its documents.
abbrev pub all_docs : {R : Type 0} → List R → List R
all_docs d = d

pub list_db-LawfulDb : {R : Type 0} (k : Document R) → LawfulDb k (list_db k) all_docs
list_db-LawfulDb k = record {
  query_docs = λ p d rs e h. ground (arith, h);
  create_docs = λ r d e. (new_id (map k.id d), refl, λ x xs h. ground (arith, h));
  create_error = λ r d e. absurd (cc);
  update_docs = λ id f d e. refl;
  update_error = λ id f d e. absurd (cc);
  delete_docs = λ id d e. refl;
  delete_error = λ id d e. absurd (cc);
}

module _ {R : Type 0} (k : Document R) where
  ids_shorter :
      (n : ℕ) (d : List R) → count (new_id (map k.id d)) ≤ n → All (λ r. count (k.id r) < n) d
  ids_shorter n [] h = tt
  ids_shorter n (r ∷ d) h =
      let added = length-append (k.id r) (new_id (map k.id d)) in
      (omega (arith, added, new_id_longer (map k.id d)), ids_shorter n d (omega (arith, added)))

  pub list_db-FreshIds :
      ((id : String) (r : R) → k.id (k.with_id id r) ≡ id) → FreshIds k (list_db k) all_docs
  list_db-FreshIds ids = record {
    create_fresh = λ r d u.
        Unique-append_one (same_key k.id) d (k.with_id (new_id (map k.id d)) r)
          (All-imp _ _ d
            (λ x shorter.
              ground (arith, eq_iff (k.id x) (new_id (map k.id d)), ids (new_id (map k.id d)) r))
            (ids_shorter (count (new_id (map k.id d))) d (omega arith)))
          u;
  }
