-- ===== src/Store/Db.antt =====
-- DefraDB as the stores use it (pkg/store/db.go): one collection of documents behind four requests,
-- and what is documented of these. The GraphQL texts of pkg/store stand for such requests: a `filter`
-- of `_eq` conditions for a test, an input literal for a function that writes the fields.
use package.shinzo_scheduler_service.Base.{
  String, ◌≡◌, Bool, true, false, Option, some, List, [], ◌∷◌, ◌++◌, map, filter, ◌==◌,
  if◌then◌else◌, not,
}
use package.shinzo_scheduler_service.Base.Unique.{Unique, same_key}

-- `client.RequestResult`: the errors, and what the JSON of the data decodes to (`none` if that
-- fails).
pub record Response (R : Type 0) : Type 0 where
  pub errors : List String
  pub decoded : Option (List R)

-- `len(res.GQL.Errors) > 0`
abbrev pub has_errors : {R : Type 0} → Response R → Bool
has_errors res = elim (res.errors) [ [] ↦ false | e ∷ es ↦ true ]

-- A collection with states `D` and documents `R`. A mutation returns the documents that it wrote.
pub record Db (D R : Type 0) : Type 0 where
  pub query : (R → Bool) → D → Response R
  pub create : R → D → Response R × D
  pub update : String → (R → R) → D → Response R × D
  pub delete : String → D → Response R × D

-- The document id of a record, which the database assigns.
pub record Document (R : Type 0) : Type 0 where
  pub id : R → String
  pub with_id : String → R → R

abbrev pub write_at : {R : Type 0} → Document R → String → (R → R) → R → R
write_at k id f r = if k.id r == id then f r else r

-- What is documented: a query that succeeds answers with the documents that meet the filter, a
-- mutation that succeeds does what it says, and one that reports an error has changed nothing.
pub record LawfulDb {D R : Type 0} (k : Document R) (db : Db D R) (docs : D → List R) : Type 0 where
  pub query_docs :
      (p : R → Bool) (d : D) (rs : List R)
      → has_errors (db.query p d) ≡ false
      → (db.query p d).decoded ≡ some rs
      → rs ≡ filter p (docs d)
  pub create_docs :
      (r : R) (d : D)
      → has_errors (db.create r d).0 ≡ false
      → (id : String) × (docs (db.create r d).1 ≡ docs d ++ k.with_id id r ∷ [])
        × ((x : R) (xs : List R) → (db.create r d).0.decoded ≡ some (x ∷ xs) → x ≡ k.with_id id r)
  pub create_error :
      (r : R) (d : D) → has_errors (db.create r d).0 ≡ true → docs (db.create r d).1 ≡ docs d
  pub update_docs :
      (id : String) (f : R → R) (d : D)
      → has_errors (db.update id f d).0 ≡ false
      → docs (db.update id f d).1 ≡ map (write_at k id f) (docs d)
  pub update_error :
      (id : String) (f : R → R) (d : D)
      → has_errors (db.update id f d).0 ≡ true
      → docs (db.update id f d).1 ≡ docs d
  pub delete_docs :
      (id : String) (d : D)
      → has_errors (db.delete id d).0 ≡ false
      → docs (db.delete id d).1 ≡ filter (λ r. not (k.id r == id)) (docs d)
  pub delete_error :
      (id : String) (d : D)
      → has_errors (db.delete id d).0 ≡ true
      → docs (db.delete id d).1 ≡ docs d

-- What is documented of the ids: a document that is created gets one that no other has.
pub record FreshIds {D R : Type 0} (k : Document R) (db : Db D R) (docs : D → List R) : Type 0 where
  pub create_fresh :
      (r : R) (d : D)
      → Unique (same_key k.id) (docs d)
      → Unique (same_key k.id) (docs (db.create r d).1)
