-- ===== src/Store/Queries.antt =====
-- The helpers that every store of pkg/store has: `queryMany`, `querySingle`, `mutateOne`, and the
-- body of `Update`. They are written once here, over the collection that a store holds; `what` is
-- the text that a store's errors begin with.
use package.shinzo_scheduler_service.Base.{
  ℕ, String, ◌≡◌, refl, ap, ◌∙◌, ◌⊎◌, inl, inr, Bool, Option, none, some, List, [], ◌∷◌, ◌++◌, map,
  filter, first, length, if◌then◌else◌, arith, Result, ok, err, Action, Bool-cases, Option-cases,
}
use package.shinzo_scheduler_service.Store.Db.{Db, Document, LawfulDb, has_errors, write_at}

abbrev pub first_record : {R : Type 0} → Result (List R) → Result (Option R)
first_record (ok rs) = ok (first rs)
first_record (err e) = err e

abbrev decode_many : {R : Type 0} → Option (List R) → Result (List R)
decode_many none = err "decode"
decode_many (some rs) = ok rs

abbrev decode_one : {R : Type 0} → Option (List R) → Result R
decode_one none = err "decode"
decode_one (some []) = err "mutation returned no records"
decode_one (some (r ∷ rs)) = ok r

-- `len(recs)` behind the error check, in `Count`.
abbrev pub count_of : {R : Type 0} → Result (List R) → Result ℕ
count_of (ok rs) = ok (length rs)
count_of (err e) = err e

module _ {D R : Type 0} (db : Db D R) (what : String) where
  unfoldable pub query_many : (R → Bool) → D → Result (List R)
  query_many p d =
      let res = db.query p d in if has_errors res then err what else decode_many res.decoded

  unfoldable pub query_single : (R → Bool) → D → Result (Option R)
  unfolding query_many
  query_single p d = first_record (query_many p d)

  unfoldable pub mutate_one : R → Action D R
  mutate_one r d =
      let (res, d') = db.create r d in
      (if has_errors res then err what else decode_one res.decoded, d')

  unfoldable pub update_fields : String → (R → R) → Action D (Unit {0})
  update_fields id f d =
      let (res, d') = db.update id f d in (if has_errors res then err what else ok tt, d')

  unfoldable pub delete_one : String → Action D (Unit {0})
  delete_one id d =
      let (res, d') = db.delete id d in (if has_errors res then err what else ok tt, d')

first_record-ok :
    {R : Type 0} (r : Result (List R)) (o : Option R)
    → first_record r ≡ ok o
    → (rs : List R) × (r ≡ ok rs) × (o ≡ first rs)
first_record-ok (ok rs) o h = (rs, refl, ground arith)
first_record-ok (err e) o h = cc

-- The helpers over a lawful collection.
module _ {D R : Type 0} {k : Document R} {db : Db D R} {docs : D → List R}
    (lawful : LawfulDb k db docs) (what : String) where
  -- A query that succeeds returns the documents that meet the filter.
  pub query_many-ok :
      (p : R → Bool) (d : D) (rs : List R) → query_many db what p d ≡ ok rs → rs ≡ filter p (docs d)
  unfolding query_many
  query_many-ok p d rs h = ground (arith, lawful.query_docs p d rs)

  pub query_single-ok :
      (p : R → Bool) (d : D) (o : Option R)
      → query_single db what p d ≡ ok o
      → o ≡ first (filter p (docs d))
  unfolding query_single
  query_single-ok p d o h =
      let (rs, many, e) = first_record-ok (query_many db what p d) o h in
      e ∙ ap first (query_many-ok p d rs many)

  -- A creation appends the record under some document id, or changes nothing and fails.
  pub mutate_one_docs :
      (r : R) (d : D)
      → (docs (mutate_one db what r d).1 ≡ docs d)
        ⊎ ((id : String) × (docs (mutate_one db what r d).1 ≡ docs d ++ k.with_id id r ∷ []))
  unfolding mutate_one
  mutate_one_docs r d = elim (Bool-cases (has_errors (db.create r d).0)) [
    | inl e ↦ inl (lawful.create_error r d e)
    | inr e ↦ inr (let (id, h, _) = lawful.create_docs r d e in (id, h))
  ]

  pub update_fields_docs :
      (id : String) (f : R → R) (d : D)
      → (docs (update_fields db what id f d).1 ≡ docs d)
        ⊎ (docs (update_fields db what id f d).1 ≡ map (write_at k id f) (docs d))
  unfolding update_fields
  update_fields_docs id f d = elim (Bool-cases (has_errors (db.update id f d).0)) [
    | inl e ↦ inl (lawful.update_error id f d e)
    | inr e ↦ inr (lawful.update_docs id f d e)
  ]

  pub update_fields-ok :
      (id : String) (f : R → R) (d : D)
      → (update_fields db what id f d).0 ≡ ok tt
      → docs (update_fields db what id f d).1 ≡ map (write_at k id f) (docs d)
  unfolding update_fields
  update_fields-ok id f d h = ground (arith, lawful.update_docs id f d)

  -- A creation that succeeds has appended the record that it returns.
  pub mutate_one-ok :
      (r : R) (d : D) (x : R)
      → (mutate_one db what r d).0 ≡ ok x
      → (id : String) × (docs (mutate_one db what r d).1 ≡ docs d ++ k.with_id id r ∷ [])
        × (x ≡ k.with_id id r)
  unfolding mutate_one
  mutate_one-ok r d x h = elim (Bool-cases (has_errors (db.create r d).0)) [
    | inl e ↦ absurd (ground arith)
    | inr e ↦
        let (id, written, answer) = lawful.create_docs r d e in
        (
          id,
          written,
          elim (Option-cases ((db.create r d).0.decoded)) [
            | inl q ↦ absurd (ground arith)
            | inr ([], q) ↦ absurd (ground arith)
            | inr (y ∷ ys, q) ↦ ground (arith, answer y ys q)
          ],
        )
  ]
