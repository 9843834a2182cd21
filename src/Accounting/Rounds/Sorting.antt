-- ===== src/Accounting/Rounds/Sorting.antt =====
-- The keys that a round of pkg/accounting/manager.go collects and sorts.
use package.shinzo_scheduler_service.Base.{
  ◌≡◌, refl, ◌∙◌, ap, Bool, true, false, ◌||◌, ◌&&◌, not, List, [], ◌∷◌, arith, eq_iff, eq_refl,
}
use package.shinzo_scheduler_service.Base.Int.{eq_of_parts}
use package.shinzo_scheduler_service.Base.Order.{str_lt_total}
use package.shinzo_scheduler_service.Store.Records.{DeliveryClaimRecord}
use package.shinzo_scheduler_service.Accounting.Rounds.{
  Key, key_eq, key_lt, key_of, has_key, distinct_keys, insert_key, sort_keys, to_compare,
}

-- Strictly ascending: by session, then by block.
abbrev pub Ascending : List Key → Type 0
Ascending [] = Unit
Ascending (k ∷ []) = Unit
Ascending (k ∷ j ∷ ks) = (key_lt k j ≡ true) × Ascending (j ∷ ks)

abbrev pub has_claim : Key → List DeliveryClaimRecord → Bool
has_claim k [] = false
has_claim k (c ∷ cs) = key_eq k (key_of c) || has_claim k cs

key_lt_total : (k j : Key) → key_eq k j ≡ false → key_lt j k ≡ false → key_lt k j ≡ true
unfolding key_eq key_lt
key_lt_total k j ne h = ground (
  arith,
  eq_iff k.session j.session,
  eq_iff j.session k.session,
  str_lt_total j.session k.session,
)

key_eq_path : (k j : Key) → key_eq k j ≡ true → k ≡ j
unfolding key_eq
key_eq_path k j h = ground (arith, eq_iff k.session j.session, eq_of_parts k.block j.block)

has_key-insert_key :
    (i k : Key) (ks : List Key) → has_key i (insert_key k ks) ≡ (key_eq i k || has_key i ks)
unfolding insert_key
has_key-insert_key i k [] = refl
has_key-insert_key i k (j ∷ js) = ground (arith, has_key-insert_key i k js)

insert_key-after :
    (j k : Key) (ks : List Key)
    → key_lt j k ≡ true
    → has_key k ks ≡ false
    → Ascending (j ∷ ks)
    → Ascending (j ∷ insert_key k ks)
unfolding insert_key
insert_key-after j k [] h f a = (h, tt)
insert_key-after j k (i ∷ ks) h f a = ground (arith, insert_key-after i k ks, key_lt_total k i, a.1)

-- Inserting a new key keeps the list ascending.
insert_key-Ascending :
    (k : Key) (ks : List Key) → has_key k ks ≡ false → Ascending ks → Ascending (insert_key k ks)
unfolding insert_key
insert_key-Ascending k [] h a = tt
insert_key-Ascending k (j ∷ ks) h a = ground (arith, insert_key-after j k ks, key_lt_total k j)

-- No key stands twice.
abbrev DistinctKeys : List Key → Type 0
DistinctKeys [] = Unit
DistinctKeys (k ∷ ks) = (has_key k ks ≡ false) × DistinctKeys ks

has_key-sort_keys : (i : Key) (ks : List Key) → has_key i (sort_keys ks) ≡ has_key i ks
unfolding sort_keys
has_key-sort_keys i [] = refl
has_key-sort_keys i (k ∷ ks) =
    has_key-insert_key i k (sort_keys ks) ∙ ap (λ b. key_eq i k || b) (has_key-sort_keys i ks)

sort_keys-Ascending : (ks : List Key) → DistinctKeys ks → Ascending (sort_keys ks)
unfolding sort_keys
sort_keys-Ascending [] d = tt
sort_keys-Ascending (k ∷ ks) d =
    insert_key-Ascending k (sort_keys ks) (has_key-sort_keys k ks ∙ d.0)
      (sort_keys-Ascending ks d.1)

key_eq_refl : (k : Key) → key_eq k k ≡ true
unfolding key_eq
key_eq_refl k = ground (arith, eq_refl k.session)

-- What `distinct_keys` lists: the keys of the claims that are not seen already.
has_key-distinct_keys :
    (i : Key) (seen : List Key) (cs : List DeliveryClaimRecord)
    → has_key i (distinct_keys seen cs) ≡ (not (has_key i seen) && has_claim i cs)
unfolding distinct_keys
has_key-distinct_keys i seen [] = ground arith
has_key-distinct_keys i seen (c ∷ cs) = ground (
  arith,
  has_key-distinct_keys i seen cs,
  has_key-distinct_keys i (key_of c ∷ seen) cs,
  key_eq_path i (key_of c),
)

distinct_keys-DistinctKeys :
    (seen : List Key) (cs : List DeliveryClaimRecord) → DistinctKeys (distinct_keys seen cs)
unfolding distinct_keys
distinct_keys-DistinctKeys seen [] = tt
distinct_keys-DistinctKeys seen (c ∷ cs) = ground (
  arith,
  key_eq_refl (key_of c),
  has_key-distinct_keys (key_of c) (key_of c ∷ seen) cs,
  distinct_keys-DistinctKeys seen cs,
  distinct_keys-DistinctKeys (key_of c ∷ seen) cs,
)

-- What a list to compare holds: the keys of the claims, each once.
pub to_compare_lem :
    (pending : List DeliveryClaimRecord)
    → Ascending (to_compare pending)
      × ((k : Key) → has_key k (to_compare pending) ≡ has_claim k pending)
unfolding to_compare
to_compare_lem pending = (
  sort_keys-Ascending _ (distinct_keys-DistinctKeys [] pending),
  λ k. has_key-sort_keys k _ ∙ has_key-distinct_keys k [] pending,
)
