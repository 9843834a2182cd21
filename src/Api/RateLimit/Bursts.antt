-- ===== src/Api/RateLimit/Bursts.antt =====
-- How many calls at one instant a bucket of pkg/api/middleware/ratelimit.go grants.
use package.shinzo_scheduler_service.Base.{
  zero, suc, ℕ, ◌+◌, ◌≤◌, ◌<◌, ◌^◌, String, ◌≡◌, refl, ap, sym, ◌∙◌, Bool, true, false, none, List,
  [], ◌∷◌, filter, leb, ◌==◌, eq_refl, arith, if◌then◌else◌,
}
use package.shinzo_scheduler_service.Base.Int.{ℤ, pos, negsuc, ◌-ℤ◌}
use package.shinzo_scheduler_service.Base.Time.{since}
use package.shinzo_scheduler_service.Base.Float.{Float64, HasExactIntegers}
use package.shinzo_scheduler_service.Api.RateLimit.{
  TokenBucket, Buckets, bucket_of, Visit, in_seconds, refilled, take_token, bucket_or_new,
  consume_token,
}
use package.shinzo_scheduler_service.Api.RateLimit.Keys.{
  verdicts, verdicts-nil, verdicts-cons, verdicts-own,
}

-- `n` calls with a key at one instant.
abbrev pub burst_of : ℕ → String → ℤ → List Visit
burst_of zero key t = []
burst_of (suc n) key t = record { key = key; made = t; now = t } ∷ burst_of n key t

abbrev pub granted : List (String × Bool) → ℕ
granted [] = 0
granted ((key, passed) ∷ vs) = (if passed then 1 else 0) + granted vs

abbrev pub at_most : ℕ → ℕ → ℕ
at_most limit n = if leb n limit then n else limit

at_most_zero : (k : ℕ) → at_most 0 k ≡ 0
at_most_zero k = ground arith

since_self : (t : ℤ) → since t t ≡ pos 0
unfolding since ◌-ℤ◌
since_self (pos n) = ground arith
since_self (negsuc n) = ground arith

module _ {F : Type 0} ⦃fl : Float64 F⦄ (exact : HasExactIntegers fl) (rate : F)
    (finite : fl.is_finite rate ≡ true) (positive : fl.le (fl.tenths 0) rate ≡ true) (burst : ℕ)
    (small : burst < 2 ^ 53) where
  abbrev holding : ℕ → ℤ → TokenBucket F
  holding n t = record { tokens = fl.of_int (pos n); last = t }

  no_seconds : in_seconds (pos 0) ≡ fl.tenths 0
  unfolding in_seconds
  no_seconds =
      ap (λ x. fl.add (fl.of_int (pos 0)) x) (exact.zero_div 1000000000 (omega arith) (omega arith))
      ∙ (exact.add_zero 0 (omega arith) ∙ exact.of_int_zero)

  -- No time brings no tokens.
  refilled_now :
      (n : ℕ) (t : ℤ) → n ≤ burst → refilled rate (pos burst) (holding n t) t ≡ fl.of_int (pos n)
  unfolding refilled
  refilled_now n t h =
      let none_added : fl.add (fl.of_int (pos n)) (fl.mul (in_seconds (since t t)) rate)
          ≡ fl.of_int (pos n) =
        ap (λ d. fl.add (fl.of_int (pos n)) (fl.mul (in_seconds d) rate)) (since_self t)
        ∙ (ap (λ s. fl.add (fl.of_int (pos n)) (fl.mul s rate)) no_seconds
            ∙ exact.add_zero_mul n rate (omega arith) finite positive) in
      rw (none_added, exact.of_int_lt burst n small (omega arith)) (ground arith)

  take_token_now :
      (n : ℕ) (t : ℤ)
      → suc n ≤ burst
      → take_token rate (pos burst) (holding (suc n) t) t ≡ (true, holding n t)
  unfolding take_token
  take_token_now n t h =
      rw
        (
          refilled_now (suc n) t h,
          sym exact.of_int_one,
          exact.of_int_lt (suc n) 1 (omega arith) (omega arith),
          exact.of_int_pred n (omega arith),
        )
        (ground arith)

  take_token_empty : (t : ℤ) → take_token rate (pos burst) (holding 0 t) t ≡ (false, holding 0 t)
  unfolding take_token
  take_token_empty t =
      rw
        (
          refilled_now 0 t (omega arith),
          sym exact.of_int_one,
          exact.of_int_lt 0 1 (omega arith) (omega arith),
        )
        refl

  -- The first call of a sequence and its key's bucket after it.
  consume-holding :
      (n : ℕ) (key : String) (t : ℤ) (m : Buckets F)
      → bucket_or_new (pos burst) t (bucket_of key m) ≡ holding (suc n) t
      → suc n ≤ burst
      → consume_token rate (pos burst) (record { key = key; made = t; now = t }) m
        ≡ (true, (key, holding n t) ∷ m)
  unfolding consume_token
  consume-holding n key t m e h = rw (e, take_token_now n t h) refl

  consume-empty :
      (key : String) (t : ℤ) (m : Buckets F)
      → bucket_or_new (pos burst) t (bucket_of key m) ≡ holding 0 t
      → consume_token rate (pos burst) (record { key = key; made = t; now = t }) m
        ≡ (false, (key, holding 0 t) ∷ m)
  unfolding consume_token
  consume-empty key t m e = rw (e, take_token_empty t) refl

  bucket_now :
      (n : ℕ) (key : String) (t : ℤ) (m : Buckets F)
      → bucket_or_new (pos burst) t (bucket_of key ((key, holding n t) ∷ m)) ≡ holding n t
  unfolding bucket_of bucket_or_new
  bucket_now n key t m = rw eq_refl refl

  granted-burst_of :
      (k n : ℕ) (key : String) (t : ℤ) (m : Buckets F)
      → bucket_or_new (pos burst) t (bucket_of key m) ≡ holding n t
      → n ≤ burst
      → granted (verdicts rate (pos burst) (burst_of k key t) m) ≡ at_most n k
  granted-burst_of zero n key t m e h = ap granted (verdicts-nil rate (pos burst) m) ∙ ground arith
  granted-burst_of (suc k) zero key t m e h =
      ap granted
        (verdicts-cons rate (pos burst) _ (burst_of k key t) m _ false (consume-empty key t m e))
      ∙ omega (
        arith,
        granted-burst_of k 0 key t ((key, holding 0 t) ∷ m) (bucket_now 0 key t m) h,
        at_most_zero k,
        at_most_zero (suc k),
      )
  granted-burst_of (suc k) (suc n) key t m e h =
      ap granted (
        verdicts-cons rate (pos burst) _ (burst_of k key t) m _ true
          (consume-holding n key t m e h))
      ∙ ground (arith, granted-burst_of k n key t ((key, holding n t) ∷ m) (bucket_now n key t m))

  -- For a finite rate that is not negative and a burst below 2^53: of `k` calls with a new key at one
  -- instant as many pass as the burst allows and no more, whatever calls with other keys come in
  -- between.
  pub granted_at_once :
      (k : ℕ) (key : String) (t : ℤ) (vs : List Visit) (m : Buckets F)
      → bucket_of key m ≡ none
      → filter (λ v. key == v.key) vs ≡ burst_of k key t
      → granted (filter (λ x. key == x.0) (verdicts rate (pos burst) vs m)) ≡ at_most burst k
  unfolding bucket_or_new
  granted_at_once k key t vs m new own =
      ap granted (verdicts-own rate (pos burst) key vs m m refl)
      ∙ (ap (λ ws. granted (verdicts rate (pos burst) ws m)) own
          ∙ granted-burst_of k burst key t m (rw new refl) (omega arith))
