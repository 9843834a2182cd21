-- ===== src/Api/RateLimit.antt =====
-- pkg/api/middleware/ratelimit.go: token buckets for each key. The mutexes make a call one step.
pub mod Keys
pub mod Bursts
use package.shinzo_scheduler_service.Base.{
  ℕ, suc, ◌/◌, ◌%◌, String, Bool, true, false, Option, none, some, List, [], ◌∷◌, ◌==◌,
  if◌then◌else◌,
}
use package.shinzo_scheduler_service.Base.Int.{ℤ, pos, negsuc, ◌-ℤ◌}
use package.shinzo_scheduler_service.Auth.{split_token}
use package.shinzo_scheduler_service.Base.Time.{since}
use package.shinzo_scheduler_service.Base.Float.{
  Float64, zero_F, one_F, ◌+F◌, ◌-F◌, ◌*F◌, ◌/F◌, ◌<F◌,
}

pub record TokenBucket (F : Type 0) : Type 0 where
  pub tokens : F
  pub last : ℤ

-- `map[string]*tokenBucket`: a key that is put again stands before its older entry.
abbrev pub Buckets : Type 0 → Type 0
Buckets F = List (String × TokenBucket F)

unfoldable pub bucket_of : {F : Type 0} → String → Buckets F → Option (TokenBucket F)
bucket_of key [] = none
bucket_of key ((k, b) ∷ buckets) = if key == k then some b else bucket_of key buckets

-- A call of the limiter: its key, the time at which a bucket would be made, and the time right after.
pub record Visit : Type 0 where
  pub key : String
  pub made : ℤ
  pub now : ℤ

-- The key of `RateLimitByKey`: the first of three parts of the token, or the token.
unfoldable pub limiter_key : String → String
unfolding split_token
limiter_key api_key = elim (split_token api_key) [ none ↦ api_key | some parts ↦ parts.0 ]

module _ {F : Type 0} ⦃fl : Float64 F⦄ where
  -- `d.Seconds()`: whole seconds, and the rest of the nanoseconds as a fraction.
  unfoldable pub in_seconds : ℤ → F
  in_seconds (pos n) =
      fl.of_int (pos (n / 1000000000))
      +F fl.of_int (pos (n % 1000000000)) /F fl.of_int (pos 1000000000)
  in_seconds (negsuc n) =
      fl.of_int (pos 0 -ℤ pos (suc n / 1000000000))
      +F fl.of_int (pos 0 -ℤ pos (suc n % 1000000000)) /F fl.of_int (pos 1000000000)

  -- The tokens after the refill, at most `burst`.
  unfoldable pub refilled : F → ℤ → TokenBucket F → ℤ → F
  refilled rate burst b now =
      let tokens = b.tokens +F in_seconds (since now b.last) *F rate in
      if fl.of_int burst <F tokens then fl.of_int burst else tokens

  -- The part of `consumeToken` behind the lookup.
  unfoldable pub take_token : F → ℤ → TokenBucket F → ℤ → Bool × TokenBucket F
  unfolding refilled
  take_token rate burst b now =
      let tokens = refilled rate burst b now in
      if tokens <F one_F
      then (false, record { tokens = tokens; last = now })
      else (true, record { tokens = tokens -F one_F; last = now })

  unfoldable pub bucket_or_new : ℤ → ℤ → Option (TokenBucket F) → TokenBucket F
  bucket_or_new burst made none = record { tokens = fl.of_int burst; last = made }
  bucket_or_new burst made (some b) = b

  unfoldable pub consume_token : F → ℤ → Visit → Buckets F → Bool × Buckets F
  unfolding take_token bucket_or_new bucket_of
  consume_token rate burst v buckets =
      let (passed, b) =
        take_token rate burst (bucket_or_new burst v.made (bucket_of v.key buckets)) v.now in
      (passed, (v.key, b) ∷ buckets)

  -- `RateLimit`: by the host of the remote address, which `host_of` takes from it
  -- (`net.SplitHostPort`). `false` is the reply 429.
  unfoldable pub rate_limit : (String → String) → F → ℤ → Visit → Buckets F → Bool × Buckets F
  unfolding consume_token
  rate_limit host_of rate burst v buckets =
      consume_token rate burst (record v { key = host_of v.key }) buckets

  unfoldable pub rate_limit_by_key : F → ℤ → Visit → Buckets F → Bool × Buckets F
  unfolding consume_token limiter_key
  rate_limit_by_key rate burst v buckets =
      let key = limiter_key v.key in
      if key == ""
      then (true, buckets)
      else consume_token rate burst (record v { key = key }) buckets
