-- ===== src/Api/RateLimit/Keys.antt =====
-- The calls with one key among those with others (pkg/api/middleware/ratelimit.go).
use package.shinzo_scheduler_service.Base.{
  String, ◌≡◌, refl, ap, ◌∙◌, Bool, true, false, some, List, [], ◌∷◌, filter, subst, ◌==◌, eq_iff,
  arith, Bool-cases, inl, inr,
}
use mathlib.Core.Path.{ap₂}
use package.shinzo_scheduler_service.Base.Int.{ℤ}
use package.shinzo_scheduler_service.Base.Float.{Float64}
use package.shinzo_scheduler_service.Api.RateLimit.{
  Buckets, bucket_of, Visit, take_token, bucket_or_new, consume_token,
}

module _ {F : Type 0} ⦃fl : Float64 F⦄ (rate : F) (burst : ℤ) where
  -- The verdicts on a sequence of calls, with their keys.
  unfoldable pub verdicts : List Visit → Buckets F → List (String × Bool)
  unfolding consume_token
  verdicts [] buckets = []
  verdicts (v ∷ vs) buckets =
      let (passed, buckets') = consume_token rate burst v buckets in
      (v.key, passed) ∷ verdicts vs buckets'

  pub verdicts-nil : (m : Buckets F) → verdicts [] m ≡ []
  unfolding verdicts
  verdicts-nil m = refl

  pub verdicts-cons :
      (v : Visit) (vs : List Visit) (m m' : Buckets F) (passed : Bool)
      → consume_token rate burst v m ≡ (passed, m')
      → verdicts (v ∷ vs) m ≡ (v.key, passed) ∷ verdicts vs m'
  unfolding verdicts
  verdicts-cons v vs m m' passed e = ap (λ (x : Bool × Buckets F). (v.key, x.0) ∷ verdicts vs x.1) e

  -- A call depends on the bucket of its key only.
  consume_token-passed :
      (v : Visit) (m m' : Buckets F)
      → bucket_of v.key m ≡ bucket_of v.key m'
      → (consume_token rate burst v m).0 ≡ (consume_token rate burst v m').0
  unfolding consume_token
  consume_token-passed v m m' same =
      ap (λ o. (take_token rate burst (bucket_or_new burst v.made o) v.now).0) same

  bucket_of-consume_same :
      (key : String) (v : Visit) (m m' : Buckets F)
      → (key == v.key) ≡ true
      → bucket_of v.key m ≡ bucket_of v.key m'
      → bucket_of key (consume_token rate burst v m).1
        ≡ bucket_of key (consume_token rate burst v m').1
  unfolding consume_token bucket_of
  bucket_of-consume_same key v m m' own same =
      rw own (ap (λ o. some (take_token rate burst (bucket_or_new burst v.made o) v.now).1) same)

  bucket_of-consume_other :
      (key : String) (v : Visit) (m : Buckets F)
      → (key == v.key) ≡ false
      → bucket_of key (consume_token rate burst v m).1 ≡ bucket_of key m
  unfolding consume_token bucket_of
  bucket_of-consume_other key v m other = ground arith

  -- What a key is granted depends on the calls with this key only, whatever other keys ask for in
  -- between, and on the bucket that it has at the start.
  pub verdicts-own :
      (key : String) (vs : List Visit) (m m' : Buckets F)
      → bucket_of key m ≡ bucket_of key m'
      → filter (λ x. key == x.0) (verdicts vs m) ≡ verdicts (filter (λ v. key == v.key) vs) m'
  unfolding verdicts
  verdicts-own key [] m m' same = refl
  verdicts-own key (v ∷ vs) m m' same = elim (Bool-cases (key == v.key)) [
    | inl own ↦
        let same' = subst (λ k. bucket_of k m ≡ bucket_of k m') ((eq_iff key v.key).0 own) same in
        let now = consume_token-passed v m m' same' in
        let later =
          verdicts-own key vs (consume_token rate burst v m).1 (consume_token rate burst v m').1
            (bucket_of-consume_same key v m m' own same') in
        rw own (ap₂ (λ b bs. (v.key, b) ∷ bs) now later)
    | inr other ↦ rw other (
        verdicts-own key vs (consume_token rate burst v m).1 m'
          (bucket_of-consume_other key v m other ∙ same))
  ]
