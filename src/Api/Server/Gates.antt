-- ===== src/Api/Server/Gates.antt =====
-- Which routes of pkg/api/server.go let a request on only with a token.
use package.shinzo_scheduler_service.Base.{
  ℕ, String, ◌≡◌, refl, ◌⊎◌, inl, inr, Bool, true, false, List, [], ◌∷◌, All, Result, ok,
  Result-cases, Bool-cases, arith, ◌++◌, if◌then◌else◌, ap, ◌∙◌, sym,
}
use package.shinzo_scheduler_service.Base.Int.{ℤ, pos}
use package.shinzo_scheduler_service.Base.Float.{Float64}
use package.shinzo_scheduler_service.Api.Auth.{require_api_key}
use package.shinzo_scheduler_service.Api.RateLimit.{rate_limit}
use package.shinzo_scheduler_service.Api.Server.{
  Endpoint, health, stats, metrics, indexer_register, host_register, indexer_get, Gate, Route,
  Request, Texts, Limiters, keyed_gates, routes, public_routes, keyed_routes, accounting_routes,
  settlement_routes, pass, api_key, limit_by_key, visit_of, set_buckets,
}

-- The endpoints that the service offers to everyone.
abbrev pub is_public : Endpoint → Bool
is_public health = true
is_public stats = true
is_public metrics = true
is_public indexer_register = true
is_public host_register = true
is_public indexer_get = true
is_public _ = false

module _ (F : Type 0) ⦃fl : Float64 F⦄ (tx : Texts) where
  -- The middleware lets a request on only with a token, and passes that token on.
  abbrev pub NeedsKey : List Gate → Type 0
  NeedsKey gates =
      (req : Request) (limiters : Limiters F) (token : String)
      → (pass tx gates req "" limiters).0 ≡ ok token
      → require_api_key tx.trim_bearer req.authorization ≡ ok token

  -- Limits behind the token do not change it.
  limit_by_key-token :
      (n rate : ℕ) (burst : ℤ) (req : Request) (key : String) (limiters : Limiters F)
      (token : String)
      → (pass tx (limit_by_key n rate burst ∷ []) req key limiters).0 ≡ ok token
      → key ≡ token
  unfolding pass
  limit_by_key-token n rate burst req key limiters token h = ground arith

  api_key-token :
      (n rate : ℕ) (burst : ℤ) (req : Request) (key : String) (limiters : Limiters F)
      (token : String)
      → (pass tx (api_key ∷ limit_by_key n rate burst ∷ []) req key limiters).0 ≡ ok token
      → require_api_key tx.trim_bearer req.authorization ≡ ok token
  unfolding pass
  api_key-token n rate burst req key limiters token h =
      elim (Result-cases (require_api_key tx.trim_bearer req.authorization)) [
        | inr (e, q) ↦ absurd (ground arith)
        | inl (key', q) ↦
            let same : pass tx (api_key ∷ limit_by_key n rate burst ∷ []) req key limiters
                ≡ pass tx (limit_by_key n rate burst ∷ []) req key' limiters =
              ground arith in
            q
            ∙ ap ok (
                limit_by_key-token n rate burst req key' limiters token
                  (sym (ap (λ (x : Result String × Limiters F). x.0) same) ∙ h))
      ]

  keyed_gates-NeedsKey : (n : ℕ) → NeedsKey (keyed_gates n)
  unfolding pass
  keyed_gates-NeedsKey n req limiters token h =
      let first =
        rate_limit tx.host_of (fl.of_int (pos 50)) (pos 100) (visit_of req.remote_addr req)
          (limiters 0) in
      elim (Bool-cases first.0) [
        | inr refused ↦ absurd (ground arith)
        | inl passed ↦
            api_key-token n 10 (pos 30) req "" (set_buckets 0 first.1 limiters) token (ground arith)
      ]

  abbrev Guarded : List Route → Type 0
  Guarded = All (λ r. (is_public r.endpoint ≡ true) ⊎ NeedsKey r.gates)

  All-both : (xs ys : List Route) → Guarded xs → Guarded ys → Guarded (xs ++ ys)
  All-both [] ys h k = k
  All-both (x ∷ xs) ys h k = (h.0, All-both xs ys h.1 k)

  public_routes-Guarded : Guarded public_routes
  unfolding public_routes
  public_routes-Guarded = (inl refl, (inl refl, (inl refl, (inl refl, (inl refl, (inl refl, tt))))))

  keyed_routes-Guarded : Guarded keyed_routes
  unfolding keyed_routes
  keyed_routes-Guarded = (
    inr (keyed_gates-NeedsKey 2),
    (
      inr (keyed_gates-NeedsKey 2),
      (
        inr (keyed_gates-NeedsKey 3),
        (
          inr (keyed_gates-NeedsKey 3),
          (
            inr (keyed_gates-NeedsKey 3),
            (
              inr (keyed_gates-NeedsKey 4),
              (
                inr (keyed_gates-NeedsKey 4),
                (
                  inr (keyed_gates-NeedsKey 4),
                  (
                    inr (keyed_gates-NeedsKey 5),
                    (
                      inr (keyed_gates-NeedsKey 5),
                      (
                        inr (keyed_gates-NeedsKey 5),
                        (
                          inr (keyed_gates-NeedsKey 5),
                          (inr (keyed_gates-NeedsKey 6), (inr (keyed_gates-NeedsKey 6), tt)),
                        ),
                      ),
                    ),
                  ),
                ),
              ),
            ),
          ),
        ),
      ),
    ),
  )

  accounting_routes-Guarded : (b : Bool) → Guarded (if b then accounting_routes else [])
  unfolding accounting_routes
  accounting_routes-Guarded true = (
    inr (keyed_gates-NeedsKey 7),
    (
      inr (keyed_gates-NeedsKey 7),
      (inr (keyed_gates-NeedsKey 7), (inr (keyed_gates-NeedsKey 7), tt)),
    ),
  )
  accounting_routes-Guarded false = tt

  settlement_routes-Guarded : (b : Bool) → Guarded (if b then settlement_routes else [])
  unfolding settlement_routes
  settlement_routes-Guarded true = (
    inr (keyed_gates-NeedsKey 8),
    (inr (keyed_gates-NeedsKey 8), (inr (keyed_gates-NeedsKey 8), tt)),
  )
  settlement_routes-Guarded false = tt

  -- Every route but those of the health of the service, the registrations and the look at an indexer
  -- lets a request on only with a token in its header, and hands this token to the handler.
  pub routes-NeedsKey :
      (accounting settlement : Bool)
      → All (λ r. (is_public r.endpoint ≡ true) ⊎ NeedsKey r.gates) (routes accounting settlement)
  unfolding routes
  routes-NeedsKey a s =
      All-both public_routes
        (keyed_routes
          ++ ((if a then accounting_routes else []) ++ (if s then settlement_routes else [])))
        public_routes-Guarded
        (All-both keyed_routes
          ((if a then accounting_routes else []) ++ (if s then settlement_routes else []))
          keyed_routes-Guarded
          (All-both (if a then accounting_routes else []) (if s then settlement_routes else [])
            (accounting_routes-Guarded a) (settlement_routes-Guarded s)))
