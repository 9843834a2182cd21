-- ===== src/Api/Server.antt =====
-- pkg/api/server.go: the routes, each with the middleware that a request passes. The router itself
-- (gorilla/mux) chooses the route.
pub mod Gates
use package.shinzo_scheduler_service.Base.{
  ℕ, String, Bool, true, false, Option, none, some, List, [], ◌∷◌, ◌++◌, Result, ok, err,
  if◌then◌else◌, nat_eq,
}
use package.shinzo_scheduler_service.Base.Int.{ℤ, pos}
use package.shinzo_scheduler_service.Base.Float.{Float64}
use package.shinzo_scheduler_service.Api.Auth.{require_api_key}
use package.shinzo_scheduler_service.Api.RateLimit.{Buckets, Visit, rate_limit, rate_limit_by_key}

pub data Method : Type 0 where
  get : Method
  post : Method
  delete : Method

-- The handler of a route.
pub data Endpoint : Type 0 where
  health : Endpoint
  stats : Endpoint
  metrics : Endpoint
  indexer_register : Endpoint
  host_register : Endpoint
  indexer_get : Endpoint
  indexer_heartbeat : Endpoint
  indexer_deregister : Endpoint
  host_heartbeat : Endpoint
  host_get : Endpoint
  host_deregister : Endpoint
  discover_indexers : Endpoint
  discover_snapshots : Endpoint
  discover_match : Endpoint
  subscription_create : Endpoint
  subscription_list : Endpoint
  subscription_get : Endpoint
  subscription_cancel : Endpoint
  quote : Endpoint
  verify_payment : Endpoint
  submit_claim : Endpoint
  submit_attestation : Endpoint
  session_ledger : Endpoint
  comparisons : Endpoint
  escrow : Endpoint
  settlements : Endpoint
  verdicts : Endpoint

-- A middleware: the token, or a limit of so many requests in a second and in a burst. Each limiter
-- has its own buckets, which its number stands for.
pub data Gate : Type 0 where
  api_key : Gate
  limit : ℕ → ℕ → ℤ → Gate
  limit_by_key : ℕ → ℕ → ℤ → Gate

pub record Route : Type 0 where
  pub path : String
  pub method : Method
  pub gates : List Gate
  pub endpoint : Endpoint

abbrev pub route : List Gate → String → Method → Endpoint → Route
route gates path method endpoint = record {
  path = path;
  method = method;
  gates = gates;
  endpoint = endpoint;
}

-- `r.Use(middleware.RateLimit(50, 100))`: the logging and the limit of a body let every request on.
abbrev pub global_gates : List Gate
global_gates = limit 0 50 (pos 100) ∷ []

-- `RateLimit(5, 10)`
abbrev pub registration_gates : List Gate
registration_gates = limit 0 50 (pos 100) ∷ limit 1 5 (pos 10) ∷ []

-- `RequireAPIKey` and a limiter of the subrouter's own, `RateLimitByKey(10, 30)`.
abbrev pub keyed_gates : ℕ → List Gate
keyed_gates n = limit 0 50 (pos 100) ∷ api_key ∷ limit_by_key n 10 (pos 30) ∷ []

unfoldable pub public_routes : List Route
public_routes =
    route global_gates "/v1/health" Method.get health
    ∷ route global_gates "/v1/stats" Method.get stats
    ∷ route global_gates "/v1/metrics" Method.get metrics
    ∷ route registration_gates "/v1/indexers/register" Method.post indexer_register
    ∷ route registration_gates "/v1/hosts/register" Method.post host_register
    ∷ route global_gates "/v1/indexers/{id}" Method.get indexer_get
    ∷ []

unfoldable pub keyed_routes : List Route
keyed_routes =
    route (keyed_gates 2) "/v1/indexers/{id}/heartbeat" Method.post indexer_heartbeat
    ∷ route (keyed_gates 2) "/v1/indexers/{id}" Method.delete indexer_deregister
    ∷ route (keyed_gates 3) "/v1/hosts/{id}/heartbeat" Method.post host_heartbeat
    ∷ route (keyed_gates 3) "/v1/hosts/{id}" Method.get host_get
    ∷ route (keyed_gates 3) "/v1/hosts/{id}" Method.delete host_deregister
    ∷ route (keyed_gates 4) "/v1/discover/indexers" Method.get discover_indexers
    ∷ route (keyed_gates 4) "/v1/discover/snapshots" Method.get discover_snapshots
    ∷ route (keyed_gates 4) "/v1/discover/match" Method.get discover_match
    ∷ route (keyed_gates 5) "/v1/subscriptions" Method.post subscription_create
    ∷ route (keyed_gates 5) "/v1/subscriptions" Method.get subscription_list
    ∷ route (keyed_gates 5) "/v1/subscriptions/{id}" Method.get subscription_get
    ∷ route (keyed_gates 5) "/v1/subscriptions/{id}" Method.delete subscription_cancel
    ∷ route (keyed_gates 6) "/v1/quotes" Method.get quote
    ∷ route (keyed_gates 6) "/v1/payments/verify" Method.post verify_payment
    ∷ []

unfoldable pub accounting_routes : List Route
accounting_routes =
    route (keyed_gates 7) "/v1/claims" Method.post submit_claim
    ∷ route (keyed_gates 7) "/v1/attestations" Method.post submit_attestation
    ∷ route (keyed_gates 7) "/v1/sessions/{id}/ledger" Method.get session_ledger
    ∷ route (keyed_gates 7) "/v1/sessions/{id}/comparisons" Method.get comparisons
    ∷ []

unfoldable pub settlement_routes : List Route
settlement_routes =
    route (keyed_gates 8) "/v1/escrow/{session_id}" Method.get escrow
    ∷ route (keyed_gates 8) "/v1/settlements/{session_id}" Method.get settlements
    ∷ route (keyed_gates 8) "/v1/verdicts/{session_id}" Method.get verdicts
    ∷ []

-- `NewServer`: the two flags tell whether there are handlers for accounting and settlement.
unfoldable pub routes : Bool → Bool → List Route
unfolding public_routes keyed_routes accounting_routes settlement_routes
routes accounting settlement =
    public_routes
    ++ (keyed_routes
        ++ ((if accounting then accounting_routes else [])
            ++ (if settlement then settlement_routes else [])))

-- What a request brings to the middleware, and the times that it reads.
pub record Request : Type 0 where
  pub remote_addr : String
  pub authorization : String
  pub made : ℤ
  pub now : ℤ

-- The functions of package net and strings that the middleware calls.
pub record Texts : Type 0 where
  pub host_of : String → String
  pub trim_bearer : String → String

-- The buckets of each limiter.
abbrev pub Limiters : Type 0 → Type 0
Limiters F = ℕ → Buckets F

abbrev pub set_buckets : {F : Type 0} → ℕ → Buckets F → Limiters F → Limiters F
set_buckets n buckets limiters k = if nat_eq k n then buckets else limiters k

abbrev pub visit_of : String → Request → Visit
visit_of key req = record { key = key; made = req.made; now = req.now }

module _ {F : Type 0} ⦃fl : Float64 F⦄ (tx : Texts) where
  -- The middleware in its order: the token of the context, "" at first, or the status of the refusal.
  unfoldable pub pass : List Gate → Request → String → Limiters F → Result String × Limiters F
  pass [] req token limiters = (ok token, limiters)
  pass (api_key ∷ gates) req token limiters =
      elim (require_api_key tx.trim_bearer req.authorization) [
        | err e ↦ (err "401", limiters)
        | ok key ↦ pass gates req key limiters
      ]
  pass (limit n rate burst ∷ gates) req token limiters =
      let (passed, buckets) =
        rate_limit tx.host_of (fl.of_int (pos rate)) burst (visit_of req.remote_addr req)
          (limiters n) in
      elim passed [
        | false ↦ (err "429", set_buckets n buckets limiters)
        | true ↦ pass gates req token (set_buckets n buckets limiters)
      ]
  pass (limit_by_key n rate burst ∷ gates) req token limiters =
      let (passed, buckets) =
        rate_limit_by_key (fl.of_int (pos rate)) burst (visit_of token req) (limiters n) in
      elim passed [
        | false ↦ (err "429", set_buckets n buckets limiters)
        | true ↦ pass gates req token (set_buckets n buckets limiters)
      ]
