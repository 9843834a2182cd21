-- ===== src/Tests/Requests.antt =====
-- The theorems on the middleware, the routes and the queries of pkg/api at concrete requests.
use package.shinzo_scheduler_service.Base.{
  String, some, ◌≡◌, ◌⊎◌, refl, false, true, List, [], ◌∷◌, All, filter, ◌==◌, arith, if◌then◌else◌,
}
use package.shinzo_scheduler_service.Base.Int.{ℤ, pos}
use package.shinzo_scheduler_service.Store.Documents.{indexer_document}
use package.shinzo_scheduler_service.Api.Discovery.{Strconv}
use package.shinzo_scheduler_service.Api.Indexers.{IndexerHandler}
use package.shinzo_scheduler_service.Api.Indexers.Identity.{
  Request, heartbeat_request, handle, Owns, OwnChange, handle-OwnRecord,
}
use package.shinzo_scheduler_service.Store.Records.{IndexerRecord}
use package.shinzo_scheduler_service.Api.RateLimit.{Visit, Buckets, bucket_of}
use package.shinzo_scheduler_service.Api.RateLimit.Keys.{verdicts}
use package.shinzo_scheduler_service.Api.RateLimit.Bursts.{granted, granted_at_once}
use package.shinzo_scheduler_service.Api.Server.{Texts, routes}
use package.shinzo_scheduler_service.Api.Server.Gates.{is_public, NeedsKey, routes-NeedsKey}
use package.shinzo_scheduler_service.Tests.Collections.{all_docs, list_db, list_db-LawfulDb}
use package.shinzo_scheduler_service.Tests.Numbers.{whole, whole-HasExactIntegers}
use package.shinzo_scheduler_service.Tests.Clock.{clock, noon}
use package.shinzo_scheduler_service.Tests.Peers.{indexer, registry}

abbrev handler : IndexerHandler ℤ (List (IndexerRecord ℤ)) String String
handler = record { reg = registry; indexer_st = list_db indexer_document }

abbrev beat : Request
beat = heartbeat_request (some (record { current_tip = pos 101; snapshot_ranges = "[]" })) noon

handle-OwnRecord_example :
    (handle clock handler "indexer.100.key" "indexer" (pos 130) beat (indexer ∷ []) ≡ indexer ∷ [])
    ⊎ (Owns clock handler all_docs
          (list_db-LawfulDb indexer_document)
          "indexer.100.key"
          (pos 130)
          "indexer"
          (indexer ∷ [])
        × OwnChange clock handler "indexer"
            (indexer ∷ [])
            (handle clock handler "indexer.100.key" "indexer" (pos 130) beat (indexer ∷ [])))
handle-OwnRecord_example =
    handle-OwnRecord clock handler all_docs (list_db-LawfulDb indexer_document) "indexer.100.key"
      "indexer" (pos 130) beat (indexer ∷ [])

abbrev visit : String → Visit
visit key = record { key = key; made = noon; now = noon }

-- Four calls with one key, and one with another in between.
abbrev visits : List Visit
visits = visit "a" ∷ visit "a" ∷ visit "b" ∷ visit "a" ∷ visit "a" ∷ []

abbrev no_buckets : Buckets ℤ
no_buckets = []

granted_at_once_example :
    granted (filter (λ x. "a" == x.0) (verdicts (pos 10) (pos 3) visits no_buckets)) ≡ 3
unfolding whole bucket_of
granted_at_once_example =
    granted_at_once whole-HasExactIntegers (pos 10) refl refl 3 (ground arith) 4 "a" noon visits
      no_buckets refl refl

abbrev texts : Texts
texts = record { host_of = λ s. s; trim_bearer = λ s. if s == "Bearer token" then "token" else s }

routes-NeedsKey_example :
    All (λ r. (is_public r.endpoint ≡ true) ⊎ NeedsKey ℤ texts r.gates) (routes true true)
routes-NeedsKey_example = routes-NeedsKey ℤ texts true true

abbrev numbers : Strconv ℤ
numbers = record { parse_float = λ s. (pos 7, false); atoi = λ s. pos 0 }
