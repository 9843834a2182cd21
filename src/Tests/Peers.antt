-- ===== src/Tests/Peers.antt =====
-- The theorems on tokens and registrations (pkg/auth, pkg/registry) at one indexer.
use package.shinzo_scheduler_service.Base.{
  String, ◌≡◌, ◌↔◌, ◌≤◌, eq_refl, ok, refl, [], ◌∷◌, List, arith, none, some, ◌==◌, filter, first,
}
use package.shinzo_scheduler_service.Base.Decimal.{parse_int}
use package.shinzo_scheduler_service.Base.Int.{ℤ, pos, wrap64, ◌-ℤ◌}
use package.shinzo_scheduler_service.Store.Records.{IndexerRecord}
use package.shinzo_scheduler_service.Store.Documents.{indexer_document}
use package.shinzo_scheduler_service.Store.Status
use package.shinzo_scheduler_service.Store.IndexerStore
use package.shinzo_scheduler_service.Auth.{
  Crypto, Signing, generate_token, check, out_of_window, verify_request_token, verify_signature,
  extract_peer_id, cut, split_token,
}
use package.shinzo_scheduler_service.Auth.Tokens.{
  LawfulSigning, verify_request_token-generate_token,
}
use package.shinzo_scheduler_service.Auth.Window.{IsToken}
use package.shinzo_scheduler_service.Registry.Indexers.{
  IndexerRegistry, RegisterIndexerRequest, verify_messages, verify_registration, register,
  verify_request,
}
use package.shinzo_scheduler_service.Registry.Indexers.Identity.{
  IsRegistration, Registered, verify_request-IsToken, register-Registered,
}
use package.shinzo_scheduler_service.Tests.Collections.{all_docs, list_db, list_db-LawfulDb}
use package.shinzo_scheduler_service.Tests.Numbers.{whole}
use package.shinzo_scheduler_service.Tests.Clock.{clock, noon}

-- Keys and signatures as texts: a key signs a hash by its own name.
abbrev pub crypto : Crypto String String
crypto = record {
  decode_hex = λ s. some s;
  parse_pub_key = λ s. some s;
  parse_signature = λ s. some s;
  sha256 = λ s. s;
  verify = λ sig hash key. sig == key;
}

abbrev signing : Signing String String String
signing = record {
  sign = λ priv hash. priv;
  serialize = λ s. s;
  encode_hex = λ s. s;
  public_key = λ priv. priv;
  serialize_pub_key = λ s. s;
}

signing-LawfulSigning : LawfulSigning crypto signing
signing-LawfulSigning = record {
  decode_encoded = λ bytes. refl;
  parse_serialized = λ sig. refl;
  parse_serialized_pub = λ p. refl;
  verify_signed = λ priv hash. eq_refl priv;
}

verify_request_token-generate_token_example :
    (verify_request_token crypto "key"
        (generate_token crypto signing "key" "indexer" (pos 100))
        (pos 130)
      ≡ ok "indexer")
    ↔ ((130 ≤ 160) × (100 ≤ 190))
verify_request_token-generate_token_example =
    verify_request_token-generate_token crypto signing signing-LawfulSigning "key" "indexer" 100 130
      refl (ground arith) (ground arith)

abbrev pub registry : IndexerRegistry ℤ (List (IndexerRecord ℤ)) String String
registry = record {
  indexer_st = list_db indexer_document;
  crypto = crypto;
  decode_pricing = λ s. none;
  chain = "ethereum";
  network = "mainnet";
  heartbeat_interval_seconds = pos 30;
}

abbrev pub indexer : IndexerRecord ℤ
indexer = record {
  doc_id = "bae-0";
  peer_id = "indexer";
  defra_pk = "key";
  http_url = "http://indexer";
  multiaddr = "multiaddr";
  chain = "ethereum";
  network = "mainnet";
  current_tip = pos 100;
  snapshot_ranges = "[]";
  pricing = "";
  reliability_score = pos 1;
  last_heartbeat = "1970-01-01T12:00:00Z";
  registered_at = "";
  status = Status.active;
}

verify_request-IsToken_example :
    (first (filter (λ i. i.peer_id == indexer.peer_id) (indexer ∷ [])) ≡ some indexer)
    × IsToken crypto "key" "indexer.100.key" (pos 130) "indexer"
unfolding verify_request extract_peer_id IndexerStore.get_by_peer_id verify_request_token
    split_token cut parse_int out_of_window check wrap64 ◌-ℤ◌
verify_request-IsToken_example =
    verify_request-IsToken clock registry all_docs (list_db-LawfulDb indexer_document)
      "indexer.100.key" (pos 130) (indexer ∷ []) indexer refl

-- A registration of the same peer id with another key.
abbrev takeover : RegisterIndexerRequest
takeover = record {
  peer_id = "indexer";
  defra_pk = "other";
  signed_messages = ("message", "other") ∷ [];
  http_url = "http://other";
  multiaddr = "multiaddr";
  chain = "ethereum";
  network = "mainnet";
  pricing = "";
}

register-Registered_example :
    IsRegistration clock registry all_docs (list_db-LawfulDb indexer_document) takeover
    × Registered clock registry all_docs
        (list_db-LawfulDb indexer_document)
        takeover
        noon
        (indexer ∷ [])
        (register clock registry takeover noon (indexer ∷ [])).1
unfolding register verify_registration verify_messages verify_signature IndexerStore.get_by_peer_id
    IndexerStore.update
register-Registered_example =
    register-Registered clock registry all_docs (list_db-LawfulDb indexer_document) takeover noon
      (indexer ∷ []) (record { peer_id = "indexer"; heartbeat_interval_seconds = pos 30 }) refl
