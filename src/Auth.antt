-- ===== src/Auth.antt =====
-- pkg/auth/verifier.go: signatures and the tokens of requests.
pub mod Window
pub mod Tokens
use Prim.Native.Char.{code}
use Prim.Native.String as Text
use package.shinzo_scheduler_service.Base.{
  String, Bool, true, false, ◌||◌, none, some, Option, Result, ok, err, if◌then◌else◌, nat_eq,
}
use package.shinzo_scheduler_service.Base.Decimal.{parse_int, format_int}
use package.shinzo_scheduler_service.Base.Int.{ℤ, pos, negsuc, ◌-ℤ◌, ltb_ℤ, wrap64}

-- The standard library and the secp256k1 package as the verifier uses them.
pub record Crypto (P S : Type 0) : Type 0 where
  -- `hex.DecodeString`
  pub decode_hex : String → Option String
  pub parse_pub_key : String → Option P
  pub parse_signature : String → Option S
  pub sha256 : String → String
  -- `sig.Verify(hash, pubKey)`
  pub verify : S → String → P → Bool

-- What the signing of a token uses, with the private keys `K`.
pub record Signing (P S K : Type 0) : Type 0 where
  -- `ecdsa.Sign(priv, hash)`
  pub sign : K → String → S
  -- `sig.Serialize()`
  pub serialize : S → String
  -- `hex.EncodeToString`
  pub encode_hex : String → String
  -- `priv.PubKey()`
  pub public_key : K → P
  -- `pub.SerializeCompressed()`
  pub serialize_pub_key : P → String

-- `strings.Cut(s, ".")`: the text before the first dot, and that behind it.
unfoldable pub cut : String → Option (String × String)
cut String.[] = none
cut (String.◌∷◌ ch s) =
    let rest = cut s in
    if nat_eq (code ch) 46
    then some ("", s)
    else elim rest [ none ↦ none | some (before, after) ↦ some (String.◌∷◌ ch before, after) ]

-- `strings.SplitN(token, ".", 3)`, if that gives three parts.
unfoldable pub split_token : String → Option (String × String × String)
unfolding cut
split_token token = elim (cut token) [
  | none ↦ none
  | some (peer_id, rest) ↦ elim (cut rest) [
    | none ↦ none
    | some (ts_str, sig_hex) ↦ some (peer_id, ts_str, sig_hex)
  ]
]

module _ {P S : Type 0} (c : Crypto P S) where
  unfoldable pub check : String → String → String → Result (Unit {0})
  check pub_key_hex hash sig_hex = elim (c.decode_hex pub_key_hex) [
    | none ↦ err "invalid public key hex"
    | some pub_bytes ↦ elim (c.parse_pub_key pub_bytes) [
      | none ↦ err "parse public key"
      | some pub_key ↦ elim (c.decode_hex sig_hex) [
        | none ↦ err "invalid signature hex"
        | some sig_bytes ↦ elim (c.parse_signature sig_bytes) [
          | none ↦ err "parse signature"
          | some sig ↦
              if c.verify sig hash pub_key then ok tt else err "signature verification failed"
        ]
      ]
    ]
  ]

  unfoldable pub verify_signature : String → String → String → Result (Unit {0})
  verify_signature pub_key_hex msg_hex sig_hex = elim (c.decode_hex pub_key_hex) [
    | none ↦ err "invalid public key hex"
    | some pub_bytes ↦ elim (c.parse_pub_key pub_bytes) [
      | none ↦ err "parse public key"
      | some pub_key ↦ elim (c.decode_hex msg_hex) [
        | none ↦ err "invalid message hex"
        | some msg_bytes ↦ elim (c.decode_hex sig_hex) [
          | none ↦ err "invalid signature hex"
          | some sig_bytes ↦ elim (c.parse_signature sig_bytes) [
            | none ↦ err "parse signature"
            | some sig ↦
                if c.verify sig (c.sha256 msg_bytes) pub_key
                then ok tt
                else err "signature verification failed"
          ]
        ]
      ]
    ]
  ]

  -- `now` is the Unix time in seconds. The difference is an `int64`, which wraps.
  unfoldable pub out_of_window : ℤ → ℤ → Bool
  out_of_window now ts =
      let diff = wrap64 (now -ℤ ts) in ltb_ℤ diff (negsuc 59) || ltb_ℤ (pos 60) diff

  -- The peer id, if the token is well formed, in time, and signed with this key.
  unfoldable pub verify_request_token : String → String → ℤ → Result String
  verify_request_token pub_key_hex token now = elim (split_token token) [
    | none ↦ err "malformed token: expected peerID.timestamp.sig"
    | some (peer_id, ts_str, sig_hex) ↦ elim (parse_int ts_str) [
      | none ↦ err "invalid timestamp"
      | some ts ↦
          if out_of_window now ts
          then err "token expired or timestamp out of window"
          else elim (check pub_key_hex (c.sha256 (Text.◌++◌ peer_id (Text.◌++◌ "." ts_str)))
              sig_hex) [ err e ↦ err e | ok done ↦ ok peer_id ]
    ]
  ]

  unfoldable pub extract_peer_id : String → Result String
  extract_peer_id token = elim (split_token token) [
    | none ↦ err "malformed token"
    | some (peer_id, ts_str, sig_hex) ↦ ok peer_id
  ]

  -- `unix` is the time in seconds.
  unfoldable pub generate_token : {K : Type 0} → Signing P S K → K → String → ℤ → String
  generate_token k priv peer_id unix =
      let ts = format_int unix in
      let hash = c.sha256 (Text.◌++◌ peer_id (Text.◌++◌ "." ts)) in
      Text.◌++◌ peer_id (
        Text.◌++◌ "."
          (Text.◌++◌ ts (Text.◌++◌ "." (k.encode_hex (k.serialize (k.sign priv hash))))))
