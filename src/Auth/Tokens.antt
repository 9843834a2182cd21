-- ===== src/Auth/Tokens.antt =====
-- The tokens that clients make, under the check of the service (pkg/auth/verifier.go).
use Prim.Native.String as Text
use text.Mathlib.TextLemmas.{nil-append, cons-append}
use package.shinzo_scheduler_service.Base.{
  ℕ, ◌+◌, ◌^◌, ◌<◌, ◌≤◌, String, ◌≡◌, refl, ◌↔◌, true, Bool-cases, inl, inr, some, ok, err, arith,
  if◌then◌else◌,
}
use package.shinzo_scheduler_service.Base.Decimal.{
  format_int, parse_int-format_int, lacks, lacks-format_int,
}
use package.shinzo_scheduler_service.Base.Int.{ℤ, pos, ◌+ℤ◌}
use package.shinzo_scheduler_service.Auth.{
  Crypto, Signing, cut, split_token, check, out_of_window, verify_request_token, generate_token,
}
use package.shinzo_scheduler_service.Auth.Window.{in_window}

-- There is no dot in the text.
abbrev pub HasNoDot : String → Type 0
HasNoDot s = lacks 46 s ≡ true

cut-append : (s t : String) → HasNoDot s → cut (Text.◌++◌ s (Text.◌++◌ "." t)) ≡ some (s, t)
unfolding cut
cut-append String.[] t h =
    rw (nil-append (Text.◌++◌ "." t), cons-append (Text.char_at "." 0) "" t, nil-append t) refl
cut-append (String.◌∷◌ ch s) t h =
    rw (cons-append ch s (Text.◌++◌ "." t)) (ground (arith, cut-append s t))

split_token-append :
    (a b t : String)
    → HasNoDot a
    → HasNoDot b
    → split_token (Text.◌++◌ a (Text.◌++◌ "." (Text.◌++◌ b (Text.◌++◌ "." t)))) ≡ some (a, b, t)
unfolding split_token
split_token-append a b t h k =
    ground (arith, cut-append a (Text.◌++◌ b (Text.◌++◌ "." t)) h, cut-append b t k)

module _ {P S K : Type 0} (c : Crypto P S) (k : Signing P S K) where
  -- What is written is read back, and a signature of a hash is one under the key of the signer.
  pub record LawfulSigning : Type 0 where
    pub decode_encoded : (bytes : String) → c.decode_hex (k.encode_hex bytes) ≡ some bytes
    pub parse_serialized : (sig : S) → c.parse_signature (k.serialize sig) ≡ some sig
    pub parse_serialized_pub : (p : P) → c.parse_pub_key (k.serialize_pub_key p) ≡ some p
    pub verify_signed :
        (priv : K) (hash : String) → c.verify (k.sign priv hash) hash (k.public_key priv) ≡ true

  -- The public key of a private one, as it is registered.
  abbrev pub key_text : K → String
  key_text priv = k.encode_hex (k.serialize_pub_key (k.public_key priv))

  module _ (lawful : LawfulSigning) where
    check_signed :
        (priv : K) (hash : String)
        → check c (key_text priv) hash (k.encode_hex (k.serialize (k.sign priv hash))) ≡ ok tt
    unfolding check
    check_signed priv hash = ground (
      arith,
      lawful.decode_encoded (k.serialize_pub_key (k.public_key priv)),
      lawful.parse_serialized_pub (k.public_key priv),
      lawful.decode_encoded (k.serialize (k.sign priv hash)),
      lawful.parse_serialized (k.sign priv hash),
      lawful.verify_signed priv hash,
    )

    -- What the check makes of a generated token: only the time is left to decide.
    verify_generated :
        (priv : K) (peer_id : String) (made : ℕ) (now : ℤ)
        → HasNoDot peer_id
        → made < 2 ^ 63
        → verify_request_token c (key_text priv) (generate_token c k priv peer_id (pos made)) now
          ≡ (if out_of_window c now (pos made)
              then err "token expired or timestamp out of window"
              else ok peer_id)
    unfolding verify_request_token generate_token
    verify_generated priv peer_id made now h small =
        let ts = format_int (pos made) in
        let hash = c.sha256 (Text.◌++◌ peer_id (Text.◌++◌ "." ts)) in
        ground (
          arith,
          split_token-append peer_id ts (k.encode_hex (k.serialize (k.sign priv hash))) h
              (lacks-format_int 46 made (omega arith)),
          parse_int-format_int made small,
          check_signed priv hash,
        )

    -- A token generated at a time below 2^63, for a peer id without dots, passes with the key of its
    -- signer and names the peer exactly if it is checked within 60 seconds, before or after, at a time
    -- below 2^62.
    pub verify_request_token-generate_token :
        (priv : K) (peer_id : String) (made now : ℕ)
        → HasNoDot peer_id
        → made < 2 ^ 63
        → now < 2 ^ 62
        → (verify_request_token c
              (key_text priv)
              (generate_token c k priv peer_id (pos made))
              (pos now)
            ≡ ok peer_id)
          ↔ ((now ≤ made + 60) × (made ≤ now + 60))
    unfolding ◌+ℤ◌
    verify_request_token-generate_token priv peer_id made now h small present =
        let window = in_window c now (pos made) present (small, omega arith) in
        let e = verify_generated priv peer_id made (pos now) h small in
        elim (Bool-cases (out_of_window c (pos now) (pos made))) [
          | inl out ↦ (
            λ passed. absurd (ground (arith, e)),
            λ near. absurd (ground (arith, window.1 (ground arith, ground arith))),
          )
          | inr inside ↦ (λ passed. ground (arith, window.0 inside), λ near. ground (arith, e))
        ]
