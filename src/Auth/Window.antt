-- ===== src/Auth/Window.antt =====
-- What a token that passes has shown (pkg/auth/verifier.go).
use Prim.Native.String as Text
use package.shinzo_scheduler_service.Base.{
  ℕ, ◌^◌, ◌<◌, ◌+◌, String, ◌≡◌, subst, true, false, some, ok, arith, Result-cases, Option-cases,
  Bool-cases, inl, inr, ◌↔◌,
}
use package.shinzo_scheduler_service.Base.Decimal.{parse_int}
use package.shinzo_scheduler_service.Base.Int.{ℤ, pos, negsuc, ◌+ℤ◌, ◌-ℤ◌, ◌≤ℤ◌, wrap64, IsInt64}
use package.shinzo_scheduler_service.Auth.{
  Crypto, split_token, check, out_of_window, verify_request_token,
}

module _ {P S : Type 0} (c : Crypto P S) where
  -- The wrapping difference decides the window exactly: for a present below 2^62 and any 64-bit
  -- timestamp, a token is in the window if and only if it is at most 60 seconds off.
  pub in_window :
      (now : ℕ) (ts : ℤ)
      → now < 2 ^ 62
      → IsInt64 ts
      → (out_of_window c (pos now) ts ≡ false)
        ↔ ((pos now ≤ℤ (pos 60 +ℤ ts)) × (ts ≤ℤ pos (now + 60)))
  unfolding out_of_window wrap64 ◌-ℤ◌ ◌+ℤ◌
  in_window now (pos n) small w = (λ h. ground arith, λ h. ground arith)
  in_window now (negsuc n) small w = (λ h. ground arith, λ h. ground arith)

  -- A signature by the key that the text gives, over a hash.
  abbrev pub SignedBy : String → String → String → Type 0
  SignedBy pub_key_hex hash sig_hex =
      (pub_bytes : String) × (pub_key : P) × (sig_bytes : String) × (sig : S) × (c.decode_hex
          pub_key_hex
        ≡ some pub_bytes)
      × (c.parse_pub_key pub_bytes ≡ some pub_key)
      × (c.decode_hex sig_hex ≡ some sig_bytes)
      × (c.parse_signature sig_bytes ≡ some sig)
      × (c.verify sig hash pub_key ≡ true)

  check-SignedBy :
      (pub_key_hex hash sig_hex : String)
      → check c pub_key_hex hash sig_hex ≡ ok tt
      → SignedBy pub_key_hex hash sig_hex
  unfolding check
  check-SignedBy pub_key_hex hash sig_hex h = elim (Option-cases (c.decode_hex pub_key_hex)) [
    | inl e ↦ absurd (ground arith)
    | inr (pub_bytes, e1) ↦ elim (Option-cases (c.parse_pub_key pub_bytes)) [
      | inl e ↦ absurd (ground arith)
      | inr (pub_key, e2) ↦ elim (Option-cases (c.decode_hex sig_hex)) [
        | inl e ↦ absurd (ground arith)
        | inr (sig_bytes, e3) ↦ elim (Option-cases (c.parse_signature sig_bytes)) [
          | inl e ↦ absurd (ground arith)
          | inr (sig, e4) ↦ (pub_bytes, pub_key, sig_bytes, sig, e1, e2, e3, e4, ground arith)
        ]
      ]
    ]
  ]

  -- What a token shows: it names the peer and a time within the window, and its last part is a
  -- signature by the key over the hash of the peer's name, a dot and the time.
  abbrev pub IsToken : String → String → ℤ → String → Type 0
  IsToken pub_key_hex token now peer_id =
      (ts_str : String) × (sig_hex : String) × (ts : ℤ) × (split_token token
        ≡ some (peer_id, ts_str, sig_hex))
      × (parse_int ts_str ≡ some ts)
      × (out_of_window c now ts ≡ false)
      × SignedBy pub_key_hex (c.sha256 (Text.◌++◌ peer_id (Text.◌++◌ "." ts_str))) sig_hex

  -- A token passes only if it is in time and signed with the key for the peer that it names.
  pub verify_request_token-IsToken :
      (pub_key_hex token : String) (now : ℤ) (peer_id : String)
      → verify_request_token c pub_key_hex token now ≡ ok peer_id
      → IsToken pub_key_hex token now peer_id
  unfolding verify_request_token
  verify_request_token-IsToken pub_key_hex token now peer_id h =
      elim (Option-cases (split_token token)) [
        | inl e ↦ absurd (ground arith)
        | inr ((peer, ts_str, sig_hex), e1) ↦ elim (Option-cases (parse_int ts_str)) [
          | inl e ↦ absurd (ground arith)
          | inr (ts, e2) ↦ elim (Bool-cases (out_of_window c now ts)) [
            | inl out ↦ absurd (ground arith)
            | inr inside ↦
                let hash = c.sha256 (Text.◌++◌ peer (Text.◌++◌ "." ts_str)) in
                elim (Result-cases (check c pub_key_hex hash sig_hex)) [
                  | inr (e, bad) ↦ absurd (ground arith)
                  | inl (tt, good) ↦
                      let same : peer ≡ peer_id = ground arith in
                      subst (IsToken pub_key_hex token now) same (
                        ts_str,
                        sig_hex,
                        ts,
                        e1,
                        e2,
                        inside,
                        check-SignedBy pub_key_hex hash sig_hex good,
                      )
                ]
          ]
        ]
      ]
