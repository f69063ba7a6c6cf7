-- ===== src/Jwt/Tokens.antt =====
-- The life of a token: valid from the second in which it was made, until it expires.
use chat_room.Prelude.{
  ℕ, ◌+◌, ◌<◌, ◌≤◌, ◌≡◌, refl, String, Bool-cases, inl, inr, true, ◌&&◌, none, some, ltb, leb,
  if◌then◌else◌, ok, err, arith,
}
use chat_room.Jwt.{
  Claims, token_expired, Library, expired_token, TokenManager, numeric_date, new_claims, parsed,
  renamed, refusal, generate_token, parse_token, refresh_claims, refresh_parsed, refresh_token,
}

-- Documented behaviour of the library on a token that it has signed, with the same secret.
pub record Documented {X : Type 0} (lib : Library X) : Type 0 where
  pub unchecked :
      (claims : Claims) (secret token : String)
      → lib.signed_string claims secret ≡ ok token
      → lib.parse_with_claims secret none token ≡ ok claims
  pub valid :
      (claims : Claims) (secret token : String) (from until now : ℕ)
      → lib.signed_string claims secret ≡ ok token
      → claims.not_before ≡ some from
      → claims.issued_at ≡ some from
      → claims.expires_at ≡ some until
      → from ≤ now
      → now < until
      → lib.parse_with_claims secret (some now) token ≡ ok claims
  pub expired :
      (claims : Claims) (secret token : String) (until now : ℕ)
      → lib.signed_string claims secret ≡ ok token
      → claims.expires_at ≡ some until
      → until ≤ now
      → lib.parse_with_claims secret (some now) token ≡ err token_expired

refusal-none : (d now e : ℕ) → leb now (e + d) && leb e (now + d) ≡ true → refusal d now e ≡ none
unfolding refusal
refusal-none d now e h = ground arith

module _ {X : Type 0} (lib : Library X) (tm : TokenManager) (doc : Documented lib) where
  numeric_date_le : (t : ℕ) → numeric_date t ≤ t
  numeric_date_le t = omega arith

  -- A token that was generated at one time and is parsed at a later one gives back its claims until
  -- it expires, and from then on the error of an expired token.
  pub parse_token-generate_token :
      (made now : ℕ) (user_id username email token : String)
      → generate_token lib tm made user_id username email ≡ ok token
      → made ≤ now
      → parse_token lib tm now token ≡ (
          if ltb now (numeric_date (made + tm.expire_dur))
          then ok (new_claims tm made user_id username email)
          else err expired_token)
  unfolding generate_token parse_token parsed renamed
  parse_token-generate_token made now user_id username email token signed later =
      elim (Bool-cases (ltb now (numeric_date (made + tm.expire_dur)))) [
        | inl live ↦
            rw
              (
                live,
                doc.valid (new_claims tm made user_id username email) tm.secret token
                    (numeric_date made) (numeric_date (made + tm.expire_dur)) now signed refl refl
                    refl (omega (arith, numeric_date_le made)) (ground arith),
              )
              refl
        | inr over ↦
            rw
              (
                over,
                doc.expired (new_claims tm made user_id username email) tm.secret token
                    (numeric_date (made + tm.expire_dur)) now signed refl (ground arith),
              )
              refl
      ]

  -- A token is renewed, for the same user, where the time of the renewal is within the refresh
  -- duration of the token's expiry, before it or after it.
  pub refresh_token-generate_token :
      (made now : ℕ) (user_id username email token : String)
      → generate_token lib tm made user_id username email ≡ ok token
      → leb now (numeric_date (made + tm.expire_dur) + tm.refresh_dur)
          && leb (numeric_date (made + tm.expire_dur)) (now + tm.refresh_dur)
        ≡ true
      → refresh_token lib tm now token ≡ ok (generate_token lib tm now user_id username email)
  unfolding generate_token refresh_token refresh_parsed refresh_claims
  refresh_token-generate_token made now user_id username email token signed within =
      rw
        (
          doc.unchecked (new_claims tm made user_id username email) tm.secret token signed,
          refresh_parsed,
          accepted,
        )
        refl
    where
      accepted : refusal tm.refresh_dur now (numeric_date (made + tm.expire_dur)) ≡ none
      accepted = refusal-none tm.refresh_dur now (numeric_date (made + tm.expire_dur)) within
